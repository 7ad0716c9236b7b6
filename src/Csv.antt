-- ===== src/Csv.antt =====
-- Package encoding/csv of Go with its default settings, as far as
-- pkg/util/flags/string_to_string_slice.go uses it: `Read` of the first record of a text, and `Write`
-- of one record. An error has no position in the text.
pub mod Laws
pub mod RoundTrip
use pf9_oidc_proxy.Base.{
  ℕ, Bool, true, false, not, ◌&&◌, ◌||◌, List, [], ◌∷◌, ◌++◌, ◌⊎◌, inl, inr, eqb, any,
  if◌then◌else◌,
}
use pf9_oidc_proxy.Strings.{Str, bytes, ◌==◌, is_space}

pub data CsvError : Type 0 where
  bare_quote extraneous_quote eof : CsvError

abbrev pub carriage_return : ℕ
carriage_return = 13

abbrev pub newline : ℕ
newline = 10

-- Where the reader is in the record.
pub data Mode : Type 0 where
  field_start bare quoted quote_seen record_done : Mode
  broken : CsvError → Mode

-- The bytes of the field so far, and the fields before it.
pub record Reading : Type 0 where
  pub mode : Mode
  pub field : Str
  pub fields : List Str

abbrev pub reading : Mode → Str → List Str → Reading
reading mode field fields = record { mode = mode; field = field; fields = fields }

bare_byte : ℕ → Str → List Str → Reading
bare_byte c field fields =
    if eqb c b','
    then reading field_start [] (fields ++ field ∷ [])
    else if eqb c newline
    then reading record_done [] (fields ++ field ∷ [])
    else if eqb c b'"'
    then reading (broken bare_quote) [] []
    else reading bare (field ++ c ∷ []) fields

unfoldable pub read_byte : Mode → ℕ → Str → List Str → Reading
unfolding bare_byte
read_byte field_start c field fields =
    if eqb c b'"' then reading quoted field fields else bare_byte c field fields
read_byte bare c field fields = bare_byte c field fields
read_byte quoted c field fields =
    if eqb c b'"' then reading quote_seen field fields else reading quoted (field ++ c ∷ []) fields
read_byte quote_seen c field fields =
    if eqb c b'"'
    then reading quoted (field ++ c ∷ []) fields
    else if eqb c b','
    then reading field_start [] (fields ++ field ∷ [])
    else if eqb c newline
    then reading record_done [] (fields ++ field ∷ [])
    else reading (broken extraneous_quote) [] []
read_byte record_done c field fields = reading record_done field fields
read_byte (broken e) c field fields = reading (broken e) field fields

unfoldable pub read_bytes : Str → Reading → Reading
unfolding read_byte
read_bytes [] r = r
read_bytes (c ∷ s) r = read_bytes s (read_byte r.mode c r.field r.fields)

-- At the end of the text.
pub finish : Mode → Str → List Str → CsvError ⊎ List Str
finish field_start field fields = inr (fields ++ field ∷ [])
finish bare field fields = inr (fields ++ field ∷ [])
finish quoted field fields = inl extraneous_quote
finish quote_seen field fields = inr (fields ++ field ∷ [])
finish record_done field fields = inr fields
finish (broken e) field fields = inl e

-- Whether a carriage return before this text is dropped.
ends_line : Str → Bool
ends_line [] = true
ends_line (c ∷ s) = eqb c newline

-- `readLine` makes the end of a line a newline.
unfoldable pub normal_lines : Str → Str
unfolding ends_line
normal_lines [] = []
normal_lines (c ∷ s) =
    let rest = normal_lines s in if eqb c carriage_return && ends_line s then rest else c ∷ rest

-- Without the empty lines at the start.
unfoldable pub skip_empty : Str → Str
skip_empty [] = []
skip_empty (c ∷ s) = let rest = skip_empty s in if eqb c newline then rest else c ∷ s

unfoldable pub read_record : Str → CsvError ⊎ List Str
unfolding read_bytes finish
read_record [] = inl eof
read_record (c ∷ s) =
    let r = read_bytes (c ∷ s) (reading field_start [] []) in finish r.mode r.field r.fields

unfoldable pub read : Str → CsvError ⊎ List Str
unfolding read_record skip_empty normal_lines
read text = read_record (skip_empty (normal_lines text))

is_special : ℕ → Bool
is_special c = eqb c b',' || (eqb c b'"' || (eqb c carriage_return || eqb c newline))

starts_with_space : Str → Bool
starts_with_space [] = false
starts_with_space (c ∷ s) = is_space c

unfoldable pub field_needs_quotes : Str → Bool
unfolding is_special starts_with_space
field_needs_quotes field = field == bytes "\\." || (any is_special field || starts_with_space field)

unfoldable pub double_quotes : Str → Str
double_quotes [] = []
double_quotes (c ∷ s) = if eqb c b'"' then b'"' ∷ b'"' ∷ double_quotes s else c ∷ double_quotes s

unfoldable pub write_field : Str → Str
unfolding field_needs_quotes double_quotes
write_field field =
    if field_needs_quotes field then b'"' ∷ (double_quotes field ++ b'"' ∷ []) else field

-- The fields behind the first.
unfoldable pub write_more : List Str → Str
unfolding write_field
write_more [] = []
write_more (field ∷ fields) = b',' ∷ (write_field field ++ write_more fields)

unfoldable pub write_fields : List Str → Str
unfolding write_more
write_fields [] = []
write_fields (field ∷ fields) = write_field field ++ write_more fields

unfoldable pub write : List Str → Str
unfolding write_fields
write record_fields = write_fields record_fields ++ newline ∷ []
