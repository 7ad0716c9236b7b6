-- ===== src/Tests/Flagging.antt =====
-- Flags and signals.
use pf9_oidc_proxy.Base.{
  ◌≤◌, length, ◌↔◌, true, false, none, List, [], ◌∷◌, ◌++◌, ◌≡◌, inl, inr, refl,
}
use pf9_oidc_proxy.Strings.{Str, bytes, ◌==◌, split, trim_space}
use pf9_oidc_proxy.Maps.{Map, values_at}
use pf9_oidc_proxy.Command.Flags.{set}
use pf9_oidc_proxy.Command.Flags.Text.{string, set-string}
use pf9_oidc_proxy.Csv.{read, write, bare_quote, extraneous_quote, eof}
use pf9_oidc_proxy.Command.FlagSets.{LibraryFlags, switch, new_options, add_flags}
use pf9_oidc_proxy.Signals.{waiting, after_signals, is_stop_closed, is_exited, after_signals_lem}

abbrev headers : Map (List Str)
headers = (bytes "a", bytes "7" ∷ bytes "3" ∷ []) ∷ (bytes "b,c", bytes "" ∷ []) ∷ []

abbrev headers_text : Str
headers_text = bytes "a=7,a=3,\"b,c=\""

-- All that the flag's text computes with.
printing : Unit {0}
unfolding string read write trim_space split ◌==◌
printing = tt

headers_shown : string headers ≡ bytes "[" ++ (headers_text ++ bytes "]")
unfolding printing
headers_shown = refl

-- As encoding/csv has it.
csv_texts :
    (read (bytes "a,\"b\"\"c\"") ≡ inr (bytes "a" ∷ bytes "b\"c" ∷ []))
    × (read (bytes "a\"") ≡ inl bare_quote)
    × (read (bytes "\"a\"b") ≡ inl extraneous_quote)
    × (read (bytes "\"a") ≡ inl extraneous_quote)
    × (read (13 ∷ 10 ∷ bytes "a," ++ 13 ∷ 10 ∷ bytes "b") ≡ inr (bytes "a" ∷ [] ∷ []))
    × (read (10 ∷ 10 ∷ []) ≡ inl eof)
    × (write (bytes "\\." ∷ bytes " a" ∷ bytes "" ∷ bytes "\"" ∷ [])
        ≡ bytes "\"\\.\",\" a\",,\"\"\"\"" ++ 10 ∷ [])
unfolding printing
csv_texts = (refl, refl, refl, refl, refl, refl, refl)

set-string_example :
    ((set headers_text []).1 ≡ none)
    × (values_at (bytes "a") (set headers_text []).0 ≡ values_at (bytes "a") headers)
unfolding printing
set-string_example =
    set-string headers headers_text (bytes "a") headers_shown ((refl, tt), (tt, tt))
      (
        (((refl, tt), (refl, tt)), ((refl, refl), refl)),
        (
          (((refl, tt), (refl, tt)), ((refl, refl), refl)),
          ((((refl, (refl, (refl, tt))), tt), ((refl, refl), refl)), tt),
        ),
      )

-- The flags of a command whose libraries have none, if none is left out.
abbrev bare : LibraryFlags
bare = record {
  serving = λ s. [];
  audit = [];
  global = λ name. [];
  client = λ cache impersonate group. [];
}

last_flag :
    add_flags (λ fs section. section) [] (new_options bare).1
    ≡ record { name = bytes "version"; shorthand = []; default = switch false } ∷ []
unfolding new_options add_flags
last_flag = refl

abbrev three : List (Unit {0})
three = tt ∷ tt ∷ tt ∷ []

after_signals_lem_example :
    ((is_stop_closed (after_signals three waiting) ≡ true) ↔ (1 ≤ length three))
    × ((is_exited (after_signals three waiting) ≡ true) ↔ (4 ≤ length three))
after_signals_lem_example = after_signals_lem three
