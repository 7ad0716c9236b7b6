-- ===== src/Logging.antt =====
-- findXForwardedFor of pkg/proxy/logging/accesslog.go, and the address that the log gives for a
-- request.
pub mod Lines
use pf9_oidc_proxy.Base.{
  ℕ, zero, suc, ◌+◌, ◌-◌, Bool, true, false, ◌||◌, Option, some, List, [], ◌∷◌, ◌++◌, ◌≡◌, refl,
  sym, ap, ◌∙◌, arith, if◌then◌else◌, length, append_assoc, append-nil, if-agree, Bool-cases, inl,
  inr,
}
use pf9_oidc_proxy.Strings.{Str, bytes, ◌==◌, split, join, index, trim_space}
use pf9_oidc_proxy.Strings.Equality.{eq_iff}
use pf9_oidc_proxy.Http.{Header, get}

abbrev pub take : ℕ → Str → Str
take zero s = []
take (suc n) [] = []
take (suc n) (c ∷ s) = c ∷ take n s

before_colon : Option ℕ → Str → Str
before_colon (some (suc i)) s = take (suc i) s
before_colon _ s = s

-- The part of the remote address before a colon that is not its first byte.
unfoldable pub logged_addr : Str → Str
unfolding before_colon
logged_addr s = before_colon (index b':' s) s

abbrev pub separator : Str
separator = bytes ", "

-- The loop over the addresses, with its variables `newXFwdFor` and `oneFound`.
unfoldable pub collect_ips : Str → List Str → Str → Bool → Str × Bool
collect_ips remote_addr [] new found = (new, found)
collect_ips remote_addr (ip ∷ ips) new found =
    let same = trim_space ip == remote_addr in
    collect_ips remote_addr ips (if same then new else new ++ (trim_space ip ++ separator))
      (if same then found else true)

cut_last : Str × Bool → Str
cut_last (new, found) = if found then take (length new - 2) new else new

unfoldable pub find_x_forwarded_for : Header → Str → Str
unfolding collect_ips cut_last
find_x_forwarded_for headers remote_addr =
    let x_fwd_for = get (bytes "x-forwarded-for") headers in
    if x_fwd_for == []
    then x_fwd_for
    else cut_last (collect_ips remote_addr (split b',' x_fwd_for) [] false)

-- The addresses without the white space around them, less those that are the remote address.
abbrev pub others : Str → List Str → List Str
others remote_addr [] = []
others remote_addr (ip ∷ ips) =
    let rest = others remote_addr ips in
    if trim_space ip == remote_addr then rest else trim_space ip ∷ rest

abbrev pub is_some_ip : List Str → Bool
is_some_ip [] = false
is_some_ip (_ ∷ _) = true

ended : List Str → Str
ended [] = []
ended (ip ∷ ips) = ip ++ (separator ++ ended ips)

collect_ips-others :
    (remote_addr : Str) (ips : List Str) (new : Str) (found : Bool)
    → collect_ips remote_addr ips new found
      ≡ (new ++ ended (others remote_addr ips), found || is_some_ip (others remote_addr ips))
unfolding collect_ips ended
collect_ips-others remote_addr [] new found = ground (arith, append-nil new)
collect_ips-others remote_addr (ip ∷ ips) new found =
    elim (Bool-cases (trim_space ip == remote_addr)) [
      | inl e ↦ rw e (collect_ips-others remote_addr ips new found)
      | inr e ↦ rw e (
          collect_ips-others remote_addr ips (new ++ (trim_space ip ++ separator)) true
          ∙ ground (
            arith,
            append_assoc new (trim_space ip ++ separator) (ended (others remote_addr ips)),
            append_assoc (trim_space ip) separator (ended (others remote_addr ips)),
          ))
    ]

ended-join : (ip : Str) (ips : List Str) → ended (ip ∷ ips) ≡ join separator (ip ∷ ips) ++ separator
unfolding ended join
ended-join ip [] = refl
ended-join ip (other ∷ ips) =
    ap (λ rest. ip ++ (separator ++ rest)) (ended-join other ips)
    ∙ sym (append_assoc ip (separator ++ join separator (other ∷ ips)) separator)

length-separator : (s : Str) → length (s ++ separator) ≡ length s + 2
length-separator [] = refl
length-separator (c ∷ s) = rw (length-separator s) (omega arith)

take-length : (s rest : Str) → take (length s) (s ++ rest) ≡ s
take-length [] rest = refl
take-length (c ∷ s) rest = ap (◌∷◌ c) (take-length s rest)

minus_two : (n : ℕ) → n + 2 - 2 ≡ n
minus_two n = omega arith

take-separator : (s : Str) → take (length (s ++ separator) - 2) (s ++ separator) ≡ s
take-separator s = rw (length-separator s, minus_two (length s)) (take-length s separator)

cut_last-others : (ips : List Str) → cut_last (ended ips, is_some_ip ips) ≡ join separator ips
unfolding cut_last ended join
cut_last-others [] = refl
cut_last-others (ip ∷ ips) =
    ap (λ s. cut_last (s, true)) (ended-join ip ips) ∙ take-separator (join separator (ip ∷ ips))

-- The log gives the addresses of the X-Forwarded-For header, each without the white space around it,
-- less those that are the remote address, with a comma and a space in between. A request without the
-- header gives the empty text.
pub find_x_forwarded_for_lem :
    (headers : Header) (remote_addr : Str)
    → find_x_forwarded_for headers remote_addr ≡ (
        if get (bytes "x-forwarded-for") headers == []
        then []
        else join separator
            (others remote_addr (split b',' (get (bytes "x-forwarded-for") headers))))
unfolding find_x_forwarded_for
find_x_forwarded_for_lem headers remote_addr =
    let x_fwd_for = get (bytes "x-forwarded-for") headers in
    let ips = split b',' x_fwd_for in
    if-agree (x_fwd_for == []) (λ e. (eq_iff x_fwd_for []).0 e)
      (λ e.
        ap cut_last (collect_ips-others remote_addr ips [] false)
        ∙ cut_last-others (others remote_addr ips))
