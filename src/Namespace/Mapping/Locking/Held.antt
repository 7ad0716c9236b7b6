-- ===== src/Namespace/Mapping/Locking/Held.antt =====
-- Which lookups hold the read lock, and what they have read.
use pf9_oidc_proxy.Base.{ℕ, ◌+◌, ◌≤◌, List, [], ◌∷◌, ◌≡◌, arith, All, ap}
use pf9_oidc_proxy.Strings.{Str}
use pf9_oidc_proxy.Maps.{Map, lookup}
use pf9_oidc_proxy.Namespace.Mapping.{MappingManager, get_namespace}
use pf9_oidc_proxy.Namespace.Mapping.Locking.{
  Lookup, asking, holding, reading, found, answered, Replaced, here, there,
}

-- Whether a lookup holds the read lock.
abbrev pub held : Lookup → ℕ
held (asking tenant) = 0
held (holding tenant) = 1
held (reading tenant m) = 1
held (found tenant answer) = 1
held (answered tenant answer) = 0

abbrev pub all_held : List Lookup → ℕ
all_held [] = 0
all_held (l ∷ ls) = held l + all_held ls

pub Replaced-all_held :
    (l l' : Lookup) (ls ls' : List Lookup)
    → Replaced l l' ls ls'
    → all_held ls' + held l ≡ all_held ls + held l'
Replaced-all_held l l' ls ls' (here rest) = omega arith
Replaced-all_held l l' ls ls' (there k {ls = rest} {ls' = rest'} r) =
    omega (arith, Replaced-all_held l l' rest rest' r)

pub Replaced-All :
    (P : Lookup → Type 0) (l l' : Lookup) (ls ls' : List Lookup)
    → Replaced l l' ls ls'
    → All P ls
    → P l'
    → All P ls'
Replaced-All P l l' ls ls' (here rest) (_, h) p = (p, h)
Replaced-All P l l' ls ls' (there k {ls = rest} {ls' = rest'} r) (q, h) p =
    (q, Replaced-All P l l' rest rest' r h p)

-- What is replaced was there.
pub Replaced-before :
    (P : Lookup → Type 0) (l l' : Lookup) (ls ls' : List Lookup)
    → Replaced l l' ls ls'
    → All P ls
    → P l
Replaced-before P l l' ls ls' (here rest) (p, _) = p
Replaced-before P l l' ls ls' (there k {ls = rest} {ls' = rest'} r) (_, h) =
    Replaced-before P l l' rest rest' r h

pub Replaced-held :
    (l l' : Lookup) (ls ls' : List Lookup) → Replaced l l' ls ls' → held l ≤ all_held ls
Replaced-held l l' ls ls' (here rest) = omega arith
Replaced-held l l' ls ls' (there k {ls = rest} {ls' = rest'} r) =
    omega (arith, Replaced-held l l' rest rest' r)

-- A lookup under the lock has read the mappings of the manager `m`.
abbrev pub IsCurrent : MappingManager → Lookup → Type 0
IsCurrent m (asking tenant) = Unit {0}
IsCurrent m (holding tenant) = Unit {0}
IsCurrent m (reading tenant mappings) = mappings ≡ m.mappings
IsCurrent m (found tenant answer) = answer ≡ get_namespace m tenant
IsCurrent m (answered tenant answer) = Unit {0}

-- Where no lookup holds the lock, any manager will do.
pub unheld-IsCurrent :
    (m : MappingManager) (ls : List Lookup) → all_held ls ≡ 0 → All (IsCurrent m) ls
unheld-IsCurrent m [] e = tt
unheld-IsCurrent m (asking tenant ∷ ls) e = (tt, unheld-IsCurrent m ls (omega arith))
unheld-IsCurrent m (holding tenant ∷ ls) e = absurd (omega arith)
unheld-IsCurrent m (reading tenant mappings ∷ ls) e = absurd (omega arith)
unheld-IsCurrent m (found tenant answer ∷ ls) e = absurd (omega arith)
unheld-IsCurrent m (answered tenant answer ∷ ls) e = (tt, unheld-IsCurrent m ls (omega arith))

pub looked_up :
    (tenant : Str) (mappings : Map Str) (m : MappingManager)
    → mappings ≡ m.mappings
    → lookup tenant mappings ≡ get_namespace m tenant
unfolding get_namespace
looked_up tenant mappings m e = ap (lookup tenant) e
