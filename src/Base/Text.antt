-- ===== src/Base/Text.antt =====
-- Go strings: compared whole, as keys of string maps, and walked by code point in the hash.
use Prim.Native.Nat.{ℕ, zero, suc}
use Prim.Native.Char.{code}
use Prim.Native.String.{String}
use mathlib.Core.Path.{◌≡◌, refl, sym, ap, ◌∙◌}
use mathlib.Core.Logic.{◌≢◌, inr, inl, ◌↔◌}
use mathlib.Core.Bool.{Bool, true, false}
use mathlib.Core.List.{List, [], ◌∷◌}
use mathlib.Core.Option.{Option, none, some}
use native.Mathlib.Omega.{arith}
use text.Mathlib.Text.{◌==◌ as str_eq}
use text.Mathlib.TextEquality.{eq_iff as str_eq_iff}
use icmp_mon.Base.Tests.{Bool-cases, if◌then◌else◌}
use icmp_mon.Base.Lists.{In}

infix 50 ◌==◌
abbrev pub ◌==◌ : String → String → Bool
a == b = str_eq a b

pub ==_iff : (a b : String) → ((a == b) ≡ true) ↔ (a ≡ b)
==_iff = str_eq_iff

pub ==_self : (a : String) → (a == a) ≡ true
==_self a = (==_iff a a).1 refl

pub ==-false : (a b : String) → a ≢ b → (a == b) ≡ false
==-false a b h = elim (Bool-cases (a == b)) [ inl e ↦ absurd (h ((==_iff a b).0 e)) | inr e ↦ e ]

-- The code points that `range` visits.
abbrev pub codes : String → List ℕ
codes String.[] = []
codes (String.◌∷◌ c s) = code c ∷ codes s

-- `a + b` of Go strings.
infixr 60 ◌+++◌
abbrev pub ◌+++◌ : String → String → String
String.[] +++ b = b
(String.◌∷◌ c s) +++ b = String.◌∷◌ c (s +++ b)

-- `for _, s := range slice { if s == item { return true } }`
abbrev pub contains : List String → String → Bool
contains [] item = false
contains (s ∷ slice) item = if s == item then true else contains slice item

pub contains_iff :
    (slice : List String) (item : String) → (contains slice item ≡ true) ↔ In item slice
contains_iff [] item = (λ h. cc, λ h. absurd h)
contains_iff (s ∷ slice) item =
    let ih = contains_iff slice item in
    (λ h. ground (arith, ih, ==_iff s item), λ h. ground (arith, ih, ==_iff s item))

pub contains-false :
    (slice : List String) (item : String) → ¬ In item slice → contains slice item ≡ false
contains-false slice item h = elim (Bool-cases (contains slice item)) [
  | inl e ↦ absurd (h ((contains_iff slice item).0 e))
  | inr e ↦ e
]

-- A Go map with string keys; a missing key is `none`.
abbrev pub lookup {ℓ} : {A : Type ℓ} → String → List (String × A) → Option A
lookup key [] = none
lookup key (entry ∷ entries) = if entry.0 == key then some entry.1 else lookup key entries

-- `m[k]` on a `map[string]string`: the empty string for a missing key.
abbrev pub lookup_or_empty : String → List (String × String) → String
lookup_or_empty k m = elim (lookup k m) [ none ↦ "" | some v ↦ v ]

-- One string of each length: a sequence of ids that are all different.
abbrev pub tally : ℕ → String
tally zero = ""
tally (suc n) = String.◌∷◌ "x" (tally n)

abbrev tally_length : String → ℕ
tally_length String.[] = 0
tally_length (String.◌∷◌ c s) = suc (tally_length s)

tally_length-tally : (n : ℕ) → tally_length (tally n) ≡ n
tally_length-tally zero = refl
tally_length-tally (suc n) = ap suc (tally_length-tally n)

pub tally-Injective : (m n : ℕ) → tally m ≡ tally n → m ≡ n
tally-Injective m n e = sym (tally_length-tally m) ∙ ap tally_length e ∙ tally_length-tally n
