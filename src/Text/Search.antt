-- ===== src/Text/Search.antt =====
-- strings.HasPrefix, TrimPrefix, HasSuffix, TrimSuffix, Contains, Replace with count 1, Cut and
-- ReplaceAll.
use mathlib.Core.List.{reverse}
use tinycloud_platform.Base.{
  ℕ, zero, suc, ◌-◌, length, ◌≡◌, refl, Bool, true, false, ◌||◌, Option, none, some, Option-cases,
  inl, inr, [], ◌∷◌, ◌++◌, arith, ◌==◌, if◌then◌else◌, Str,
}

-- The rest after a prefix, if the string begins with it.
unfoldable pub cut_prefix : Str → Str → Option Str
cut_prefix [] s = some s
cut_prefix (p ∷ ps) [] = none
cut_prefix (p ∷ ps) (c ∷ s) = if p == c then cut_prefix ps s else none

unfoldable pub has_prefix : Str → Str → Bool
unfolding cut_prefix
has_prefix s p = elim (cut_prefix p s) [ none ↦ false | some r ↦ true ]

unfoldable pub trim_prefix : Str → Str → Str
unfolding cut_prefix
trim_prefix s p = elim (cut_prefix p s) [ none ↦ s | some r ↦ r ]

unfoldable pub trim_suffix : Str → Str → Str
unfolding cut_prefix
trim_suffix s p = elim (cut_prefix (reverse p) (reverse s)) [ none ↦ s | some r ↦ reverse r ]

unfoldable pub contains : Str → Str → Bool
unfolding has_prefix
contains [] p = has_prefix [] p
contains (c ∷ s) p = has_prefix (c ∷ s) p || contains s p

-- strings.Replace(s, old, new, 1), for an `old` that is not empty
unfoldable pub replace_first : Str → Str → Str → Str
unfolding cut_prefix
replace_first [] old new = []
replace_first (c ∷ s) old new =
    let rest = replace_first s old new in
    elim (cut_prefix old (c ∷ s)) [ none ↦ c ∷ rest | some r ↦ new ++ r ]

-- ReplaceAll, where the first `skip` bytes belong to an occurrence that was replaced.
unfoldable pub replace_from : ℕ → Str → Str → Str → Str
unfolding cut_prefix
replace_from skip [] old new = []
replace_from (suc skip) (c ∷ s) old new = replace_from skip s old new
replace_from zero (c ∷ s) old new = elim (cut_prefix old (c ∷ s)) [
  | none ↦ c ∷ replace_from zero s old new
  | some r ↦ new ++ replace_from (length old - 1) s old new
]

-- strings.ReplaceAll(s, old, new), for an `old` that is not empty
unfoldable pub replace_all : Str → Str → Str → Str
unfolding replace_from
replace_all s old new = replace_from zero s old new

-- strings.Cut(s, sep) for a one-byte separator
unfoldable pub cut : ℕ → Str → Option (Str × Str)
cut sep [] = none
cut sep (c ∷ s) =
    if c == sep
    then some ([], s)
    else elim (cut sep s) [ none ↦ none | some (a, b) ↦ some (c ∷ a, b) ]

-- A prefix that was cut off stands in front of the rest.
pub cut_prefix-append : (p s r : Str) → cut_prefix p s ≡ some r → s ≡ p ++ r
unfolding cut_prefix
cut_prefix-append [] s r h = ground arith
cut_prefix-append (p ∷ ps) [] r h = cc
cut_prefix-append (p ∷ ps) (c ∷ s) r h = ground (arith, cut_prefix-append ps s r)

pub append-cut_prefix : (p r : Str) → cut_prefix p (p ++ r) ≡ some r
unfolding cut_prefix
append-cut_prefix [] r = refl
append-cut_prefix (p ∷ ps) r = ground (arith, append-cut_prefix ps r)

pub trim_prefix-append : (p r : Str) → trim_prefix (p ++ r) p ≡ r
unfolding trim_prefix
trim_prefix-append p r = ground (arith, append-cut_prefix p r)

pub has_prefix-append : (p r : Str) → has_prefix (p ++ r) p ≡ true
unfolding has_prefix
has_prefix-append p r = ground (arith, append-cut_prefix p r)

pub has_prefix-cut : (s p : Str) → has_prefix s p ≡ true → (r : Str) × (s ≡ p ++ r)
unfolding has_prefix
has_prefix-cut s p h = elim (Option-cases (cut_prefix p s)) [
  | inl e ↦ cc (rw (e, has_prefix) at h)
  | inr (r, e) ↦ (r, cut_prefix-append p s r e)
]
