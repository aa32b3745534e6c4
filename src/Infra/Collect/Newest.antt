-- ===== src/Infra/Collect/Newest.antt =====
-- The newest datapoint of each value of a dimension.
use tinycloud_platform.Base.{
  ℕ, ◌≤◌, ◌≡◌, refl, sym, ap, ◌∙◌, Bool, true, false, not, ◌||◌, Option, none, some, List, [], ◌∷◌,
  arith, ltb, if◌then◌else◌, Str, str_eq, str_eq_iff, str_eq_refl, subst, is_empty, StrMap, lookup,
  insert, lookup-insert, keep, All, Bool-cases, inl, inr,
}
use tinycloud_platform.Infra.Types.{Float, Series}
use tinycloud_platform.Infra.Collect.{or_empty, is_newer, latest_from, latest_by_dimension}

-- The value of a series for the dimension, empty if it has none.
abbrev pub value_for : Str → Series → Str
value_for dimension s = or_empty (lookup dimension s.dimensions)

abbrev pub later : Series → Option (ℕ × Float) → Option (ℕ × Float)
later s none = some (s.timestamp, s.value)
later s (some (t, v)) = if ltb t s.timestamp then some (s.timestamp, s.value) else some (t, v)

later-is_newer :
    (s : Series) (seen : Option (ℕ × Float))
    → later s seen ≡ (if is_newer s.timestamp seen then some (s.timestamp, s.value) else seen)
later-is_newer s none = refl
later-is_newer s (some (t, v)) = refl

-- The datapoint of a list with the greatest timestamp, the first of several, beside one seen before.
unfoldable pub newest_in : List Series → Option (ℕ × Float) → Option (ℕ × Float)
newest_in [] seen = seen
newest_in (s ∷ series) seen = newest_in series (later s seen)

abbrev put_latest : Str → Series → StrMap (ℕ × Float) → StrMap (ℕ × Float)
put_latest key s m =
    if is_empty key || not (is_newer s.timestamp (lookup key m))
    then m
    else insert key (s.timestamp, s.value) m

lookup-put_same :
    (k : Str) (s : Series) (m : StrMap (ℕ × Float))
    → is_empty k ≡ false
    → lookup k (put_latest k s m) ≡ later s (lookup k m)
lookup-put_same k s m h = elim (Bool-cases (is_newer s.timestamp (lookup k m))) [
  | inl n ↦
      rw (h, later-is_newer s (lookup k m), n)
        (lookup-insert k k (s.timestamp, s.value) m ∙ rw (str_eq_refl k) refl)
  | inr n ↦ rw (h, later-is_newer s (lookup k m), n) refl
]

lookup-put_latest :
    (k key : Str) (s : Series) (m : StrMap (ℕ × Float))
    → is_empty k ≡ false
    → lookup k (put_latest key s m) ≡ (if str_eq key k then later s (lookup k m) else lookup k m)
lookup-put_latest k key s m h = elim (Bool-cases (str_eq key k)) [
  | inl e ↦
      ap (λ j. lookup k (put_latest j s m)) ((str_eq_iff key k).0 e)
      ∙ lookup-put_same k s m h
      ∙ rw e refl
  | inr e ↦ elim (Bool-cases (is_empty key || not (is_newer s.timestamp (lookup key m)))) [
    | inl n ↦ rw (n, e) refl
    | inr n ↦ rw (n, e) (lookup-insert key k (s.timestamp, s.value) m ∙ rw e refl)
  ]
]

newest_in-if :
    (b : Bool) (s : Series) (series : List Series) (seen : Option (ℕ × Float))
    → newest_in series (if b then later s seen else seen)
      ≡ newest_in (if b then s ∷ series else series) seen
unfolding newest_in
newest_in-if true s series seen = refl
newest_in-if false s series seen = refl

lookup-latest_from :
    (dimension k : Str) (series : List Series) (m : StrMap (ℕ × Float))
    → is_empty k ≡ false
    → lookup k (latest_from dimension series m)
      ≡ newest_in (keep (λ s. str_eq (value_for dimension s) k) series) (lookup k m)
unfolding latest_from keep newest_in
lookup-latest_from dimension k [] m h = refl
lookup-latest_from dimension k (s ∷ series) m h =
    lookup-latest_from dimension k series (put_latest (value_for dimension s) s m) h
    ∙ ap (newest_in (keep (λ s. str_eq (value_for dimension s) k) series))
        (lookup-put_latest k (value_for dimension s) s m h)
    ∙ newest_in-if (str_eq (value_for dimension s) k) s
        (keep (λ s. str_eq (value_for dimension s) k) series) (lookup k m)

-- The time of a datapoint that may be missing.
abbrev AtMost : Option (ℕ × Float) → ℕ → Type 0
AtMost none t = Unit
AtMost (some (u, v)) t = u ≤ t

later-AtMost :
    (s : Series) (seen : Option (ℕ × Float)) (t : ℕ)
    → AtMost (later s seen) t
    → (s.timestamp ≤ t) × AtMost seen t
later-AtMost s none t h = (h, tt)
later-AtMost s (some (u, v)) t h = elim (Bool-cases (ltb u s.timestamp)) [
  | inl e ↦
      let g : s.timestamp ≤ t =
        subst (λ b. AtMost (if b then some (s.timestamp, s.value) else some (u, v)) t) e h in
      (g, ground arith)
  | inr e ↦
      let g : u ≤ t =
        subst (λ b. AtMost (if b then some (s.timestamp, s.value) else some (u, v)) t) e h in
      (ground arith, g)
]

newest_in-AtMost :
    (series : List Series) (seen : Option (ℕ × Float)) (t : ℕ) (v : Float)
    → newest_in series seen ≡ some (t, v)
    → All (λ (s : Series). s.timestamp ≤ t) series × AtMost seen t
unfolding newest_in
newest_in-AtMost [] seen t v h = (tt, subst (λ o. AtMost o t) (sym h) (omega arith))
newest_in-AtMost (s ∷ series) seen t v h =
    let (a, b) = newest_in-AtMost series (later s seen) t v h in
    let (c, d) = later-AtMost s seen t b in ((c, a), d)

-- For a value of the dimension that is not empty, the collector keeps the datapoint with the greatest
-- timestamp of the series with that value, the first of several, and none if there is no such series.
pub latest_by_dimension-newest :
    (dimension k : Str) (series : List Series)
    → is_empty k ≡ false
    → lookup k (latest_by_dimension series dimension)
      ≡ newest_in (keep (λ s. str_eq (value_for dimension s) k) series) none
unfolding latest_by_dimension
latest_by_dimension-newest dimension k series h = lookup-latest_from dimension k series [] h

-- No series with the value is newer than what is kept.
pub latest_by_dimension-upper :
    (dimension k : Str) (series : List Series) (t : ℕ) (v : Float)
    → is_empty k ≡ false
    → lookup k (latest_by_dimension series dimension) ≡ some (t, v)
    → All (λ (s : Series). s.timestamp ≤ t) (keep (λ s. str_eq (value_for dimension s) k) series)
latest_by_dimension-upper dimension k series t v h e =
    (newest_in-AtMost (keep (λ s. str_eq (value_for dimension s) k) series) none t v
      (sym (latest_by_dimension-newest dimension k series h) ∙ e)).0
