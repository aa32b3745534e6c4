-- ===== src/Manifests/Generate/Sorted.antt =====
-- The exchange sort of the environment's keys.
use tinycloud_platform.Base.{
  ℕ, zero, suc, ◌+◌, ◌≡◌, ◌≢◌, refl, Bool, false, List, [], ◌∷◌, arith, if◌then◌else◌, Str, str_lt,
  length, All, Bool-cases, inl, inr, str_le_trans, str_lt_asymm, str_lt_irrefl,
}
use tinycloud_platform.Manifests.Generate.{exchange_pass, exchange_from, sorted_keys}

-- How often a test holds.
unfoldable pub count : (Str → Bool) → List Str → ℕ
count p [] = 0
count p (k ∷ ks) = (if p k then 1 else 0) + count p ks

-- No key is smaller than a key in front of it.
abbrev pub IsSorted : List Str → Type 0
IsSorted [] = Unit
IsSorted (k ∷ ks) = All (λ j. str_lt j k ≡ false) ks × IsSorted ks

-- A pass ends with a key that is not above the one it began with.
pass-first : (a : Str) (bs : List Str) → str_lt a (exchange_pass a bs).0 ≡ false
unfolding exchange_pass
pass-first a [] = str_lt_irrefl a
pass-first a (b ∷ bs) = elim (Bool-cases (str_lt b a)) [
  | inl e ↦
      rw (e, exchange_pass)
        (str_le_trans (exchange_pass b bs).0 b a (pass-first b bs) (str_lt_asymm a b e))
  | inr e ↦ rw (e, exchange_pass) (pass-first a bs)
]

pass-least :
    (a : Str) (bs : List Str)
    → All (λ j. str_lt j (exchange_pass a bs).0 ≡ false) (exchange_pass a bs).1
unfolding exchange_pass
pass-least a [] = tt
pass-least a (b ∷ bs) = elim (Bool-cases (str_lt b a)) [
  | inl e ↦
      rw (e, exchange_pass)
        (
          str_le_trans (exchange_pass b bs).0 b a (pass-first b bs) (str_lt_asymm a b e),
          pass-least b bs,
        )
  | inr e ↦
      rw (e, exchange_pass)
        (str_le_trans (exchange_pass a bs).0 a b (pass-first a bs) e, pass-least a bs)
]

pass-count :
    (p : Str → Bool) (a : Str) (bs : List Str)
    → count p ((exchange_pass a bs).0 ∷ (exchange_pass a bs).1) ≡ count p (a ∷ bs)
unfolding exchange_pass count
pass-count p a [] = refl
pass-count p a (b ∷ bs) = elim (Bool-cases (str_lt b a)) [
  | inl e ↦ rw (e, exchange_pass) (grind (arith, pass-count p b bs))
  | inr e ↦ rw (e, exchange_pass) (grind (arith, pass-count p a bs))
]

length-pass : (a : Str) (bs : List Str) → length (exchange_pass a bs).1 ≡ length bs
unfolding exchange_pass
length-pass a [] = refl
length-pass a (b ∷ bs) = elim (Bool-cases (str_lt b a)) [
  | inl e ↦ rw (e, exchange_pass) (omega (arith, length-pass b bs))
  | inr e ↦ rw (e, exchange_pass) (omega (arith, length-pass a bs))
]

All-pass :
    (P : Str → Type 0) (a : Str) (bs : List Str)
    → P a
    → All P bs
    → P (exchange_pass a bs).0 × All P (exchange_pass a bs).1
unfolding exchange_pass
All-pass P a [] h k = (h, tt)
All-pass P a (b ∷ bs) h k = elim (Bool-cases (str_lt b a)) [
  | inl e ↦ let q = All-pass P b bs k.0 k.1 in rw (e, exchange_pass) (q.0, (h, q.1))
  | inr e ↦ let q = All-pass P a bs h k.1 in rw (e, exchange_pass) (q.0, (k.0, q.1))
]

All-exchange : (P : Str → Type 0) (n : ℕ) (ks : List Str) → All P ks → All P (exchange_from n ks)
unfolding exchange_from
All-exchange P zero ks h = h
All-exchange P (suc n) [] h = tt
All-exchange P (suc n) (k ∷ ks) h =
    let q = All-pass P k ks h.0 h.1 in (q.0, All-exchange P n (exchange_pass k ks).1 q.1)

not_zero : (ks : List Str) → suc (length ks) ≢ 0
not_zero ks e = omega arith

exchange-IsSorted : (n : ℕ) (ks : List Str) → length ks ≡ n → IsSorted (exchange_from n ks)
unfolding exchange_from
exchange-IsSorted zero [] h = tt
exchange-IsSorted zero (k ∷ ks) h = absurd (not_zero ks h)
exchange-IsSorted (suc n) [] h = tt
exchange-IsSorted (suc n) (k ∷ ks) h = (
  All-exchange (λ j. str_lt j (exchange_pass k ks).0 ≡ false) n (exchange_pass k ks).1
      (pass-least k ks),
  exchange-IsSorted n (exchange_pass k ks).1 (omega (arith, length-pass k ks)),
)

exchange-count :
    (p : Str → Bool) (n : ℕ) (ks : List Str) → count p (exchange_from n ks) ≡ count p ks
unfolding exchange_from count
exchange-count p zero ks = refl
exchange-count p (suc n) [] = refl
exchange-count p (suc n) (k ∷ ks) =
    let q : (if p (exchange_pass k ks).0 then 1 else 0) + count p (exchange_pass k ks).1
        ≡ (if p k then 1 else 0) + count p ks =
      pass-count p k ks in
    omega (arith, exchange-count p n (exchange_pass k ks).1, q)

-- The keys of the rendered environment are in the order of their bytes, and a test holds of as many of
-- them as of the keys before the sort.
pub sorted_keys_lem :
    (ks : List Str) (p : Str → Bool)
    → IsSorted (sorted_keys ks) × (count p (sorted_keys ks) ≡ count p ks)
unfolding sorted_keys
sorted_keys_lem ks p = (exchange-IsSorted (length ks) ks refl, exchange-count p (length ks) ks)
