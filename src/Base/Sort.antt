-- ===== src/Base/Sort.antt =====
-- The order of Go strings, `sort.Strings`, and `sort.Slice` by a string: as it sorts up to twelve
-- elements, by insertion. Strings that are equal are the same, so that for `sort.Strings` any number will do.
use tinycloud_platform.Base.Tests.{Str, str_lt, if◌then◌else◌, Bool-cases}
use tinycloud_platform.Base.Lists.{All, any}
use mathlib.Core.Path.{◌≡◌, refl, sym, ap, ◌∙◌}
use mathlib.Core.Logic.{inl, inr}
use mathlib.Core.Bool.{Bool, true, false, ◌||◌}
use mathlib.Core.List.{List, [], ◌∷◌, ◌++◌}
use native.Mathlib.Omega.{arith}

pub str_le_trans : (a b c : Str) → str_lt b a ≡ false → str_lt c b ≡ false → str_lt c a ≡ false
unfolding str_lt
str_le_trans [] [] [] h k = refl
str_le_trans [] [] (z ∷ c) h k = refl
str_le_trans [] (y ∷ b) [] h k = refl
str_le_trans [] (y ∷ b) (z ∷ c) h k = refl
str_le_trans (x ∷ a) [] c h k = cc
str_le_trans (x ∷ a) (y ∷ b) [] h k = cc
str_le_trans (x ∷ a) (y ∷ b) (z ∷ c) h k = ground (arith, str_le_trans a b c)

pub str_lt_asymm : (a b : Str) → str_lt b a ≡ true → str_lt a b ≡ false
unfolding str_lt
str_lt_asymm [] b h = ground arith
str_lt_asymm (x ∷ a) [] h = refl
str_lt_asymm (x ∷ a) (y ∷ b) h = ground (arith, str_lt_asymm a b)

pub str_lt_irrefl : (a : Str) → str_lt a a ≡ false
unfolding str_lt
str_lt_irrefl [] = refl
str_lt_irrefl (x ∷ a) = ground (arith, str_lt_irrefl a)

pub str_le_antisym : (a b : Str) → str_lt a b ≡ false → str_lt b a ≡ false → a ≡ b
unfolding str_lt
str_le_antisym [] [] h k = refl
str_le_antisym [] (y ∷ b) h k = cc
str_le_antisym (x ∷ a) [] h k = cc
str_le_antisym (x ∷ a) (y ∷ b) h k = ground (arith, str_le_antisym a b)

module _ {ℓ} {A : Type ℓ} where
  unfoldable pub insert_by : (A → Str) → A → List A → List A
  insert_by key x [] = x ∷ []
  insert_by key x (y ∷ ys) =
      let rest = insert_by key x ys in if str_lt (key y) (key x) then y ∷ rest else x ∷ y ∷ ys

  unfoldable pub sort_by : (A → Str) → List A → List A
  unfolding insert_by
  sort_by key [] = []
  sort_by key (x ∷ xs) = insert_by key x (sort_by key xs)

  -- No key is smaller than a key in front of it.
  abbrev pub IsSortedBy : (A → Str) → List A → Type 0
  IsSortedBy key [] = Unit
  IsSortedBy key (x ∷ xs) = All (λ y. str_lt (key y) (key x) ≡ false) xs × IsSortedBy key xs

unfoldable pub sort_strings : List Str → List Str
unfolding sort_by
sort_strings = sort_by (λ s. s)

module _ {ℓ} {A : Type ℓ} (key : A → Str) where
  All-insert_by :
      (P : A → Type 0) (x : A) (ys : List A) → P x → All P ys → All P (insert_by key x ys)
  unfolding insert_by
  All-insert_by P x [] p ps = (p, tt)
  All-insert_by P x (y ∷ ys) p ps = elim (Bool-cases (str_lt (key y) (key x))) [
    | inl e ↦ rw e (ps.0, All-insert_by P x ys p ps.1)
    | inr e ↦ rw e (p, ps)
  ]

  All-below :
      (x y : A) (ys : List A)
      → str_lt (key y) (key x) ≡ false
      → All (λ z. str_lt (key z) (key y) ≡ false) ys
      → All (λ z. str_lt (key z) (key x) ≡ false) ys
  All-below x y [] h ps = tt
  All-below x y (z ∷ ys) h ps =
      (str_le_trans (key x) (key y) (key z) h ps.0, All-below x y ys h ps.1)

  insert_by-IsSortedBy :
      (x : A) (ys : List A) → IsSortedBy key ys → IsSortedBy key (insert_by key x ys)
  unfolding insert_by
  insert_by-IsSortedBy x [] h = (tt, tt)
  insert_by-IsSortedBy x (y ∷ ys) h = elim (Bool-cases (str_lt (key y) (key x))) [
    | inl e ↦ rw e (
      All-insert_by (λ z. str_lt (key z) (key y) ≡ false) x ys (str_lt_asymm (key x) (key y) e) h.0,
      insert_by-IsSortedBy x ys h.1,
    )
    | inr e ↦ rw e ((e, All-below x y ys e h.0), h)
  ]

  pub sort_by-IsSortedBy : (xs : List A) → IsSortedBy key (sort_by key xs)
  unfolding sort_by
  sort_by-IsSortedBy [] = tt
  sort_by-IsSortedBy (x ∷ xs) = insert_by-IsSortedBy x (sort_by key xs) (sort_by-IsSortedBy xs)

  pub All-sort_by : (P : A → Type 0) (xs : List A) → All P xs → All P (sort_by key xs)
  unfolding sort_by
  All-sort_by P [] h = tt
  All-sort_by P (x ∷ xs) h = All-insert_by P x (sort_by key xs) h.0 (All-sort_by P xs h.1)

  any-insert_by :
      (p : A → Bool) (x : A) (ys : List A) → any p (insert_by key x ys) ≡ (p x || any p ys)
  unfolding insert_by any
  any-insert_by p x [] = refl
  any-insert_by p x (y ∷ ys) = elim (Bool-cases (str_lt (key y) (key x))) [
    | inl e ↦ rw e (ground (arith, any-insert_by p x ys))
    | inr e ↦ rw e refl
  ]

  -- Sorting keeps what there is.
  pub any-sort_by : (p : A → Bool) (xs : List A) → any p (sort_by key xs) ≡ any p xs
  unfolding sort_by any
  any-sort_by p [] = refl
  any-sort_by p (x ∷ xs) =
      any-insert_by p x (sort_by key xs) ∙ ap (λ b. p x || b) (any-sort_by p xs)

abbrev pub before : Str → List Str → List Str
before = insert_by (λ s. s)

-- In front of the rest, the smaller of two strings comes first, whichever is inserted first.
two_in_front :
    (x y : Str) (t : List Str)
    → (if str_lt y x then y ∷ x ∷ t else x ∷ y ∷ t) ≡ (if str_lt x y then x ∷ y ∷ t else y ∷ x ∷ t)
two_in_front x y t = elim (Bool-cases (str_lt y x)) [
  | inl e ↦ rw (e, str_lt_asymm x y e) refl
  | inr e ↦ elim (Bool-cases (str_lt x y)) [
    | inl d ↦ rw (e, d) refl
    | inr d ↦ rw (str_le_antisym x y d e) refl
  ]
]

insert_below : (x y : Str) (l : List Str) → str_lt y x ≡ true → before x (y ∷ l) ≡ y ∷ before x l
unfolding insert_by
insert_below x y l e = rw e refl

insert_above : (x y : Str) (l : List Str) → str_lt y x ≡ false → before x (y ∷ l) ≡ x ∷ y ∷ l
unfolding insert_by
insert_above x y l e = rw e refl

-- `y` is not above `z`, which is below `x`.
smaller_first :
    (x y z : Str) (l : List Str)
    → str_lt z x ≡ true
    → str_lt z y ≡ false
    → before x (before y (z ∷ l)) ≡ before y (before x (z ∷ l))
smaller_first x y z l a b = elim (Bool-cases (str_lt y x)) [
  | inl c ↦
      ap (before x) (insert_above y z l b)
      ∙ insert_below x y (z ∷ l) c
      ∙ ap (λ t. y ∷ t) (insert_below x z l a)
      ∙ sym (ap (before y) (insert_below x z l a) ∙ insert_above y z (before x l) b)
  | inr c ↦ cc (a, str_le_trans x y z c b)
]

pub insert_strings_comm : (x y : Str) (l : List Str) → before x (before y l) ≡ before y (before x l)
unfolding insert_by
insert_strings_comm x y [] = two_in_front x y []
insert_strings_comm x y (z ∷ l) = elim (Bool-cases (str_lt z x)) [
  | inl a ↦ elim (Bool-cases (str_lt z y)) [
    | inl b ↦
        ap (before x) (insert_below y z l b)
        ∙ insert_below x z (before y l) a
        ∙ ap (λ t. z ∷ t) (insert_strings_comm x y l)
        ∙ sym (ap (before y) (insert_below x z l a) ∙ insert_below y z (before x l) b)
    | inr b ↦ smaller_first x y z l a b
  ]
  | inr a ↦ elim (Bool-cases (str_lt z y)) [
    | inl b ↦ sym (smaller_first y x z l b a)
    | inr b ↦
        ap (before x) (insert_above y z l b)
        ∙ ap (λ t. if str_lt y x then y ∷ t else x ∷ y ∷ z ∷ l) (insert_above x z l a)
        ∙ two_in_front x y (z ∷ l)
        ∙ ap (λ t. if str_lt x y then x ∷ t else y ∷ x ∷ z ∷ l) (sym (insert_above y z l b))
        ∙ sym (ap (before y) (insert_above x z l a))
  ]
]

-- Two strings that change places are sorted alike.
pub sort_strings-swap :
    (xs : List Str) (x y : Str) (ys : List Str)
    → sort_strings (xs ++ x ∷ y ∷ ys) ≡ sort_strings (xs ++ y ∷ x ∷ ys)
unfolding sort_strings
sort_strings-swap [] x y ys = insert_strings_comm x y (sort_by (λ s. s) ys)
sort_strings-swap (z ∷ xs) x y ys = ap (before z) (sort_strings-swap xs x y ys)
