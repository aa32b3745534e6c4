-- ===== src/Text/Integer.antt =====
-- strconv.Atoi on 64 bits: an optional sign and decimal digits, in the range of an int64.
use tinycloud_platform.Base.{
  ℕ, zero, suc, ◌+◌, ◌-◌, ◌*◌, ◌/◌, ◌%◌, ◌<◌, ◌≤◌, ◌≡◌, refl, ◌&&◌, Option, none, some, [], ◌∷◌,
  ◌++◌, arith, ltb, leb, ◌==◌, if◌then◌else◌, Str, ℤ, pos, negsuc, ap, ◌∙◌, sym, Bool-cases, inl,
  inr,
}
use tinycloud_platform.Text.Decimal.{digits_from, decimal}

-- The number that digits continue, none at another byte.
unfoldable pub digits_value : ℕ → Str → Option ℕ
digits_value acc [] = some acc
digits_value acc (c ∷ s) =
    let rest = digits_value (acc * 10 + (c - 48)) s in
    if leb b'0' c && leb c b'9' then rest else none

unfoldable pub digits : Str → Option ℕ
unfolding digits_value
digits [] = none
digits (c ∷ s) = digits_value 0 (c ∷ s)

abbrev pub int_max : ℕ
int_max = 9223372036854775807

abbrev positive : Option ℕ → Option ℤ
positive none = none
positive (some n) = if leb n int_max then some (pos n) else none

abbrev negative : Option ℕ → Option ℤ
negative none = none
negative (some zero) = some (pos 0)
negative (some (suc n)) = if leb n int_max then some (negsuc n) else none

unfoldable pub atoi : Str → Option ℤ
unfolding digits
atoi [] = none
atoi (c ∷ s) =
    if c == b'-'
    then negative (digits s)
    else if c == b'+'
    then positive (digits s)
    else positive (digits (c ∷ s))

digits_value-append :
    (acc d : ℕ) (s : Str) (n : ℕ)
    → d < 10
    → digits_value acc s ≡ some n
    → digits_value acc (s ++ (48 + d) ∷ []) ≡ some (n * 10 + d)
unfolding digits_value
digits_value-append acc d [] n l h = ground arith
digits_value-append acc d (c ∷ s) n l h =
    ground (arith, digits_value-append (acc * 10 + (c - 48)) d s n l)

digits_value-digits_from : (f n : ℕ) → n < f → digits_value 0 (digits_from f n) ≡ some n
unfolding digits_from
digits_value-digits_from zero n h = absurd (omega arith)
digits_value-digits_from (suc f) n h = elim (Bool-cases (ltb n 10)) [
  | inl e ↦ rw e (unfold digits_value in ground arith)
  | inr e ↦ rw e (
      digits_value-append 0 (n % 10) (digits_from f (n / 10)) (n / 10) (omega arith)
        (digits_value-digits_from f (n / 10) (ground arith))
      ∙ ap some (omega arith))
]

atoi-digits :
    (c : ℕ) (s : Str) (n : ℕ)
    → digits_value 0 (c ∷ s) ≡ some n
    → n ≤ int_max
    → atoi (c ∷ s) ≡ some (pos n)
unfolding atoi digits digits_value
atoi-digits c s n h l = ground arith

append-cons : (s : Str) (d : ℕ) → (c : ℕ) × (t : Str) × (s ++ d ∷ [] ≡ c ∷ t)
append-cons [] d = (d, [], refl)
append-cons (x ∷ s) d = (x, s ++ d ∷ [], refl)

digits_from-cons : (f n : ℕ) → (c : ℕ) × (t : Str) × (digits_from (suc f) n ≡ c ∷ t)
unfolding digits_from
digits_from-cons f n = elim (Bool-cases (ltb n 10)) [
  | inl e ↦ (48 + n, [], rw e)
  | inr e ↦ let (c, t, k) = append-cons (digits_from f (n / 10)) (48 + n % 10) in (c, t, rw e k)
]

-- What strconv.Itoa prints of an int64 that is not negative, Atoi reads back.
pub atoi-decimal : (n : ℕ) → n ≤ int_max → atoi (decimal n) ≡ some (pos n)
unfolding decimal
atoi-decimal n h =
    let (c, t, k) = digits_from-cons n n in
    ap atoi k
    ∙ atoi-digits c t n
        (sym (ap (digits_value 0) k) ∙ digits_value-digits_from (suc n) n (omega arith)) h
