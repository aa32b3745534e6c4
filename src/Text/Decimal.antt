-- ===== src/Text/Decimal.antt =====
-- fmt's %d on a number that is not negative, and %0wd.
use tinycloud_platform.Base.{
  ℤ, pos, negsuc, ℕ, zero, suc, ◌+◌, ◌/◌, ◌%◌, ◌≡◌, [], ◌∷◌, ◌++◌, arith, ltb, if◌then◌else◌, Str,
  length, length-append,
}

-- The last `w` decimal digits of a number, zeros in front.
unfoldable pub padded : ℕ → ℕ → Str
padded zero n = []
padded (suc w) n = padded w (n / 10) ++ (48 + n % 10) ∷ []

-- Without leading zeros, on fuel: a number has at most as many digits as its value, and one.
unfoldable pub digits_from : ℕ → ℕ → Str
digits_from zero n = []
digits_from (suc f) n =
    let rest = digits_from f (n / 10) in
    if ltb n 10 then (48 + n) ∷ [] else rest ++ (48 + n % 10) ∷ []

unfoldable pub decimal : ℕ → Str
unfolding digits_from
decimal n = digits_from (suc n) n

pub length-padded : (w n : ℕ) → length (padded w n) ≡ w
unfolding padded
length-padded zero n = omega arith
length-padded (suc w) n =
    omega (arith, length-padded w (n / 10), length-append (padded w (n / 10)) ((48 + n % 10) ∷ []))

-- fmt's %d on an int
unfoldable pub int_text : ℤ → Str
unfolding decimal
int_text (pos n) = decimal n
int_text (negsuc n) = b'-' ∷ decimal (suc n)
