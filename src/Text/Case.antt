-- ===== src/Text/Case.antt =====
-- strings.ToLower, ToUpper and EqualFold. As in Go, ASCII strings are mapped byte by byte; of other
-- strings the Unicode tables decide, which enter as an argument.
use tinycloud_platform.Base.{
  ℕ, ◌+◌, ◌-◌, ◌≡◌, refl, Bool, true, ◌&&◌, [], ◌∷◌, map, arith, ltb, leb, if◌then◌else◌, Str,
  str_eq, all,
}

unfoldable pub lower_byte : ℕ → ℕ
lower_byte c = if leb b'A' c && leb c b'Z' then c + 32 else c

unfoldable pub upper_byte : ℕ → ℕ
upper_byte c = if leb b'a' c && leb c b'z' then c - 32 else c

unfoldable pub is_ascii : Str → Bool
unfolding all
is_ascii s = all (λ c. ltb c 128) s

-- The Unicode case mappings, as they act on a string that holds a byte from 128 on.
pub record Unicode : Type 0 where
  pub lower : Str → Str
  pub upper : Str → Str
  pub fold : Str → Str → Bool

unfoldable pub to_lower : Unicode → Str → Str
unfolding lower_byte is_ascii
to_lower u s = if is_ascii s then map lower_byte s else u.lower s

unfoldable pub to_upper : Unicode → Str → Str
unfolding upper_byte is_ascii
to_upper u s = if is_ascii s then map upper_byte s else u.upper s

unfoldable pub equal_fold : Unicode → Str → Str → Bool
unfolding lower_byte is_ascii str_eq
equal_fold u s t =
    if is_ascii s && is_ascii t then str_eq (map lower_byte s) (map lower_byte t) else u.fold s t

pub lower_byte_idem : (c : ℕ) → lower_byte (lower_byte c) ≡ lower_byte c
unfolding lower_byte
lower_byte_idem c = ground arith

pub lower_byte-lt : (c : ℕ) → ltb c 128 ≡ true → ltb (lower_byte c) 128 ≡ true
unfolding lower_byte
lower_byte-lt c h = ground arith

pub map-lower_byte_idem : (s : Str) → map lower_byte (map lower_byte s) ≡ map lower_byte s
map-lower_byte_idem [] = refl
map-lower_byte_idem (c ∷ s) = cc (lower_byte_idem c, map-lower_byte_idem s)

pub map-lower_byte-is_ascii : (s : Str) → is_ascii s ≡ true → is_ascii (map lower_byte s) ≡ true
unfolding is_ascii all
map-lower_byte-is_ascii [] h = refl
map-lower_byte-is_ascii (c ∷ s) h = ground (arith, lower_byte-lt c, map-lower_byte-is_ascii s)

pub to_lower_idem :
    (u : Unicode) (s : Str) → is_ascii s ≡ true → to_lower u (to_lower u s) ≡ to_lower u s
unfolding to_lower
to_lower_idem u s h = ground (arith, map-lower_byte-is_ascii s h, map-lower_byte_idem s)
