-- ===== src/Text/Trim.antt =====
-- strings.TrimSpace, TrimRight and TrimLeft. A white space rune is one of Go's `unicode.IsSpace`,
-- in its UTF-8 bytes; a byte that is part of no such rune ends the trimming.
use tinycloud_platform.Base.{
  ℕ, zero, suc, ◌≡◌, refl, Bool, ◌&&◌, ◌||◌, [], ◌∷◌, leb, ◌==◌, if◌then◌else◌, Str,
}
use mathlib.Core.List.{reverse}

-- '\t' to '\r', and ' '
is_ascii_space : ℕ → Bool
is_ascii_space c = leb 9 c && leb c 13 || c == 32

-- U+0085, U+00A0
is_space2 : ℕ → ℕ → Bool
is_space2 a b = a == 0xc2 && (b == 0x85 || b == 0xa0)

-- U+1680, U+2000 to U+200A, U+2028, U+2029, U+202F, U+205F, U+3000
is_space3 : ℕ → ℕ → ℕ → Bool
is_space3 a b c =
    a == 0xe1 && b == 0x9a && c == 0x80
    || a == 0xe2 && b == 0x80 && (leb 0x80 c && leb c 0x8a || c == 0xa8 || c == 0xa9 || c == 0xaf)
    || a == 0xe2 && b == 0x81 && c == 0x9f
    || a == 0xe3 && b == 0x80 && c == 0x80

-- How many bytes the white space rune at the head has; 0 if there is none.
unfoldable pub space_width : Str → ℕ
unfolding is_ascii_space is_space2 is_space3
space_width [] = 0
space_width (a ∷ []) = if is_ascii_space a then 1 else 0
space_width (a ∷ b ∷ []) = if is_ascii_space a then 1 else if is_space2 a b then 2 else 0
space_width (a ∷ b ∷ c ∷ s) =
    if is_ascii_space a then 1 else if is_space2 a b then 2 else if is_space3 a b c then 3 else 0

-- The same at the end of a string, which is given from its end.
unfoldable pub space_width_end : Str → ℕ
unfolding is_ascii_space is_space2 is_space3
space_width_end [] = 0
space_width_end (a ∷ []) = if is_ascii_space a then 1 else 0
space_width_end (a ∷ b ∷ []) = if is_ascii_space a then 1 else if is_space2 b a then 2 else 0
space_width_end (a ∷ b ∷ c ∷ s) =
    if is_ascii_space a then 1 else if is_space2 b a then 2 else if is_space3 c b a then 3 else 0

-- Drops runes while `width` finds one; the number counts the bytes of a rune still to drop.
unfoldable pub trim_runes : (Str → ℕ) → ℕ → Str → Str
trim_runes width k [] = []
trim_runes width (suc k) (c ∷ s) = trim_runes width k s
trim_runes width zero (c ∷ s) = elim (width (c ∷ s)) [ zero ↦ c ∷ s | suc k ↦ trim_runes width k s ]

unfoldable pub trim_space : Str → Str
unfolding trim_runes space_width space_width_end
trim_space s = reverse (trim_runes space_width_end 0 (reverse (trim_runes space_width 0 s)))

-- strings.TrimRight(s, "x") for a one-byte cutset
unfoldable pub trim_left_byte : ℕ → Str → Str
trim_left_byte x [] = []
trim_left_byte x (c ∷ s) = let rest = trim_left_byte x s in if c == x then rest else c ∷ s

unfoldable pub trim_right_byte : ℕ → Str → Str
unfolding trim_left_byte
trim_right_byte x s = reverse (trim_left_byte x (reverse s))

-- What is left begins with no white space rune.
pub space_width-trim_runes : (k : ℕ) (s : Str) → space_width (trim_runes space_width k s) ≡ 0
unfolding trim_runes
space_width-trim_runes k [] = unfold space_width in refl
space_width-trim_runes (suc k) (c ∷ s) = space_width-trim_runes k s
space_width-trim_runes zero (c ∷ s) =
    go (space_width (c ∷ s)) refl (λ k. space_width-trim_runes k s)
  where
    go :
        (w : ℕ)
        → space_width (c ∷ s) ≡ w
        → ((k : ℕ) → space_width (trim_runes space_width k s) ≡ 0)
        → space_width (elim w [ zero ↦ c ∷ s | suc k ↦ trim_runes space_width k s ]) ≡ 0
    go zero e ih = e
    go (suc k) e ih = ih k
