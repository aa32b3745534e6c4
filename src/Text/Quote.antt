-- ===== src/Text/Quote.antt =====
-- fmt's %q: a Go string literal in double quotes. Of strings with bytes from 128 on the Unicode tables
-- decide, which enter as an argument.
use tinycloud_platform.Base.{ℕ, ◌+◌, ◌/◌, ◌%◌, ◌||◌, [], ◌∷◌, ◌++◌, ltb, ◌==◌, if◌then◌else◌, Str}
use tinycloud_platform.Text.Case.{is_ascii}

abbrev pub hex_of : ℕ → ℕ
hex_of n = if ltb n 10 then n + 48 else n + 87

unfoldable pub escape : ℕ → Str
escape c =
    if c == b'"' || c == b'\\'
    then b'\\' ∷ c ∷ []
    else if c == 7
    then b'\\' ∷ b'a' ∷ []
    else if c == 8
    then b'\\' ∷ b'b' ∷ []
    else if c == 9
    then b'\\' ∷ b't' ∷ []
    else if c == 10
    then b'\\' ∷ b'n' ∷ []
    else if c == 11
    then b'\\' ∷ b'v' ∷ []
    else if c == 12
    then b'\\' ∷ b'f' ∷ []
    else if c == 13
    then b'\\' ∷ b'r' ∷ []
    else if ltb c 32 || c == 127
    then b'\\' ∷ b'x' ∷ hex_of (c / 16) ∷ hex_of (c % 16) ∷ []
    else c ∷ []

unfoldable pub escapes : Str → Str
unfolding escape
escapes [] = []
escapes (c ∷ s) = escape c ++ escapes s

unfoldable pub quote : (Str → Str) → Str → Str
unfolding escapes is_ascii
quote other s = if is_ascii s then b'"' ∷ escapes s ++ b'"' ∷ [] else other s
