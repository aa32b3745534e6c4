-- ===== src/Build/Webhook/Signature.antt =====
-- `validSignature` and the hexadecimal digits of a MAC.
use tinycloud_platform.Base.{
  ℕ, ◌+◌, ◌/◌, ◌%◌, ◌<◌, ◌≡◌, refl, sym, ap, ◌∙◌, true, Option, none, some, [], ◌∷◌, ◌++◌, arith,
  ltb, if◌then◌else◌, Str, str_eq_refl, str_eq_sound, All,
}
use tinycloud_platform.Text.{has_prefix-append, has_prefix-cut, trim_prefix, trim_prefix-append}
use tinycloud_platform.Build.Webhook.{
  hex_digit, decode_hex, valid_signature, is_mac, signature_prefix,
}

-- The lower case digit of a number below 16.
hex_char : ℕ → ℕ
hex_char n = if ltb n 10 then n + 48 else n + 87

pub encode_hex : Str → Str
encode_hex [] = []
encode_hex (b ∷ s) = hex_char (b / 16) ∷ hex_char (b % 16) ∷ encode_hex s

hex_digit-hex_char : (n : ℕ) → n < 16 → hex_digit (hex_char n) ≡ some n
unfolding hex_digit hex_char
hex_digit-hex_char n h = ground arith

-- Every string of bytes is what its digits decode to.
pub decode_hex-encode_hex : (s : Str) → All (λ b. b < 256) s → decode_hex (encode_hex s) ≡ some s
unfolding decode_hex encode_hex
decode_hex-encode_hex [] h = refl
decode_hex-encode_hex (b ∷ s) h =
    rw
      (
        hex_digit-hex_char (b / 16) (omega arith),
        hex_digit-hex_char (b % 16) (omega arith),
        decode_hex-encode_hex s h.1,
      )
      (ap (λ (n : ℕ). some (n ∷ s)) (omega arith))

is_mac_sound : (mac : Str) (o : Option Str) → is_mac mac o ≡ true → o ≡ some mac
is_mac_sound mac none h = cc
is_mac_sound mac (some sent) h = ap some (str_eq_sound sent mac h)

-- A body signed with the secret is accepted.
pub signed-valid_signature :
    (hmac : Str → Str → Str) (secret body : Str)
    → All (λ b. b < 256) (hmac secret body)
    → valid_signature hmac secret body (signature_prefix ++ encode_hex (hmac secret body)) ≡ true
unfolding valid_signature
signed-valid_signature hmac secret body h =
    rw
      (
        has_prefix-append signature_prefix (encode_hex (hmac secret body)),
        trim_prefix-append signature_prefix (encode_hex (hmac secret body)),
        decode_hex-encode_hex (hmac secret body) h,
      )
      (str_eq_refl (hmac secret body))

-- An accepted header is `sha256=` and digits that decode to the MAC of the body under the secret.
pub valid_signature_sound :
    (hmac : Str → Str → Str) (secret body header : Str)
    → valid_signature hmac secret body header ≡ true
    → (digits : Str) × (header ≡ signature_prefix ++ digits)
      × (decode_hex digits ≡ some (hmac secret body))
unfolding valid_signature
valid_signature_sound hmac secret body header h =
    let (digits, e) = has_prefix-cut header signature_prefix (ground arith) in
    let mac =
      is_mac_sound (hmac secret body) (decode_hex (trim_prefix header signature_prefix))
        (ground arith) in
    (
      digits,
      e,
      sym (
            ap decode_hex (
              ap (λ h. trim_prefix h signature_prefix) e
              ∙ trim_prefix-append signature_prefix digits))
          ∙ mac,
    )
