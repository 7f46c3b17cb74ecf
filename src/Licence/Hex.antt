-- ===== src/Licence/Hex.antt =====
-- The texts of copy_check.rs: hexadecimal digits read back, the cipher undone.
use Prim.Native.Nat.{bit_xor}
use modbus_tcplogger.Common.{
  if◌then◌else◌, ℕ, zero, suc, ◌*◌, ◌/◌, ◌%◌, ◌<◌, ◌≡◌, refl, ap, Bool, true, false, ◌&&◌, Option,
  none, some, List, [], ◌∷◌, All, ltb, ◌==◌, ==_iff, length, arith,
}
use modbus_tcplogger.Licence.{
  Outcome, done, panicked, hex_digit, format_byte, bytes_to_hex, digit_value, from_str_radix,
  read_pairs, hex_to_bytes, xor_cipher, xor_key_challenge, xor_key_license, challenge,
}
use modbus_tcplogger.Licence.Text.{is_char_boundary}

-- A byte.
abbrev pub IsByte : ℕ → Type 0
IsByte b = b < 256

digit_value-hex_digit : (d : ℕ) → d < 16 → digit_value (hex_digit d) ≡ some d
unfolding digit_value
digit_value-hex_digit d h = ground arith

hex_digit_ascii : (d : ℕ) → d < 16 → ltb (hex_digit d) 0x80 ≡ true
hex_digit_ascii d h = ground arith

hex_digit_plus : (d : ℕ) → d < 16 → (hex_digit d == 43) ≡ false
hex_digit_plus d h = ground arith

pub from_str_radix-format_byte :
    (b : ℕ) → IsByte b → from_str_radix (hex_digit (b / 16)) (hex_digit (b % 16)) ≡ some b
unfolding from_str_radix
from_str_radix-format_byte b h =
    let hi : b / 16 < 16 = omega arith in
    let lo : b % 16 < 16 = omega arith in
    rw
      (
        hex_digit_plus (b / 16) hi,
        digit_value-hex_digit (b / 16) hi,
        digit_value-hex_digit (b % 16) lo,
      )
      (ap some (omega arith))

length-bytes_to_hex : (bytes : List ℕ) → length (bytes_to_hex bytes) ≡ 2 * length bytes
unfolding bytes_to_hex format_byte
length-bytes_to_hex [] = refl
length-bytes_to_hex (b ∷ bytes) = omega (arith, length-bytes_to_hex bytes)

boundary-bytes_to_hex :
    (bytes : List ℕ) → All IsByte bytes → is_char_boundary (bytes_to_hex bytes) ≡ true
unfolding bytes_to_hex format_byte
boundary-bytes_to_hex [] h = refl
boundary-bytes_to_hex (b ∷ bytes) h = rw (hex_digit_ascii (b / 16) (omega (arith, h.0))) refl

read_pairs-bytes_to_hex :
    (bytes : List ℕ) → All IsByte bytes → read_pairs (bytes_to_hex bytes) ≡ done (some bytes)
unfolding bytes_to_hex format_byte read_pairs
read_pairs-bytes_to_hex [] h = refl
read_pairs-bytes_to_hex (b ∷ bytes) h =
    rw
      (
        boundary-bytes_to_hex bytes h.1,
        from_str_radix-format_byte b h.0,
        read_pairs-bytes_to_hex bytes h.1,
      )
      refl

-- What `bytes_to_hex` writes, `hex_to_bytes` reads back, for every list of bytes.
pub hex_to_bytes-bytes_to_hex :
    (bytes : List ℕ) → All IsByte bytes → hex_to_bytes (bytes_to_hex bytes) ≡ done (some bytes)
unfolding hex_to_bytes
hex_to_bytes-bytes_to_hex bytes h =
    let even : (length (bytes_to_hex bytes) % 2 == 0) ≡ true =
      (==_iff _ 0).1 (omega (arith, length-bytes_to_hex bytes)) in
    rw (even, read_pairs-bytes_to_hex bytes h) refl

-- Evaluates a test on the bytes under a bound.
holds_under : (ℕ → Bool) → ℕ → Bool
holds_under test zero = true
holds_under test (suc bound) =
    let rest = holds_under test bound in if test bound then rest else false

holds_under→test :
    (test : ℕ → Bool) (bound b : ℕ) → b < bound → holds_under test bound ≡ true → test b ≡ true
unfolding holds_under
holds_under→test test zero b lt table = absurd (omega arith)
holds_under→test test (suc bound) b lt table = ground (arith, holds_under→test test bound b)

-- What the two keys do to a byte: it stays a byte, and the same key gives it back.
is_undone : ℕ → ℕ → Bool
is_undone key b = ltb (bit_xor b key) 256 && (bit_xor (bit_xor b key) key == b)

license_table : holds_under (is_undone xor_key_license) 256 ≡ true
unfolding holds_under is_undone
license_table = refl

challenge_table : holds_under (is_undone xor_key_challenge) 256 ≡ true
unfolding holds_under is_undone
challenge_table = refl

undone :
    (key b : ℕ)
    → is_undone key b ≡ true
    → IsByte (bit_xor b key) × (bit_xor (bit_xor b key) key ≡ b)
unfolding is_undone
undone key b h = ground arith

-- A key that undoes itself on every byte.
abbrev pub IsKey : ℕ → Type 0
IsKey key = (b : ℕ) → IsByte b → IsByte (bit_xor b key) × (bit_xor (bit_xor b key) key ≡ b)

pub license-IsKey : IsKey xor_key_license
license-IsKey b h = undone xor_key_license b (holds_under→test _ 256 b h license_table)

pub challenge-IsKey : IsKey xor_key_challenge
challenge-IsKey b h = undone xor_key_challenge b (holds_under→test _ 256 b h challenge_table)

pub xor_cipher-All :
    (key : ℕ) → IsKey key → (bytes : List ℕ) → All IsByte bytes → All IsByte (xor_cipher bytes key)
unfolding xor_cipher
xor_cipher-All key k [] h = tt
xor_cipher-All key k (b ∷ bytes) h = ((k b h.0).0, xor_cipher-All key k bytes h.1)

pub xor_cipher_twice :
    (key : ℕ)
    → IsKey key
    → (bytes : List ℕ) → All IsByte bytes
    → xor_cipher (xor_cipher bytes key) key ≡ bytes
unfolding xor_cipher
xor_cipher_twice key k [] h = refl
xor_cipher_twice key k (b ∷ bytes) h = rw ((k b h.0).1, xor_cipher_twice key k bytes h.1) refl

abbrev with_key : ℕ → Outcome (Option (List ℕ)) → Outcome (Option (List ℕ))
with_key key (done (some bytes)) = done (some (xor_cipher bytes key))
with_key key (done none) = done none
with_key key panicked = panicked

-- The code shown to the user determines the serial number: read as hexadecimal digits and
-- deciphered with the key of the request, it is the number again.
pub challenge_readable :
    (id : List ℕ)
    → All IsByte id
    → with_key xor_key_challenge (hex_to_bytes (challenge id)) ≡ done (some id)
unfolding challenge
challenge_readable id h =
    rw
      (
        hex_to_bytes-bytes_to_hex (xor_cipher id xor_key_challenge)
            (xor_cipher-All xor_key_challenge challenge-IsKey id h),
        xor_cipher_twice xor_key_challenge challenge-IsKey id h,
      )
      refl
