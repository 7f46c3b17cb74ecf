-- ===== src/Licence.antt =====
-- minimal_copy_safe/copy_check.rs: the key that ties the program to one disk. A text is the list of
-- its UTF-8 bytes. The serial number, the key file and the console are the program's surroundings:
-- each round of the loop is given what they answer.
pub mod Text
pub mod Hex
pub mod Accept
pub mod Restart
mod Tests
use Prim.Native.Nat.{bit_xor}
use modbus_tcplogger.Common.{
  ℕ, zero, suc, ◌+◌, ◌-◌, ◌*◌, ◌/◌, ◌%◌, Bool, true, false, ◌&&◌, ◌||◌, Option, none, some, List,
  [], ◌∷◌, ◌++◌, map, ltb, leb, ◌==◌, if◌then◌else◌, length, is_empty,
}
use modbus_tcplogger.Licence.Text.{is_char_boundary, trim, from_utf8, same_text}

abbrev pub xor_key_challenge : ℕ
xor_key_challenge = 0xAA

abbrev pub xor_key_license : ℕ
xor_key_license = 0x55

-- A lower-case digit of `{:x}`.
abbrev pub hex_digit : ℕ → ℕ
hex_digit d = if ltb d 10 then 48 + d else 87 + d

-- `format!("{:02x}", b)`
unfoldable pub format_byte : ℕ → List ℕ
format_byte b = hex_digit (b / 16) ∷ hex_digit (b % 16) ∷ []

unfoldable pub bytes_to_hex : List ℕ → List ℕ
bytes_to_hex [] = []
bytes_to_hex (b ∷ bytes) = format_byte b ++ bytes_to_hex bytes

-- A digit of radix 16, in either case.
unfoldable pub digit_value : ℕ → Option ℕ
digit_value c =
    if leb 48 c && leb c 57
    then some (c - 48)
    else if leb 97 c && leb c 102
    then some (c - 87)
    else if leb 65 c && leb c 70
    then some (c - 55)
    else none

abbrev pub two_digits : Option ℕ → Option ℕ → Option ℕ
two_digits none lo = none
two_digits (some hi) none = none
two_digits (some hi) (some lo) = some (hi * 16 + lo)

-- `u8::from_str_radix(…, 16)` on two bytes; a leading plus sign is allowed.
unfoldable pub from_str_radix : ℕ → ℕ → Option ℕ
from_str_radix a b = if a == 43 then digit_value b else two_digits (digit_value a) (digit_value b)

-- A computation that may panic.
pub data Outcome (A : Type 0) : Type 0 where
  done : A → Outcome A
  panicked : Outcome A

-- One round of `collect` into an `Option`: the first failure ends it.
abbrev pub collect : Option ℕ → Outcome (Option (List ℕ)) → Outcome (Option (List ℕ))
collect none rest = done none
collect (some b) panicked = panicked
collect (some b) (done none) = done none
collect (some b) (done (some bytes)) = done (some (b ∷ bytes))

-- The slices `hex[i..i + 2]`; one that ends inside a character panics.
unfoldable pub read_pairs : List ℕ → Outcome (Option (List ℕ))
read_pairs [] = done (some [])
read_pairs (a ∷ []) = done none
read_pairs (a ∷ b ∷ hex) =
    let rest = read_pairs hex in
    if is_char_boundary hex then collect (from_str_radix a b) rest else panicked

unfoldable pub hex_to_bytes : List ℕ → Outcome (Option (List ℕ))
hex_to_bytes hex = if length hex % 2 == 0 then read_pairs hex else done none

unfoldable pub xor_cipher : List ℕ → ℕ → List ℕ
xor_cipher [] key = []
xor_cipher (b ∷ bytes) key = bit_xor b key ∷ xor_cipher bytes key

abbrev pub decrypts_to : List ℕ → Outcome (Option (List ℕ)) → Outcome Bool
decrypts_to id panicked = panicked
decrypts_to id (done none) = done false
decrypts_to id (done (some bytes)) =
    let decrypted = xor_cipher bytes xor_key_license in
    done (from_utf8 (some []) decrypted && same_text decrypted id)

-- The test of a text, from the file or the console, which is trimmed already.
unfoldable pub fits : List ℕ → List ℕ → Outcome Bool
fits id clean_input = decrypts_to id (hex_to_bytes clean_input)

-- The code that is shown to the user.
unfoldable pub challenge : List ℕ → List ℕ
challenge id = bytes_to_hex (xor_cipher id xor_key_challenge)

-- What one round of the loop meets: the serial number, the key file and the line of the console if
-- they can be read, and whether the file can be written.
pub record Round : Type 0 where
  pub current_id : List ℕ
  pub license_file : Option (List ℕ)
  pub user_input : Option (List ℕ)
  pub writable : Bool

-- How a run of the loop ends: let through by the file, let through with the key written to the file,
-- or still asking when the rounds are over, with the codes shown.
pub data Activation : Type 0 where
  licensed : Activation
  stored : List ℕ → Activation
  asking : List (List ℕ) → Activation

abbrev pub shown : List ℕ → Outcome Activation → Outcome Activation
shown code (done (asking codes)) = done (asking (code ∷ codes))
shown code (done licensed) = done licensed
shown code (done (stored key)) = done (stored key)
shown code panicked = panicked

abbrev pub file_fits : List ℕ → Option (List ℕ) → Outcome Bool
file_fits id none = done false
file_fits id (some license_hex) = fits id (trim license_hex)

-- The line of the console: the key to store, if it fits and can be written.
abbrev pub accepted_input : Outcome Bool → Bool → List ℕ → Outcome (Option (List ℕ))
accepted_input panicked writable key = panicked
accepted_input (done false) writable key = done none
accepted_input (done true) false key = done none
accepted_input (done true) true key = done (some key)

abbrev pub read_input : List ℕ → Bool → Option (List ℕ) → Outcome (Option (List ℕ))
read_input id writable none = done none
read_input id writable (some line) = accepted_input (fits id (trim line)) writable (trim line)

abbrev pub after_input :
    List ℕ → Outcome (Option (List ℕ)) → Outcome Activation → Outcome Activation
after_input code panicked again = panicked
after_input code (done (some key)) again = done (stored key)
after_input code (done none) again = shown code again

abbrev pub after_file : Round → Outcome Bool → Outcome Activation → Outcome Activation
after_file r panicked again = panicked
after_file r (done true) again = done licensed
after_file r (done false) again =
    after_input (challenge r.current_id) (read_input r.current_id r.writable r.user_input) again

-- The loop over the rounds it is given.
unfoldable pub check_key_and_activate : List Round → Outcome Activation
check_key_and_activate [] = done (asking [])
check_key_and_activate (r ∷ rounds) =
    let again = check_key_and_activate rounds in
    after_file r (file_fits r.current_id r.license_file) again
