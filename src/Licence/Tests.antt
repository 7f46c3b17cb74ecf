-- ===== src/Licence/Tests.antt =====
-- Runs of copy_check.rs on a disk with the serial number AZ9.
use modbus_tcplogger.Common.{ℕ, All, ◌≡◌, refl, inl, true, none, some, List, [], ◌∷◌, ◌++◌, arith}
use modbus_tcplogger.Licence.{
  xor_cipher, format_byte, read_pairs, from_str_radix, digit_value, done, panicked, Round, licensed,
  stored, hex_to_bytes, bytes_to_hex, fits, check_key_and_activate,
}
use modbus_tcplogger.Licence.Text.{following, from_utf8}
use modbus_tcplogger.Licence.Hex.{IsByte, hex_to_bytes-bytes_to_hex}
use modbus_tcplogger.Licence.Accept.{IsBlank, license_key, fits-license_key, typed_key_is_stored}
use modbus_tcplogger.Licence.Restart.{restart_is_licensed}

abbrev disk : List ℕ
disk = 0x41 ∷ 0x5A ∷ 0x39 ∷ []

abbrev line_end : List ℕ
line_end = 13 ∷ 10 ∷ []

-- The first start: no key file, and the right key is typed.
abbrev first_start : Round
first_start = record {
  current_id = disk;
  license_file = none;
  user_input = some (license_key disk ++ line_end);
  writable = true;
}

-- The next start finds the file.
abbrev next_start : Round
next_start = record first_start { license_file = some (license_key disk); user_input = none }

-- The digits of the key for AZ9.
key_of_disk : license_key disk ≡ 49 ∷ 52 ∷ 48 ∷ 102 ∷ 54 ∷ 99 ∷ []
unfolding bytes_to_hex xor_cipher format_byte
key_of_disk = refl

-- A text of an odd length is no key, and neither is one with a letter past f.
odd_length : hex_to_bytes (49 ∷ 52 ∷ 48 ∷ []) ≡ done none
unfolding hex_to_bytes
odd_length = refl

no_digit : hex_to_bytes (49 ∷ 103 ∷ []) ≡ done none
unfolding hex_to_bytes read_pairs from_str_radix digit_value
no_digit = refl

-- Two pairs of which the first ends inside the letter é.
cut_letter : hex_to_bytes (49 ∷ 0xC3 ∷ 0xA9 ∷ 49 ∷ []) ≡ panicked
unfolding hex_to_bytes read_pairs
cut_letter = refl

small : All IsByte disk
small = (omega arith, (omega arith, (omega arith, tt)))

blank : All IsBlank line_end
blank = (inl (omega arith, omega arith), (inl (omega arith, omega arith), tt))

hex_to_bytes-bytes_to_hex_example : hex_to_bytes (bytes_to_hex disk) ≡ done (some disk)
hex_to_bytes-bytes_to_hex_example = hex_to_bytes-bytes_to_hex disk small

disk-from_utf8 : from_utf8 (some []) disk ≡ true
unfolding from_utf8 following
disk-from_utf8 = refl

fits-license_key_example : fits disk (license_key disk) ≡ done true
fits-license_key_example = fits-license_key disk small disk-from_utf8

typed_key_is_stored_example :
    check_key_and_activate (first_start ∷ []) ≡ done (stored (license_key disk))
typed_key_is_stored_example =
    typed_key_is_stored first_start [] line_end small disk-from_utf8 refl refl blank refl

restart_is_licensed_example : check_key_and_activate (next_start ∷ []) ≡ done licensed
restart_is_licensed_example =
    restart_is_licensed disk (first_start ∷ []) (license_key disk) next_start [] (refl, tt)
      typed_key_is_stored_example refl refl
