-- ===== src/Licence/Accept.antt =====
-- Which texts copy_check.rs accepts, and when the loop takes a typed one.
use mathlib.Core.Path.{subst}
use modbus_tcplogger.Common.{
  ℕ, zero, ◌%◌, ◌<◌, ◌≤◌, ◌≡◌, ◌⊎◌, inl, inr, refl, sym, ap, ◌∙◌, true, false, ◌&&◌, Option, none,
  some, List, [], ◌∷◌, ◌++◌, All, ◌==◌, if◌then◌else◌, length, append-nil, arith, Bool-cases,
}
use modbus_tcplogger.Licence.{
  Outcome, done, panicked, bytes_to_hex, digit_value, from_str_radix, read_pairs, hex_to_bytes,
  xor_cipher, xor_key_license, collect, decrypts_to, fits, Round, stored, file_fits,
  check_key_and_activate,
}
use modbus_tcplogger.Licence.Text.{
  is_char_boundary, space_len, trim_start, trim_end, trim, from_utf8, same_text,
}
use modbus_tcplogger.Licence.Hex.{
  IsByte, hex_to_bytes-bytes_to_hex, xor_cipher-All, xor_cipher_twice, license-IsKey,
}

same_text_refl : (xs : List ℕ) → same_text xs xs ≡ true
unfolding same_text
same_text_refl [] = refl
same_text_refl (x ∷ xs) = ground (arith, same_text_refl xs)

same_text→eq : (xs ys : List ℕ) → same_text xs ys ≡ true → xs ≡ ys
unfolding same_text
same_text→eq [] [] h = refl
same_text→eq [] (y ∷ ys) h = cc
same_text→eq (x ∷ xs) [] h = cc
same_text→eq (x ∷ xs) (y ∷ ys) h = ground (arith, same_text→eq xs ys)

-- The key for a disk: its serial number under the cipher, in hexadecimal digits.
abbrev pub license_key : List ℕ → List ℕ
license_key id = bytes_to_hex (xor_cipher id xor_key_license)

-- The key that is made for a disk is accepted on it.
pub fits-license_key :
    (id : List ℕ)
    → All IsByte id
    → from_utf8 (some []) id ≡ true
    → fits id (license_key id) ≡ done true
unfolding fits
fits-license_key id h u =
    rw
      (
        hex_to_bytes-bytes_to_hex (xor_cipher id xor_key_license)
            (xor_cipher-All xor_key_license license-IsKey id h),
        xor_cipher_twice xor_key_license license-IsKey id h,
        u,
        same_text_refl id,
      )
      refl

-- A byte of ASCII that is no white space.
abbrev IsPlain : ℕ → Type 0
IsPlain c = (32 < c) × (c < 128)

-- White space of ASCII.
abbrev pub IsBlank : ℕ → Type 0
IsBlank c = ((9 ≤ c) × (c ≤ 13)) ⊎ (c ≡ 32)

from_str_radix-IsPlain :
    (a b v : ℕ) → from_str_radix a b ≡ some v → IsPlain a × IsPlain b × IsByte v
unfolding from_str_radix digit_value
from_str_radix-IsPlain a b v e = ground arith

collect-inv :
    (o : Option ℕ) (rest : Outcome (Option (List ℕ))) (bytes : List ℕ)
    → collect o rest ≡ done (some bytes)
    → (b : ℕ) × (bs : List ℕ) × (o ≡ some b) × (rest ≡ done (some bs)) × (bytes ≡ b ∷ bs)
collect-inv none rest bytes e = cc
collect-inv (some b) panicked bytes e = cc
collect-inv (some b) (done none) bytes e = cc
collect-inv (some b) (done (some bs)) bytes e = (b, bs, refl, refl, cc)

read_pairs-All :
    (text bytes : List ℕ)
    → read_pairs text ≡ done (some bytes)
    → All IsPlain text × All IsByte bytes
unfolding read_pairs
read_pairs-All [] bytes e = let nothing : bytes ≡ [] = cc in (tt, rw nothing tt)
read_pairs-All (a ∷ []) bytes e = cc
read_pairs-All (a ∷ b ∷ hex) bytes e = elim (Bool-cases (is_char_boundary hex)) [
  | inl boundary ↦
      let (v, vs, here, rest, eq) = collect-inv (from_str_radix a b) (read_pairs hex) bytes (
        subst
          (λ c.
            (if c then collect (from_str_radix a b) (read_pairs hex) else panicked)
            ≡ done (some bytes))
          boundary e) in
      let (pa, pb, small) = from_str_radix-IsPlain a b v here in
      let (texts, smalls) = read_pairs-All hex vs rest in ((pa, (pb, texts)), rw eq (small, smalls))
  | inr cut ↦ cc (
      subst
        (λ c.
          (if c then collect (from_str_radix a b) (read_pairs hex) else panicked)
          ≡ done (some bytes))
        cut e)
]

hex_to_bytes-All :
    (text bytes : List ℕ)
    → hex_to_bytes text ≡ done (some bytes)
    → All IsPlain text × All IsByte bytes
unfolding hex_to_bytes
hex_to_bytes-All text bytes e = elim (Bool-cases (length text % 2 == 0)) [
  | inl even ↦
      read_pairs-All text bytes
        (subst (λ c. (if c then read_pairs text else done none) ≡ done (some bytes)) even e)
  | inr odd ↦ cc (subst (λ c. (if c then read_pairs text else done none) ≡ done (some bytes)) odd e)
]

decrypts_to-inv :
    (id : List ℕ) (o : Outcome (Option (List ℕ)))
    → decrypts_to id o ≡ done true
    → (bytes : List ℕ) × (o ≡ done (some bytes)) × (xor_cipher bytes xor_key_license ≡ id)
decrypts_to-inv id panicked e = cc
decrypts_to-inv id (done none) e = cc
decrypts_to-inv id (done (some bytes)) e =
    let decrypted = xor_cipher bytes xor_key_license in
    let both : (from_utf8 (some []) decrypted && same_text decrypted id) ≡ true = cc in
    let same : same_text decrypted id ≡ true = ground arith in
    (bytes, refl, same_text→eq decrypted id same)

-- Only such a key is accepted: its digits, in either case and with a plus sign where
-- `from_str_radix` allows one, stand for the serial number under the cipher.
pub fits_only :
    (id text : List ℕ)
    → fits id text ≡ done true
    → hex_to_bytes text ≡ done (some (xor_cipher id xor_key_license))
unfolding fits
fits_only id text e =
    let (bytes, read, eq) = decrypts_to-inv id (hex_to_bytes text) e in
    let back : xor_cipher id xor_key_license ≡ bytes =
      ap (λ x. xor_cipher x xor_key_license) (sym eq)
      ∙ xor_cipher_twice xor_key_license license-IsKey bytes (hex_to_bytes-All text bytes read).1 in
    read ∙ ap (λ x. done (some x)) (sym back)

space_len-IsPlain : (x : ℕ) (xs : List ℕ) → IsPlain x → space_len (x ∷ xs) ≡ 0
unfolding space_len
space_len-IsPlain x [] h = ground arith
space_len-IsPlain x (y ∷ []) h = ground arith
space_len-IsPlain x (y ∷ z ∷ xs) h = ground arith

space_len-IsBlank : (x : ℕ) (xs : List ℕ) → IsBlank x → space_len (x ∷ xs) ≡ 1
unfolding space_len
space_len-IsBlank x [] h = ground arith
space_len-IsBlank x (y ∷ []) h = ground arith
space_len-IsBlank x (y ∷ z ∷ xs) h = ground arith

trim_start-IsPlain : (x : ℕ) (xs : List ℕ) → IsPlain x → trim_start zero (x ∷ xs) ≡ x ∷ xs
unfolding trim_start
trim_start-IsPlain x xs h = rw (space_len-IsPlain x xs h) refl

trim_start-IsBlank : (ws : List ℕ) → All IsBlank ws → trim_start zero ws ≡ []
unfolding trim_start
trim_start-IsBlank [] h = refl
trim_start-IsBlank (w ∷ ws) h = rw (space_len-IsBlank w ws h.0, trim_start-IsBlank ws h.1) refl

trim_end-IsBlank : (ws : List ℕ) → All IsBlank ws → trim_end ws ≡ []
unfolding trim_end
trim_end-IsBlank [] h = refl
trim_end-IsBlank (w ∷ ws) h = rw (trim_start-IsBlank (w ∷ ws) h) refl

trim_end-append : (xs ws : List ℕ) → All IsPlain xs → All IsBlank ws → trim_end (xs ++ ws) ≡ xs
unfolding trim_end
trim_end-append [] ws h k = trim_end-IsBlank ws k
trim_end-append (x ∷ xs) ws h k =
    rw (trim_start-IsPlain x (xs ++ ws) h.0, trim_end-append xs ws h.1 k) refl

-- White space at the end of a plain text goes, and the text stays.
trim-append : (xs ws : List ℕ) → All IsPlain xs → All IsBlank ws → trim (xs ++ ws) ≡ xs
unfolding trim
trim-append [] ws h k = rw (trim_start-IsBlank ws k) (trim_end-IsBlank [] tt)
trim-append (x ∷ xs) ws h k =
    rw (trim_start-IsPlain x (xs ++ ws) h.0) (trim_end-append (x ∷ xs) ws h k)

-- An accepted text has no white space at its ends.
pub trim-accepted : (id text : List ℕ) → fits id text ≡ done true → trim text ≡ text
trim-accepted id text e =
    let plain = (hex_to_bytes-All text (xor_cipher id xor_key_license) (fits_only id text e)).0 in
    subst (λ t. trim t ≡ text) (append-nil text) (trim-append text [] plain tt)

-- The key made for the disk, typed and ended by a line break, is stored in the first round in which
-- the file does not let the program through and can be written.
pub typed_key_is_stored :
    (r : Round) (rounds : List Round) (line_end : List ℕ)
    → All IsByte r.current_id
    → from_utf8 (some []) r.current_id ≡ true
    → file_fits r.current_id r.license_file ≡ done false
    → r.user_input ≡ some (license_key r.current_id ++ line_end)
    → All IsBlank line_end
    → r.writable ≡ true
    → check_key_and_activate (r ∷ rounds) ≡ done (stored (license_key r.current_id))
unfolding check_key_and_activate
typed_key_is_stored r rounds line_end small utf8 refused typed blank writable =
    let key = license_key r.current_id in
    let good = fits-license_key r.current_id small utf8 in
    let plain =
      (hex_to_bytes-All key (xor_cipher r.current_id xor_key_license)
        (fits_only r.current_id key good)).0 in
    rw (refused, typed, writable, trim-append key line_end plain blank, good) refl
