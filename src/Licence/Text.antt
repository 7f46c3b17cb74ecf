-- ===== src/Licence/Text.antt =====
-- Texts as lists of UTF-8 bytes, for minimal_copy_safe/copy_check.rs: `str::trim`,
-- `String::from_utf8`, the equality of texts and the boundaries of characters.
use modbus_tcplogger.Common.{
  ℕ, zero, suc, ◌-◌, Bool, true, false, ◌&&◌, ◌||◌, Option, none, some, List, [], ◌∷◌, ltb, leb,
  ◌==◌, if◌then◌else◌, is_empty,
}

-- Whether the text may be cut before its first byte: not inside a character.
abbrev pub is_char_boundary : List ℕ → Bool
is_char_boundary [] = true
is_char_boundary (b ∷ rest) = ltb b 0x80 || leb 0xC0 b

-- The bytes of the white-space character that a text starts with, 0 if it starts with none.
unfoldable pub space_len : List ℕ → ℕ
space_len [] = 0
space_len (a ∷ []) = if (leb 9 a && leb a 13) || a == 32 then 1 else 0
space_len (a ∷ b ∷ []) =
    if (leb 9 a && leb a 13) || a == 32
    then 1
    else if a == 0xC2 && (b == 0x85 || b == 0xA0)
    then 2
    else 0
space_len (a ∷ b ∷ c ∷ rest) =
    if (leb 9 a && leb a 13) || a == 32
    then 1
    else if a == 0xC2 && (b == 0x85 || b == 0xA0)
    then 2
    else if a == 0xE1 && b == 0x9A && c == 0x80
    then 3
    else if a == 0xE2 && b == 0x80
    then if leb c 0x8A || c == 0xA8 || c == 0xA9 || c == 0xAF then 3 else 0
    else if a == 0xE2 && b == 0x81 && c == 0x9F
    then 3
    else if a == 0xE3 && b == 0x80 && c == 0x80
    then 3
    else 0

-- `trim_start`, with the number of bytes that are still to be dropped.
unfoldable pub trim_start : ℕ → List ℕ → List ℕ
trim_start skip [] = []
trim_start (suc skip) (x ∷ xs) = trim_start skip xs
trim_start zero (x ∷ xs) =
    let n = space_len (x ∷ xs) in
    let rest = trim_start (n - 1) xs in if n == 0 then x ∷ xs else rest

unfoldable pub trim_end : List ℕ → List ℕ
trim_end [] = []
trim_end (x ∷ xs) =
    let rest = trim_end xs in if is_empty (trim_start zero (x ∷ xs)) then [] else x ∷ rest

unfoldable pub trim : List ℕ → List ℕ
trim text = trim_end (trim_start zero text)

abbrev pub two_more : ℕ → ℕ → Option (List (ℕ × ℕ))
two_more lo hi = some ((lo, hi) ∷ (0x80, 0xBF) ∷ [])

-- The ranges of the bytes that must follow a first byte of UTF-8.
unfoldable pub following : ℕ → Option (List (ℕ × ℕ))
following b =
    if ltb b 0x80
    then some []
    else if ltb b 0xC2
    then none
    else if ltb b 0xE0
    then some ((0x80, 0xBF) ∷ [])
    else if b == 0xE0
    then two_more 0xA0 0xBF
    else if b == 0xED
    then two_more 0x80 0x9F
    else if ltb b 0xF0
    then two_more 0x80 0xBF
    else if b == 0xF0
    then some ((0x90, 0xBF) ∷ (0x80, 0xBF) ∷ (0x80, 0xBF) ∷ [])
    else if ltb b 0xF4
    then some ((0x80, 0xBF) ∷ (0x80, 0xBF) ∷ (0x80, 0xBF) ∷ [])
    else if b == 0xF4
    then some ((0x80, 0x8F) ∷ (0x80, 0xBF) ∷ (0x80, 0xBF) ∷ [])
    else none

-- Whether `String::from_utf8` accepts the bytes, with the ranges the next ones must lie in.
unfoldable pub from_utf8 : Option (List (ℕ × ℕ)) → List ℕ → Bool
from_utf8 none bytes = false
from_utf8 (some []) [] = true
from_utf8 (some (r ∷ rs)) [] = false
from_utf8 (some []) (b ∷ bytes) = from_utf8 (following b) bytes
from_utf8 (some (r ∷ rs)) (b ∷ bytes) = leb r.0 b && leb b r.1 && from_utf8 (some rs) bytes

unfoldable pub same_text : List ℕ → List ℕ → Bool
same_text [] [] = true
same_text [] (y ∷ ys) = false
same_text (x ∷ xs) [] = false
same_text (x ∷ xs) (y ∷ ys) = x == y && same_text xs ys
