-- ===== src/Trietool/Utf8.antt =====
-- Strings of bytes as trietool reads them: `String::from_utf8_lossy`, lines and `trim_ascii`.
use libdatrie_rs.Common.{
  ℕ, zero, suc, ◌+◌, ◌-◌, ◌*◌, Bool, ◌&&◌, ◌||◌, List, [], ◌∷◌, ltb, leb, ◌==◌, if◌then◌else◌,
}

abbrev pub between : ℕ → ℕ → ℕ → Bool
between lo hi b = leb lo b && leb b hi

-- A character, or the one that replaces bytes that are none, and how many more bytes it takes.
abbrev pub replacement : ℕ
replacement = 65533

abbrev pub two : ℕ → List ℕ → ℕ × ℕ
two a [] = (replacement, 0)
two a (b ∷ bs) = if between 128 191 b then ((a - 192) * 64 + (b - 128), 1) else (replacement, 0)

abbrev pub third : ℕ → List ℕ → ℕ × ℕ
third n [] = (replacement, 1)
third n (b ∷ bs) = if between 128 191 b then (n * 64 + (b - 128), 2) else (replacement, 1)

-- What the second byte can be, after the first.
abbrev pub second_of_three : ℕ → ℕ → Bool
second_of_three a =
    if a == 224 then between 160 191 else if a == 237 then between 128 159 else between 128 191

abbrev pub three : ℕ → List ℕ → ℕ × ℕ
three a [] = (replacement, 0)
three a (b ∷ bs) =
    if second_of_three a b then third ((a - 224) * 64 + (b - 128)) bs else (replacement, 0)

abbrev pub fourth : ℕ → List ℕ → ℕ × ℕ
fourth n [] = (replacement, 2)
fourth n (b ∷ bs) = if between 128 191 b then (n * 64 + (b - 128), 3) else (replacement, 2)

abbrev pub third_of_four : ℕ → List ℕ → ℕ × ℕ
third_of_four n [] = (replacement, 1)
third_of_four n (b ∷ bs) =
    if between 128 191 b then fourth (n * 64 + (b - 128)) bs else (replacement, 1)

abbrev pub second_of_four : ℕ → ℕ → Bool
second_of_four a =
    if a == 240 then between 144 191 else if a == 244 then between 128 143 else between 128 191

abbrev pub four : ℕ → List ℕ → ℕ × ℕ
four a [] = (replacement, 0)
four a (b ∷ bs) =
    if second_of_four a b then third_of_four ((a - 240) * 64 + (b - 128)) bs else (replacement, 0)

abbrev pub first : ℕ → List ℕ → ℕ × ℕ
first a bs =
    if ltb a 128
    then (a, 0)
    else if between 194 223 a
    then two a bs
    else if between 224 239 a
    then three a bs
    else if between 240 244 a
    then four a bs
    else (replacement, 0)

-- After this many bytes of a character that has been read.
abbrev pub lossy_from : ℕ → List ℕ → List ℕ
lossy_from skip [] = []
lossy_from (suc skip) (a ∷ bs) = lossy_from skip bs
lossy_from zero (a ∷ bs) = (first a bs).0 ∷ lossy_from (first a bs).1 bs

unfoldable pub from_utf8_lossy : List ℕ → List ℕ
from_utf8_lossy bytes = lossy_from 0 bytes

-- `split('\n')`: no line after a last line feed.
abbrev pub push_byte : ℕ → List (List ℕ) → List (List ℕ)
push_byte b [] = (b ∷ []) ∷ []
push_byte b (line ∷ lines) = (b ∷ line) ∷ lines

unfoldable pub split_lines : List ℕ → List (List ℕ)
split_lines [] = []
split_lines (b ∷ bs) = if b == 10 then [] ∷ split_lines bs else push_byte b (split_lines bs)

abbrev pub is_space : ℕ → Bool
is_space b = between 9 10 b || between 12 13 b || b == 32

abbrev pub trim_start : List ℕ → List ℕ
trim_start [] = []
trim_start (b ∷ bs) = if is_space b then trim_start bs else b ∷ bs

abbrev pub push_unless_space : ℕ → List ℕ → List ℕ
push_unless_space b [] = if is_space b then [] else b ∷ []
push_unless_space b (c ∷ bs) = b ∷ c ∷ bs

abbrev pub trim_end : List ℕ → List ℕ
trim_end [] = []
trim_end (b ∷ bs) = push_unless_space b (trim_end bs)

unfoldable pub trim_ascii : List ℕ → List ℕ
trim_ascii bytes = trim_end (trim_start bytes)
