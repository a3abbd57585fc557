-- ===== src/Common/Uid.antt =====
-- include/voxen/common/uid.hpp and src/voxen/common/uid.cpp: 128-bit identifiers and their text.
-- A character is its code; the text is the array of 36 characters with its terminator.
pub mod RoundTrip
mod Tests
use voxen.Prelude.{
  ℕ, zero, suc, ◌+◌, ◌-◌, ◌*◌, ◌/◌, ◌%◌, ◌^◌, Bool, true, false, ◌&&◌, List, [], ◌∷◌, ◌++◌, Option,
  none, some, ltb, leb, ◌==◌, if◌then◌else◌, get_or,
}

pub record Uid : Type 0 where
  pub v0 : ℕ
  pub v1 : ℕ

-- A lowercase hexadecimal digit.
pub hex_char : ℕ → ℕ
hex_char d = if ltb d 10 then 48 + d else 87 + d

-- `%08x` of a 32-bit number.
abbrev pub hex_word : ℕ → List ℕ → List ℕ
hex_word x rest =
    hex_char (x / 2 ^ 28 % 16)
    ∷ hex_char (x / 2 ^ 24 % 16)
    ∷ hex_char (x / 2 ^ 20 % 16)
    ∷ hex_char (x / 2 ^ 16 % 16)
    ∷ hex_char (x / 2 ^ 12 % 16)
    ∷ hex_char (x / 2 ^ 8 % 16)
    ∷ hex_char (x / 2 ^ 4 % 16)
    ∷ hex_char (x % 16)
    ∷ rest

abbrev pub to_chars : Uid → List ℕ
to_chars u = hex_word (u.v0 / 2 ^ 32) (
    45
    ∷ hex_word (u.v0 % 2 ^ 32)
        (45 ∷ hex_word (u.v1 / 2 ^ 32) (45 ∷ hex_word (u.v1 % 2 ^ 32) (0 ∷ []))))

pub decode_char : ℕ → Option ℕ
decode_char c =
    if leb 48 c && leb c 57
    then some (c - 48)
    else (if leb 97 c && leb c 102 then some (c - 97 + 10) else none)

abbrev pub take : ℕ → List ℕ → List ℕ
take zero cs = []
take (suc n) [] = []
take (suc n) (c ∷ cs) = c ∷ take n cs

abbrev pub drop : ℕ → List ℕ → List ℕ
drop zero cs = cs
drop (suc n) [] = []
drop (suc n) (c ∷ cs) = drop n cs

abbrev pub decode_digit : ℕ → Option ℕ → Option ℕ
decode_digit result none = none
decode_digit result (some d) = some (result * 2 ^ 4 % 2 ^ 64 + d)

-- A loop of `decode_u64` from a result on; none where `fail` is called.
pub decode_chars : Option ℕ → List ℕ → Option ℕ
unfolding decode_char
decode_chars none cs = none
decode_chars (some result) [] = some result
decode_chars (some result) (c ∷ cs) = decode_chars (decode_digit result (decode_char c)) cs

abbrev pub decode_u64 : List ℕ → Option ℕ
decode_u64 cs = decode_chars (decode_chars (some 0) (take 8 cs)) (take 8 (drop 9 cs))

abbrev pub both : Option ℕ → Option ℕ → Option Uid
both (some a) (some b) = some (record { v0 = a; v1 = b })
both (some a) none = none
both none b = none

-- The constructor from text.
abbrev pub from_chars : List ℕ → Option Uid
from_chars cs =
    if (get_or cs 8 0 == 45) && (get_or cs 17 0 == 45) && (get_or cs 26 0 == 45)
    then both (decode_u64 (take 17 cs)) (decode_u64 (take 17 (drop 18 cs)))
    else none
