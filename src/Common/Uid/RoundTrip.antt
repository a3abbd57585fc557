-- ===== src/Common/Uid/RoundTrip.antt =====
-- include/voxen/common/uid.hpp and src/voxen/common/uid.cpp: the text of an identifier read back.
use voxen.Prelude.{ℕ, ◌+◌, ◌*◌, ◌/◌, ◌%◌, ◌^◌, ◌<◌, ◌≡◌, ap, ap₂, ◌∙◌, List, [], ◌∷◌, some, arith}
use voxen.Common.Uid.{
  Uid, hex_char, hex_word, to_chars, decode_char, decode_digit, decode_chars, decode_u64,
  from_chars, both, drop,
}

decode_char-hex_char : (d : ℕ) → d < 16 → decode_char (hex_char d) ≡ some d
unfolding decode_char hex_char
decode_char-hex_char d h = ground arith

decode_chars-cons :
    (result d next : ℕ) (cs : List ℕ)
    → d < 16
    → result * 2 ^ 4 % 2 ^ 64 + d ≡ next
    → decode_chars (some result) (hex_char d ∷ cs) ≡ decode_chars (some next) cs
unfolding decode_chars
decode_chars-cons result d next cs h e =
    ap (λ y. decode_chars (decode_digit result y) cs) (decode_char-hex_char d h)
    ∙ ap (λ y. decode_chars (some y) cs) e

-- Eight digits are read behind the upper half that was read.
decode_word :
    (upper x : ℕ)
    → upper < 2 ^ 32
    → x < 2 ^ 32
    → decode_chars (some upper) (hex_word x []) ≡ some (upper * 2 ^ 32 + x)
unfolding decode_chars
decode_word upper x h k =
    decode_chars-cons upper (x / 2 ^ 28 % 16) (upper * 2 ^ 4 + x / 2 ^ 28) (drop 1 (hex_word x []))
      (omega arith) (omega arith)
    ∙ decode_chars-cons (upper * 2 ^ 4 + x / 2 ^ 28) (x / 2 ^ 24 % 16) (upper * 2 ^ 8 + x / 2 ^ 24)
        (drop 2 (hex_word x [])) (omega arith) (omega arith)
    ∙ decode_chars-cons (upper * 2 ^ 8 + x / 2 ^ 24) (x / 2 ^ 20 % 16) (upper * 2 ^ 12 + x / 2 ^ 20)
        (drop 3 (hex_word x [])) (omega arith) (omega arith)
    ∙ decode_chars-cons (upper * 2 ^ 12 + x / 2 ^ 20) (x / 2 ^ 16 % 16)
        (upper * 2 ^ 16 + x / 2 ^ 16) (drop 4 (hex_word x [])) (omega arith) (omega arith)
    ∙ decode_chars-cons (upper * 2 ^ 16 + x / 2 ^ 16) (x / 2 ^ 12 % 16)
        (upper * 2 ^ 20 + x / 2 ^ 12) (drop 5 (hex_word x [])) (omega arith) (omega arith)
    ∙ decode_chars-cons (upper * 2 ^ 20 + x / 2 ^ 12) (x / 2 ^ 8 % 16) (upper * 2 ^ 24 + x / 2 ^ 8)
        (drop 6 (hex_word x [])) (omega arith) (omega arith)
    ∙ decode_chars-cons (upper * 2 ^ 24 + x / 2 ^ 8) (x / 2 ^ 4 % 16) (upper * 2 ^ 28 + x / 2 ^ 4)
        (drop 7 (hex_word x [])) (omega arith) (omega arith)
    ∙ decode_chars-cons (upper * 2 ^ 28 + x / 2 ^ 4) (x % 16) (upper * 2 ^ 32 + x) [] (omega arith)
        (omega arith)

decode_u64-hex :
    (a b : ℕ)
    → a < 2 ^ 32
    → b < 2 ^ 32
    → decode_u64 (hex_word a (45 ∷ hex_word b [])) ≡ some (a * 2 ^ 32 + b)
decode_u64-hex a b h k =
    let e : 0 * 2 ^ 32 + a ≡ a = omega arith in
    ap (λ y. decode_chars y (hex_word b [])) (decode_word 0 a (omega arith) h ∙ ap (λ y. some y) e)
    ∙ decode_word a b h k

-- The text that `toChars` writes of an identifier of two 64-bit numbers is accepted by the
-- constructor, and gives the identifier.
pub from_chars-to_chars :
    (u : Uid) → u.v0 < 2 ^ 64 → u.v1 < 2 ^ 64 → from_chars (to_chars u) ≡ some u
from_chars-to_chars u h k = ap₂ both (half u.v0 h) (half u.v1 k)
  where
    half :
        (v : ℕ)
        → v < 2 ^ 64
        → decode_u64 (hex_word (v / 2 ^ 32) (45 ∷ hex_word (v % 2 ^ 32) [])) ≡ some v
    half v l =
        let e : v / 2 ^ 32 * 2 ^ 32 + v % 2 ^ 32 ≡ v = omega arith in
        decode_u64-hex (v / 2 ^ 32) (v % 2 ^ 32) (omega arith) (omega arith) ∙ ap (λ y. some y) e
