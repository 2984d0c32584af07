-- ===== src/Canonical/Runes.antt =====
-- Ranging over a Go string (`for _, r := range s` in gateway/canonical.go): its runes by UTF-8, where
-- each byte that begins no valid sequence reads as U+FFFD.
use mcp_gateway_lite.Base.{
  ℕ, zero, suc, ◌+◌, ◌-◌, ◌*◌, ◌<◌, Bool, ◌&&◌, Bytes, List, [], ◌∷◌, ltb, leb, ◌==◌, if◌then◌else◌,
  All, arith, ◌⊎◌,
}

abbrev pub rune_error : ℕ
rune_error = 0xfffd

-- The byte at an index; past the end, one that continues no sequence.
unfoldable pub byte_at : Bytes → ℕ → ℕ
byte_at [] i = 0
byte_at (c ∷ s) zero = c
byte_at (c ∷ s) (suc i) = byte_at s i

abbrev pub within : ℕ → ℕ → ℕ → Bool
within lo hi c = leb lo c && leb c hi

-- utf8.DecodeRune of a first byte and those behind it: the rune and its width.
unfoldable pub decode_rune : ℕ → Bytes → ℕ × ℕ
unfolding byte_at
decode_rune a s =
    let b = byte_at s 0 in
    let c = byte_at s 1 in
    let d = byte_at s 2 in
    if ltb a 0x80
    then (a, 1)
    else if within 0xc2 0xdf a && within 0x80 0xbf b
    then ((a - 0xc0) * 64 + (b - 0x80), 2)
    else if within 0xe0 0xef a
        && within (if a == 0xe0 then 0xa0 else 0x80) (if a == 0xed then 0x9f else 0xbf) b
        && within 0x80 0xbf c
    then ((a - 0xe0) * 4096 + (b - 0x80) * 64 + (c - 0x80), 3)
    else if within 0xf0 0xf4 a
        && within (if a == 0xf0 then 0x90 else 0x80) (if a == 0xf4 then 0x8f else 0xbf) b
        && within 0x80 0xbf c
        && within 0x80 0xbf d
    then ((a - 0xf0) * 262144 + (b - 0x80) * 4096 + (c - 0x80) * 64 + (d - 0x80), 4)
    else (rune_error, 1)

-- The runes of a text of which the first `n` bytes belong to a rune that has been read.
unfoldable pub runes_behind : ℕ → Bytes → List ℕ
unfolding decode_rune
runes_behind n [] = []
runes_behind (suc n) (c ∷ s) = runes_behind n s
runes_behind zero (c ∷ s) = let (r, width) = decode_rune c s in r ∷ runes_behind (width - 1) s

unfoldable pub runes : Bytes → List ℕ
unfolding runes_behind
runes = runes_behind 0

-- A Unicode scalar value: no surrogate, and not past U+10FFFF.
abbrev pub IsScalar : ℕ → Type 0
IsScalar r = (r < 0xd800) ⊎ ((0xdfff < r) × (r < 0x110000))

decode_rune-IsScalar : (a : ℕ) (s : Bytes) → IsScalar (decode_rune a s).0
unfolding decode_rune
decode_rune-IsScalar a s = ground arith

pub runes_behind-IsScalar : (n : ℕ) (s : Bytes) → All IsScalar (runes_behind n s)
unfolding runes_behind
runes_behind-IsScalar n [] = tt
runes_behind-IsScalar (suc n) (c ∷ s) = runes_behind-IsScalar n s
runes_behind-IsScalar zero (c ∷ s) =
    (decode_rune-IsScalar c s, runes_behind-IsScalar ((decode_rune c s).1 - 1) s)

-- Every rune of a string is a Unicode scalar value.
pub runes-IsScalar : (s : Bytes) → All IsScalar (runes s)
unfolding runes
runes-IsScalar s = runes_behind-IsScalar 0 s
