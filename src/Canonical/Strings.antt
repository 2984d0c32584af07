-- ===== src/Canonical/Strings.antt =====
-- The escaping of gateway/canonical.go loses nothing: a reader of Python's JSON strings gets the
-- runes back, so two texts with one encoding have the same runes.
use mcp_gateway_lite.Base.{
  ℕ, ◌+◌, ◌-◌, ◌*◌, ◌/◌, ◌%◌, ◌≤◌, ◌<◌, Bool, true, false, ◌&&◌, ◌||◌, Bytes, List, [], ◌∷◌, ◌++◌,
  append_assoc, Option, none, some, ltb, leb, ◌==◌, if◌then◌else◌, All, ◌≡◌, ◌≢◌, ◌⊎◌, inl, inr,
  refl, sym, ap, ◌∙◌, arith, Bool-cases,
}
use mcp_gateway_lite.Canonical.Runes.{runes, within, IsScalar, runes-IsScalar}
use mcp_gateway_lite.Canonical.{hex_digit, unicode_escape, escape_rune, escape_runes, python_string}

hex_value : ℕ → ℕ
hex_value h = if ltb h 58 then h - 48 else h - 87

hex_value-hex_digit : (d : ℕ) → hex_value (hex_digit d) ≡ d
unfolding hex_value hex_digit
hex_value-hex_digit d = ground arith

hex_digit-ne : (d : ℕ) → d < 16 → (hex_digit d ≢ b'"')
unfolding hex_digit
hex_digit-ne d h = ground arith

-- Four hexadecimal digits behind a backslash and a `u`.
read_unit : Bytes → Option (ℕ × Bytes)
unfolding hex_value
read_unit (x ∷ u ∷ a ∷ b ∷ c ∷ d ∷ s) =
    if x == b'\\' && u == b'u'
    then some (hex_value a * 4096 + hex_value b * 256 + hex_value c * 16 + hex_value d, s)
    else none
read_unit s = none

read_unit-unicode_escape :
    (r : ℕ) (s : Bytes) → r < 65536 → read_unit (unicode_escape r ++ s) ≡ some (r, s)
unfolding read_unit unicode_escape
read_unit-unicode_escape r s h = ground (
  arith,
  hex_value-hex_digit (r / 4096 % 16),
  hex_value-hex_digit (r / 256 % 16),
  hex_value-hex_digit (r / 16 % 16),
  hex_value-hex_digit (r % 16),
)

join_pair : ℕ → Option (ℕ × Bytes) → Option (ℕ × Bytes)
join_pair hi none = none
join_pair hi (some (lo, rest)) = some (0x10000 + (hi - 0xd800) * 1024 + (lo - 0xdc00), rest)

-- The second half of a surrogate pair, if the first unit asks for one.
after_unit : Option (ℕ × Bytes) → Option (ℕ × Bytes)
unfolding join_pair
after_unit none = none
after_unit (some (hi, rest)) =
    if within 0xd800 0xdbff hi then join_pair hi (read_unit rest) else some (hi, rest)

read_code : Bytes → Option (ℕ × Bytes)
unfolding read_unit after_unit
read_code s = after_unit (read_unit s)

read_short : ℕ → ℕ
read_short e =
    if e == b'n'
    then 10
    else if e == b'r'
    then 13
    else if e == b't'
    then 9
    else if e == b'b'
    then 8
    else if e == b'f'
    then 12
    else e

-- One rune of a JSON string.
read_rune : Bytes → Option (ℕ × Bytes)
unfolding read_code read_short
read_rune [] = none
read_rune (c ∷ []) = some (c, [])
read_rune (c ∷ e ∷ s) =
    if c == b'\\'
    then if e == b'u' then read_code (c ∷ e ∷ s) else some (read_short e, s)
    else some (c, e ∷ s)

read_code_low :
    (r : ℕ) (s : Bytes)
    → (r < 0xd800) ⊎ (0xdfff < r)
    → r < 65536
    → after_unit (read_unit (unicode_escape r ++ s)) ≡ some (r, s)
read_code_low r s v h =
    ap after_unit (read_unit-unicode_escape r s h) ∙ unfold after_unit in ground arith

read_code_pair :
    (hi lo : ℕ) (s : Bytes)
    → 0xd800 ≤ hi
    → hi ≤ 0xdbff
    → lo < 65536
    → after_unit (read_unit (unicode_escape hi ++ (unicode_escape lo ++ s)))
      ≡ some (0x10000 + (hi - 0xd800) * 1024 + (lo - 0xdc00), s)
read_code_pair hi lo s h k l =
    ap after_unit (read_unit-unicode_escape hi (unicode_escape lo ++ s) (omega arith))
    ∙ unfold after_unit in ground (arith, read_unit-unicode_escape lo s l)

read_rune_unit :
    (r : ℕ) (s : Bytes)
    → read_rune (unicode_escape r ++ s) ≡ after_unit (read_unit (unicode_escape r ++ s))
unfolding read_rune unicode_escape
read_rune_unit r s = refl

pair_value :
    (r : ℕ)
    → 0xffff < r
    → r < 0x110000
    → (0x10000
          + (0xd800 + (r - 0x10000) / 1024 - 0xd800) * 1024
          + (0xdc00 + (r - 0x10000) % 1024 - 0xdc00)
        ≡ r)
      × (0xd800 + (r - 0x10000) / 1024 ≤ 0xdbff)
      × (0xdc00 + (r - 0x10000) % 1024 < 65536)
pair_value r h k = omega arith

escape_rune_long :
    (r : ℕ)
    → (leb r 0x7e ≡ false)
    → escape_rune r ≡ (
        if leb r 0xffff
        then unicode_escape r
        else unicode_escape (0xd800 + (r - 0x10000) / 1024)
          ++ unicode_escape (0xdc00 + (r - 0x10000) % 1024))
unfolding escape_rune
escape_rune_long r h = ground arith

read_rune_short :
    (r c : ℕ) (s : Bytes)
    → leb r 0x7e ≡ true
    → leb 0x20 r ≡ true
    → read_rune (escape_rune r ++ (c ∷ s)) ≡ some (r, c ∷ s)
unfolding read_rune escape_rune
read_rune_short r c s h k = ground arith

abbrev has_short_escape : ℕ → Bool
has_short_escape r = r == 10 || r == 13 || r == 9 || r == 8 || r == 12

read_rune_named :
    (r c : ℕ) (s : Bytes)
    → has_short_escape r ≡ true
    → read_rune (escape_rune r ++ (c ∷ s)) ≡ some (r, c ∷ s)
unfolding read_rune escape_rune
read_rune_named r c s h = ground arith

escape_rune_control :
    (r : ℕ) → leb 0x20 r ≡ false → has_short_escape r ≡ false → escape_rune r ≡ unicode_escape r
unfolding escape_rune
escape_rune_control r h k = ground arith

read_rune_control :
    (r c : ℕ) (s : Bytes)
    → leb 0x20 r ≡ false
    → read_rune (escape_rune r ++ (c ∷ s)) ≡ some (r, c ∷ s)
read_rune_control r c s k = elim (Bool-cases (has_short_escape r)) [
  | inl short ↦ read_rune_named r c s short
  | inr long ↦
      rw (escape_rune_control r k long)
        (read_rune_unit r (c ∷ s) ∙ read_code_low r (c ∷ s) (inl (ground arith)) (ground arith))
]

read_rune_long :
    (r : ℕ) (s : Bytes)
    → IsScalar r
    → leb r 0x7e ≡ false
    → read_rune (escape_rune r ++ s) ≡ some (r, s)
read_rune_long r s v h = elim (Bool-cases (leb r 0xffff)) [
  | inl low ↦
      rw (escape_rune_long r h, low)
        (read_rune_unit r s ∙ read_code_low r s (ground arith) (ground arith))
  | inr high ↦
      let (value, fits, lo) = pair_value r (ground arith) (ground arith) in
      rw (escape_rune_long r h, high)
        (rw append_assoc (
          read_rune_unit _ _
          ∙ read_code_pair _ _ s (omega arith) fits lo
          ∙ ap (λ (q : ℕ). some (q, s)) value))
]

read_rune-escape_rune :
    (r : ℕ) (s : Bytes) → IsScalar r → s ≢ [] → read_rune (escape_rune r ++ s) ≡ some (r, s)
read_rune-escape_rune r [] v ne = absurd (ne refl)
read_rune-escape_rune r (c ∷ s) v ne = elim (Bool-cases (leb r 0x7e)) [
  | inl low ↦ elim (Bool-cases (leb 0x20 r)) [
    | inl printable ↦ read_rune_short r c s low printable
    | inr control ↦ read_rune_control r c s control
  ]
  | inr high ↦ read_rune_long r (c ∷ s) v high
]

-- No escaped rune begins with the closing quote.
escape_rune_head : (r : ℕ) (s x : Bytes) → (escape_rune r ++ s ≢ b'"' ∷ x)
unfolding escape_rune unicode_escape
escape_rune_head r s x h = ground arith

escape_rune-ne-nil : (r : ℕ) (s : Bytes) → escape_rune r ++ s ≢ []
unfolding escape_rune unicode_escape
escape_rune-ne-nil r s h = ground arith

some_pair :
    (r q : ℕ) (s t : Bytes)
    → ◌≡◌ {A = Option (ℕ × Bytes)} (some (r, s)) (some (q, t))
    → (r ≡ q) × (s ≡ t)
some_pair r q s t h = ground arith

-- The escaped runes, the closing quote, and what stands behind it.
quoted : List ℕ → Bytes → Bytes
quoted [] x = b'"' ∷ x
quoted (r ∷ rs) x = escape_rune r ++ quoted rs x

quoted-ne-nil : (rs : List ℕ) (x : Bytes) → quoted rs x ≢ []
unfolding quoted
quoted-ne-nil [] x h = cc
quoted-ne-nil (r ∷ rs) x h = escape_rune-ne-nil r (quoted rs x) h

quoted-injective :
    (rs qs : List ℕ) (x y : Bytes)
    → All IsScalar rs
    → All IsScalar qs
    → quoted rs x ≡ quoted qs y
    → (rs ≡ qs) × (x ≡ y)
unfolding quoted
quoted-injective [] [] x y v w h = (refl, ground arith)
quoted-injective [] (q ∷ qs) x y v w h = absurd (escape_rune_head q (quoted qs y) x (sym h))
quoted-injective (r ∷ rs) [] x y v w h = absurd (escape_rune_head r (quoted rs x) y h)
quoted-injective (r ∷ rs) (q ∷ qs) x y v w h =
    let read =
      sym (read_rune-escape_rune r (quoted rs x) v.0 (quoted-ne-nil rs x))
      ∙ ap read_rune h
      ∙ read_rune-escape_rune q (quoted qs y) w.0 (quoted-ne-nil qs y) in
    let (head, tail) = some_pair r q (quoted rs x) (quoted qs y) read in
    let (rest, behind) = quoted-injective rs qs x y v.1 w.1 tail in (cc (head, rest), behind)

escape_runes-quoted : (rs : List ℕ) (x : Bytes) → escape_runes rs ++ (b'"' ∷ x) ≡ quoted rs x
unfolding escape_runes quoted
escape_runes-quoted [] x = refl
escape_runes-quoted (r ∷ rs) x = rw (append_assoc, escape_runes-quoted rs x)

python_string-quoted : (s x : Bytes) → python_string s ++ x ≡ b'"' ∷ quoted (runes s) x
unfolding python_string
python_string-quoted s x = ap (◌∷◌ b'"') (rw append_assoc (escape_runes-quoted (runes s) x))

-- Where two encoded texts agree, whatever stands behind each, they encode the same runes, and
-- what stands behind them is the same: the encoding is unambiguous and self-delimiting.
pub python_string-injective :
    (s t x y : Bytes) → python_string s ++ x ≡ python_string t ++ y → (runes s ≡ runes t) × (x ≡ y)
python_string-injective s t x y h =
    let same = sym (python_string-quoted s x) ∙ h ∙ python_string-quoted t y in
    quoted-injective (runes s) (runes t) x y (runes-IsScalar s) (runes-IsScalar t) (tail same)
  where
    tail : {a b : Bytes} → ◌≡◌ {A = Bytes} (b'"' ∷ a) (b'"' ∷ b) → a ≡ b
    tail e = ground arith
