-- ===== src/Canonical.antt =====
-- gateway/canonical.go: the canonical JSON form of mcp-sentinel lockfiles, and its digest.
pub mod Runes
pub mod Strings
use mcp_gateway_lite.Base.{
  ℕ, ◌+◌, ◌-◌, ◌/◌, ◌%◌, Bool, true, false, not, ◌&&◌, ◌||◌, Bytes, codes, same, List, [], ◌∷◌,
  ◌++◌, Option, none, some, ltb, leb, ◌==◌, if◌then◌else◌, join,
}
use mcp_gateway_lite.Codec.{
  Codec, Value, Values, Fields, null, bool, number, string, array, object, nil, cons, end, field,
}
use mcp_gateway_lite.Canonical.Runes.{runes, rune_error}

-- One lowercase hexadecimal digit.
unfoldable pub hex_digit : ℕ → ℕ
hex_digit d = if ltb d 10 then 48 + d else 87 + d

-- fmt's \u%04x, for values below 0x10000
unfoldable pub unicode_escape : ℕ → Bytes
unfolding hex_digit
unicode_escape r =
    b'\\'
    ∷ b'u'
    ∷ hex_digit (r / 4096 % 16)
    ∷ hex_digit (r / 256 % 16)
    ∷ hex_digit (r / 16 % 16)
    ∷ hex_digit (r % 16)
    ∷ []

-- One rune as Python writes it with ensure_ascii. The last branch is utf16.EncodeRune.
unfoldable pub escape_rune : ℕ → Bytes
escape_rune r =
    if r == b'"'
    then b'\\' ∷ b'"' ∷ []
    else if r == b'\\'
    then b'\\' ∷ b'\\' ∷ []
    else if r == 10
    then b'\\' ∷ b'n' ∷ []
    else if r == 13
    then b'\\' ∷ b'r' ∷ []
    else if r == 9
    then b'\\' ∷ b't' ∷ []
    else if r == 8
    then b'\\' ∷ b'b' ∷ []
    else if r == 12
    then b'\\' ∷ b'f' ∷ []
    else if leb 0x20 r && leb r 0x7e
    then r ∷ []
    else if leb r 0xffff
    then unicode_escape r
    else unicode_escape (0xd800 + (r - 0x10000) / 1024)
      ++ unicode_escape (0xdc00 + (r - 0x10000) % 1024)

unfoldable pub escape_runes : List ℕ → Bytes
unfolding escape_rune
escape_runes [] = []
escape_runes (r ∷ rs) = escape_rune r ++ escape_runes rs

unfoldable pub python_string : Bytes → Bytes
unfolding escape_runes runes
python_string s = b'"' ∷ (escape_runes (runes s) ++ (b'"' ∷ []))

-- strings.ContainsRune(s, utf8.RuneError)
unfoldable pub contains_rune : ℕ → List ℕ → Bool
contains_rune r [] = false
contains_rune r (q ∷ qs) = q == r || contains_rune r qs

-- `none` is errReplacementChar, the only error that a decoded value meets.
unfoldable pub canonical_string : Bytes → Option Bytes
unfolding contains_rune python_string
canonical_string s = if contains_rune rune_error (runes s) then none else some (python_string s)

-- The order of Go's strings, byte by byte.
unfoldable pub bytes_lt : Bytes → Bytes → Bool
bytes_lt [] [] = false
bytes_lt [] (y ∷ b) = true
bytes_lt (x ∷ a) [] = false
bytes_lt (x ∷ a) (y ∷ b) = if ltb x y then true else (x == y && bytes_lt a b)

-- sort.Strings and sort.SliceStable, by a key: an element goes behind those with a smaller key.
module _ {ℓ} {A : Type ℓ} where
  unfoldable pub insert_by_key : Bytes × A → List (Bytes × A) → List (Bytes × A)
  unfolding bytes_lt
  insert_by_key (k, x) [] = (k, x) ∷ []
  insert_by_key (k, x) ((j, y) ∷ l) =
      if bytes_lt j k then (j, y) ∷ insert_by_key (k, x) l else (k, x) ∷ (j, y) ∷ l

  unfoldable pub sort_by_key : List (Bytes × A) → List (Bytes × A)
  unfolding insert_by_key
  sort_by_key [] = []
  sort_by_key (e ∷ l) = insert_by_key e (sort_by_key l)

abbrev bracket : ℕ → ℕ → Bytes → Bytes
bracket l r s = l ∷ (s ++ (r ∷ []))

-- The second parts of a list of pairs.
unfoldable pub texts_of : List (Bytes × Bytes) → List Bytes
texts_of [] = []
texts_of ((k, text) ∷ l) = text ∷ texts_of l

abbrev array_text : Option (List Bytes) → Option Bytes
array_text none = none
array_text (some items) = some (bracket b'[' b']' (join b',' items))

abbrev object_text : Option (List (Bytes × Bytes)) → Option Bytes
object_text none = none
object_text (some fields) = some (bracket b'{' b'}' (join b',' (texts_of (sort_by_key fields))))

abbrev add_item : Option Bytes → Option (List Bytes) → Option (List Bytes)
add_item (some v) (some rest) = some (v ∷ rest)
add_item _ _ = none

-- A field's text, behind the key that it is sorted by.
abbrev add_field :
    Bytes
    → Option Bytes
    → Option Bytes
    → Option (List (Bytes × Bytes))
    → Option (List (Bytes × Bytes))
add_field k (some name) (some v) (some rest) = some ((k, name ++ (b':' ∷ v)) ∷ rest)
add_field k _ _ _ = none

-- Each field's text is encoded in the order in which the map is ranged over, and then sorted by its
-- key; all errors are the same, so their order does not show.
unfoldable mutual
  unfolding canonical_string

  pub canonical : Value → Option Bytes
  canonical null = some (codes "null")
  canonical (bool true) = some (codes "true")
  canonical (bool false) = some (codes "false")
  canonical (number n) = some n
  canonical (string s) = canonical_string s
  canonical (array vs) = array_text (canonical_items vs)
  canonical (object fs) = object_text (canonical_fields fs)

  pub canonical_items : Values → Option (List Bytes)
  canonical_items nil = some []
  canonical_items (cons v vs) = add_item (canonical v) (canonical_items vs)

  pub canonical_fields : Fields → Option (List (Bytes × Bytes))
  canonical_fields end = some []
  canonical_fields (field k v fs) =
      add_field k (canonical_string k) (canonical v) (canonical_fields fs)

-- sentinelHash: hex.EncodeToString of the digest
unfoldable pub hex : Bytes → Bytes
unfolding hex_digit
hex [] = []
hex (c ∷ s) = hex_digit (c / 16 % 16) ∷ hex_digit (c % 16) ∷ hex s

unfoldable pub sentinel_hash : Codec → Bytes → Bytes
unfolding codes hex
sentinel_hash codec text = codes "sha256:" ++ hex (codec.sha256 text)

-- decodeUseNumber: one value with nothing behind it
unfoldable pub decode_use_number : Codec → Bytes → Option Value
decode_use_number codec raw = elim (codec.decode_value raw) [
  | none ↦ none
  | some (v, more) ↦ if more then none else some v
]
