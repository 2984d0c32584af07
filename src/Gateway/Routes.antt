-- ===== src/Gateway/Routes.antt =====
-- The upstream that gateway/gateway.go reads off a path.
use mcp_gateway_lite.Base.{true, Bytes, trim_prefix, [], ◌∷◌, ◌++◌, ◌≡◌, refl, arith}
use mcp_gateway_lite.Config.{all_name_chars, matches_name}
use mcp_gateway_lite.Gateway.{before_slash, mcp_prefix, name_of}
use mcp_gateway_lite.Gateway.Types.{Request}

-- What may follow an upstream's name in a path: nothing, or a slash and anything.
abbrev pub Subpath : Bytes → Type 0
Subpath [] = Unit
Subpath (c ∷ s) = c ≡ b'/'

before_slash-name :
    (name rest : Bytes)
    → all_name_chars name ≡ true
    → Subpath rest
    → before_slash (name ++ rest) ≡ name
unfolding before_slash all_name_chars
before_slash-name [] [] e p = refl
before_slash-name [] (c ∷ rest) e p = rw p refl
before_slash-name (c ∷ name) rest e p = ground (arith, before_slash-name name rest)

matches_name-chars : (name : Bytes) → matches_name name ≡ true → all_name_chars name ≡ true
unfolding matches_name all_name_chars
matches_name-chars [] e = refl
matches_name-chars (c ∷ name) e = ground arith

-- A request to /mcp/<name>, or below it, is routed by that name, if the name has the form that the
-- configuration demands.
pub name_of-path :
    (r : Request) (name rest : Bytes)
    → matches_name name ≡ true
    → Subpath rest
    → r.path ≡ mcp_prefix ++ (name ++ rest)
    → name_of r ≡ name
unfolding name_of trim_prefix
name_of-path r name rest e p path =
    rw path (before_slash-name name rest (matches_name-chars name e) p)
