-- ===== src/Rewrite/Guarded/Replies.antt =====
-- What reaches the client of a strict request where the response is a JSON body, by modifyResponse and
-- processJSONBody of gateway/responsefilter.go.
use mcp_gateway_lite.Base.{Bytes, trim_space, Option, none, some, ◌≡◌, ◌⊎◌}
use mcp_gateway_lite.Codec.{Codec}
use mcp_gateway_lite.Rewrite.{RewriteState}
use mcp_gateway_lite.Rewrite.Body.{Response, body_of, unchanged, changed}
use mcp_gateway_lite.Rewrite.Refusal.{Forbidden}
use mcp_gateway_lite.Rewrite.Guarded.Bodies.{BodySent}

-- The bytes that a client gets of the body: those of the upstream, or others in their place.
abbrev pub Shown : Codec → RewriteState → Response → Bytes → Type 0
Shown codec st resp out =
    ((out ≡ body_of resp) × BodySent codec st (trim_space (body_of resp)) unchanged)
    ⊎ BodySent codec st (trim_space (body_of resp)) (changed out)

-- Where the response is an error of ModifyResponse, the client gets nothing of it.
abbrev pub Delivered : Codec → RewriteState → Response → Option Response → Type 0
Delivered codec st resp none = Unit
Delivered codec st resp (some r) =
    Forbidden codec (some r) ⊎ ((r.status_code ≡ 200) × Shown codec st resp (body_of r))
