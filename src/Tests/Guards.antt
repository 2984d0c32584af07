-- ===== src/Tests/Guards.antt =====
-- Event streams that answer strict requests.
use mcp_gateway_lite.Base.{
  arith, trim_last, true, false, Bytes, codes, has_prefix, List, concat, [], ◌∷◌, ◌++◌, some, ◌≡◌,
  refl,
}
use mcp_gateway_lite.Rewrite.{RewriteState}
use mcp_gateway_lite.Rewrite.Body.{Response, modify_with, json_type, event_stream_type}
use mcp_gateway_lite.Rewrite.Guarded.Streams.{EachGuarded, modify_with-Guarded}
use mcp_gateway_lite.Sse.{split_newline, trim_eol}
use mcp_gateway_lite.Sse.Events.{SseEvent, WithinCap}
use mcp_gateway_lite.Tests.Toy.{toy, list_answer, blank, only_a, json_response}

-- A request that only sees the tool a.
abbrev filtering : RewriteState
filtering = record blank { policy = some only_a; strict = true }

-- An answer to its tools/list request.
abbrev listing : SseEvent
listing = record {
  lines = (b'd' ∷ b'a' ∷ b't' ∷ b'a' ∷ b':' ∷ list_answer ++ 10 ∷ []) ∷ [];
  blank = 10 ∷ [];
}

listing-WithinCap : WithinCap listing
unfolding split_newline trim_eol trim_last concat
listing-WithinCap = record { texts = ((refl, refl), tt); ended = (refl, refl); fits = omega arith }

abbrev first_chunk : Bytes
first_chunk = b'd' ∷ b'a' ∷ []

abbrev second_chunk : Bytes
second_chunk = b't' ∷ b'a' ∷ b':' ∷ list_answer ++ 10 ∷ 10 ∷ []

abbrev event_stream : Response
event_stream = record (json_response list_answer) {
  content_type = event_stream_type;
  chunks = first_chunk ∷ second_chunk ∷ [];
}

is_no_json : has_prefix json_type event_stream.content_type ≡ false
unfolding event_stream_type json_type codes has_prefix
is_no_json = refl

is_event_stream : has_prefix event_stream_type event_stream.content_type ≡ true
unfolding event_stream_type codes has_prefix
is_event_stream = refl

modify_with-Guarded_example :
    (r : Response) × (outs : List Bytes) × ((modify_with toy filtering event_stream).0 ≡ some r)
    × (r.chunks ≡ concat outs ∷ [])
    × EachGuarded toy filtering (listing ∷ []) outs
unfolding concat
modify_with-Guarded_example =
    modify_with-Guarded toy filtering event_stream (listing ∷ []) first_chunk (second_chunk ∷ [])
      refl refl is_no_json is_event_stream refl (listing-WithinCap, tt) (refl, tt) refl
