-- ===== src/Lock/Client.antt =====
-- gateway/lockinit.go: the RPC client of LockInit: doRPC with its search of a stream, and fetchAllTools.
-- The HTTP client is a parameter: what a POST meets. notifyInitialized is left out, since its outcome is
-- ignored. The two shapes that the client decodes are an interface.
use mcp_gateway_lite.Base.{
  ℕ, zero, suc, ◌+◌, Bool, true, false, not, ◌&&◌, ◌||◌, Bytes, codes, same, has_prefix,
  strip_prefix, trim_prefix, List, [], ◌∷◌, ◌++◌, Option, none, some, is_nil, if◌then◌else◌, length,
  leb, ltb, ◌==◌,
}
use mcp_gateway_lite.Base.Dict.{Dict}
use mcp_gateway_lite.Base.Int.{pos, itoa}
use mcp_gateway_lite.Codec.{Codec}
use mcp_gateway_lite.Lock.{Checked, ok, err}
use mcp_gateway_lite.Sse.{max_rpc_peek}

-- The fields of a JSON-RPC reply, raw: a missing one is empty.
pub record RpcReply : Type 0 where
  pub result : Bytes
  pub error : Bytes

-- The tools, if there is an array of them, and the next cursor.
pub record ListPage : Type 0 where
  pub tools : Option (List Bytes)
  pub next_cursor : Bytes

pub record ReplyCodec : Type 0 where
  pub decode_reply : Bytes → Option RpcReply
  pub decode_page : Bytes → Option ListPage

pub record Post : Type 0 where
  pub url : Bytes
  pub headers : Dict Bytes
  pub body : Bytes

pub record HttpReply : Type 0 where
  pub status : ℕ
  pub content_type : Bytes
  pub session_id : Bytes
  pub body : Bytes

-- What a POST meets: an error of the client or of a read, or a reply.
pub data HttpResult : Type 0 where
  not_sent : Bytes → HttpResult
  unreadable : Bytes → HttpResult
  replied : HttpReply → HttpResult

-- The first `n` elements.
unfoldable pub first_bytes : ℕ → Bytes → Bytes
first_bytes zero s = []
first_bytes (suc n) [] = []
first_bytes (suc n) (c ∷ s) = c ∷ first_bytes n s

unfoldable pub truncate_for_error : Bytes → Bytes
unfolding codes first_bytes
truncate_for_error b = if leb (length b) 200 then b else first_bytes 200 b ++ codes "..."

-- bytes.ReplaceAll of CR LF by LF
unfoldable pub replace_crlf : Bytes → Bytes
replace_crlf [] = []
replace_crlf (c ∷ []) = c ∷ []
replace_crlf (c ∷ d ∷ s) = elim (c == 13 && d == 10) [
  | true ↦ 10 ∷ replace_crlf s
  | false ↦ c ∷ replace_crlf (d ∷ s)
]

abbrev push : ℕ → List Bytes → List Bytes
push c [] = (c ∷ []) ∷ []
push c (x ∷ xs) = (c ∷ x) ∷ xs

-- bytes.Split at LF
unfoldable pub split_lines : Bytes → List Bytes
split_lines [] = [] ∷ []
split_lines (c ∷ s) = let rest = split_lines s in if c == 10 then [] ∷ rest else push c rest

-- bytes.Split at two LFs
unfoldable pub split_events : Bytes → List Bytes
split_events [] = [] ∷ []
split_events (c ∷ []) = (c ∷ []) ∷ []
split_events (c ∷ d ∷ s) = elim (c == 10 && d == 10) [
  | true ↦ [] ∷ split_events s
  | false ↦ push c (split_events (d ∷ s))
]

abbrev add_data : Bytes → Bytes → Bytes
add_data payload v = (if is_nil payload then [] else payload ++ 10 ∷ []) ++ v

-- The data of an event, from its lines.
unfoldable pub event_payload : Bytes → List Bytes → Bytes
unfolding codes strip_prefix trim_prefix
event_payload payload [] = payload
event_payload payload (line ∷ lines) = elim (strip_prefix (codes "data:") line) [
  | none ↦ event_payload payload lines
  | some v ↦ event_payload (add_data payload (trim_prefix (32 ∷ []) v)) lines
]

-- Whether a text decodes with a result or an error.
unfoldable pub is_rpc_reply : ReplyCodec → Bytes → Bool
is_rpc_reply replies payload = elim (replies.decode_reply payload) [
  | none ↦ false
  | some r ↦ not (is_nil r.result) || not (is_nil r.error)
]

unfoldable pub first_reply : ReplyCodec → List Bytes → Option Bytes
unfolding event_payload split_lines is_rpc_reply
first_reply replies [] = none
first_reply replies (event ∷ events) =
    let payload = event_payload [] (split_lines event) in
    let rest = first_reply replies events in
    if not (is_nil payload) && is_rpc_reply replies payload then some payload else rest

unfoldable pub first_sse_response : ReplyCodec → Bytes → Option Bytes
unfolding first_reply split_events replace_crlf
first_sse_response replies s = first_reply replies (split_events (replace_crlf s))

-- What doRPC returns: the result, and the session of the header.
pub record RpcResult : Type 0 where
  pub result : Bytes
  pub session : Bytes

-- Two literals of the program.
unfoldable pub lock_protocol_version : Bytes
unfolding codes
lock_protocol_version = codes "2025-06-18"

unfoldable pub no_params : Bytes
unfolding codes
no_params = codes "{}"

-- What an error says of a method.
unfoldable pub method_error : Bytes → Bytes → Bytes
unfolding codes
method_error method text = method ++ (codes ": " ++ text)

-- The checks of a decoded reply.
unfoldable pub reply_result : Bytes → Bytes → RpcReply → Checked RpcResult
unfolding codes same method_error truncate_for_error
reply_result method session r =
    if not (is_nil r.error) && not (same r.error (codes "null"))
    then err (method_error method (codes "JSON-RPC error: " ++ truncate_for_error r.error))
    else if is_nil r.result
    then err (method_error method (codes "response has no result"))
    else ok (record { result = r.result; session = session })

module _ (codec : Codec) (replies : ReplyCodec) (client : Post → HttpResult) where
  unfoldable pub decode_payload : Bytes → Bytes → Bytes → Checked RpcResult
  unfolding codes method_error reply_result
  decode_payload method session payload = elim (replies.decode_reply payload) [
    | none ↦
        err (method_error method (codes "response not parseable: " ++ codec.error_text payload))
    | some r ↦ reply_result method session r
  ]

  -- The part of doRPC behind the reading of the body, of which at most max_rpc_peek bytes are read.
  unfoldable pub read_reply : Bytes → HttpReply → Checked RpcResult
  unfolding codes first_bytes has_prefix itoa method_error truncate_for_error first_sse_response
      decode_payload
  read_reply method r =
      let body = first_bytes max_rpc_peek r.body in
      if ltb r.status 200 || ltb 299 r.status
      then err (
          method_error method
            (codes "HTTP " ++ (itoa (pos r.status) ++ (codes ": " ++ truncate_for_error body))))
      else if has_prefix (codes "text/event-stream") r.content_type
      then elim (first_sse_response replies body) [
        | none ↦ err (method_error method (codes "no JSON-RPC response found in SSE stream"))
        | some payload ↦ decode_payload method r.session_id payload
      ]
      else decode_payload method r.session_id body

  abbrev from_client : Bytes → HttpResult → Checked RpcResult
  from_client method (not_sent e) = err e
  from_client method (unreadable e) = err e
  from_client method (replied r) = read_reply method r

  unfoldable pub rpc_headers : Bytes → Dict Bytes
  unfolding codes lock_protocol_version
  rpc_headers session =
      (codes "Content-Type", codes "application/json")
      ∷ (codes "Accept", codes "application/json, text/event-stream")
      ∷ (codes "MCP-Protocol-Version", lock_protocol_version)
      ∷ (if is_nil session then [] else (codes "Mcp-Session-Id", session) ∷ [])

  unfoldable pub rpc_message : Bytes → Bytes → ℕ → Dict Bytes
  unfolding codes itoa
  rpc_message method params id =
      (codes "jsonrpc", codec.encode_string (codes "2.0"))
      ∷ (codes "id", itoa (pos id))
      ∷ (codes "method", codec.encode_string method)
      ∷ (if is_nil params then [] else (codes "params", params) ∷ [])

  unfoldable pub do_rpc : Bytes → Bytes → Bytes → Bytes → ℕ → Checked RpcResult
  unfolding rpc_message rpc_headers read_reply
  do_rpc url session method params id = elim (codec.encode_object (rpc_message method params id)) [
    | none ↦ err (codec.error_text params)
    | some body ↦
        from_client method
          (client (record { url = url; headers = rpc_headers session; body = body }))
  ]

  abbrev with_text : Bytes → Checked RpcResult → Checked RpcResult
  with_text method (err e) = err (method_error method e)
  with_text method (ok r) = ok r

  abbrev page_of : Checked RpcResult → Checked ListPage
  page_of (err e) = err e
  page_of (ok r) = elim (replies.decode_page r.result) [
    | none ↦ err (codes "tools/list result: " ++ codec.error_text r.result)
    | some p ↦ ok p
  ]

  -- The page behind a cursor, by its number.
  unfoldable pub ask_page : Bytes → Bytes → ℕ → Bytes → Checked ListPage
  unfolding codes no_params do_rpc
  ask_page url session n cursor =
      let encoded = codec.encode_object ((codes "cursor", codec.encode_string cursor) ∷ []) in
      let ask : Bytes → Checked ListPage = λ params.
        page_of (
          with_text (codes "tools/list")
            (do_rpc url session (codes "tools/list") params (n + 2))) in
      if is_nil cursor
      then ask no_params
      else elim encoded [ none ↦ err (codec.error_text cursor) | some params ↦ ask params ]

  abbrev max_lock_pages : ℕ
  max_lock_pages = 100

  -- What a round of the loop does with a page; `next` is the rest of the loop.
  abbrev add_page :
      (Bytes → List Bytes → Checked (List Bytes))
      → List Bytes
      → Checked ListPage
      → Checked (List Bytes)
  add_page next all (err e) = err e
  add_page next all (ok p) = elim p.tools [
    | none ↦ err (codes "tools/list result has no tools array")
    | some tools ↦
        if is_nil p.next_cursor then ok (all ++ tools) else next p.next_cursor (all ++ tools)
  ]

  -- The loop of fetchAllTools, with the number of pages that it may still ask for.
  unfoldable pub fetch_pages :
      (ℕ → Bytes → Checked ListPage) → ℕ → ℕ → Bytes → List Bytes → Checked (List Bytes)
  unfolding codes
  fetch_pages ask zero n cursor all = err (codes "tools/list pagination exceeded the page limit")
  fetch_pages ask (suc left) n cursor all =
      add_page (fetch_pages ask left (suc n)) all (ask n cursor)

  abbrev after_initialize : Bytes → Checked RpcResult → Checked (List Bytes)
  after_initialize url (err e) = err e
  after_initialize url (ok r) = fetch_pages (ask_page url r.session) max_lock_pages 0 [] []

  unfoldable pub initialize_params : Bytes
  unfolding codes
  initialize_params =
      codes
        "{\"protocolVersion\":\"2025-06-18\",\"capabilities\":{},\"clientInfo\":{\"name\":\"mcp-gateway-lite\",\"version\":\"0.5.0\"}}"

  unfoldable pub fetch_all_tools : Bytes → Checked (List Bytes)
  unfolding codes initialize_params do_rpc fetch_pages ask_page
  fetch_all_tools url =
      after_initialize url
        (with_text (codes "initialize") (do_rpc url [] (codes "initialize") initialize_params 1))
