-- ===== src/Rpc/Summary.antt =====
-- What the summary of gateway/jsonrpc.go says of a body: each list holds what the messages show, in
-- their order, and no more tool names are listed than tools/call messages are counted.
use mcp_gateway_lite.Base.{
  ℕ, ◌+◌, ◌≤◌, Bool, false, not, ◌&&◌, Bytes, codes, refl, same, trim_space, List, [], ◌∷◌, ◌++◌,
  append_assoc, append-nil, Option, none, some, is_nil, length, length-append, ◌≡◌, refl, ◌∙◌,
  arith, ◌==◌, if◌then◌else◌,
}
use mcp_gateway_lite.Codec.{Codec, RpcProbe}
use mcp_gateway_lite.Rpc.{
  RpcSummary, empty_summary, is_present, null_literal, tools_list, tools_call, tool_of, append_tool,
  append_if, add_probe, add_probes, summarize_rpc, summarize_trimmed,
}

unfoldable pub prepend : Option Bytes → List Bytes → List Bytes
prepend none xs = xs
prepend (some x) xs = x ∷ xs

-- The values that the messages show, in order.
unfoldable pub collect : (RpcProbe → Option Bytes) → List RpcProbe → List Bytes
collect f [] = []
collect f (p ∷ ps) = prepend (f p) (collect f ps)

abbrev pub when : Bool → Bytes → Option Bytes
when b x = if b then some x else none

-- An id that is there and is not null.
abbrev pub given : Bytes → Bool
given [] = false
given (c ∷ raw) = not (same (c ∷ raw) (b'n' ∷ b'u' ∷ b'l' ∷ b'l' ∷ []))

is_present-given : (raw : Bytes) → is_present raw ≡ given raw
unfolding null_literal codes
is_present-given [] = refl
is_present-given (c ∷ raw) = refl

abbrev pub method_of : RpcProbe → Option Bytes
method_of p = when (not (is_nil p.method)) p.method

abbrev pub id_of : RpcProbe → Option Bytes
id_of p = when (given p.id) p.id

abbrev pub list_id_of : RpcProbe → Option Bytes
list_id_of p = when (same p.method tools_list && given p.id) p.id

abbrev pub call_id_of : RpcProbe → Option Bytes
call_id_of p = when (same p.method tools_call && given p.id) p.id

abbrev pub called : Codec → RpcProbe → Option Bytes
called codec p = if same p.method tools_call then tool_of codec p.params else none

unfoldable pub calls : List RpcProbe → ℕ
calls [] = 0
calls (p ∷ ps) = (if same p.method tools_call then 1 else 0) + calls ps

-- What a summary holds after the messages `ps`, from a summary `s`.
pub record Collects (codec : Codec) (s : RpcSummary) (ps : List RpcProbe) (t : RpcSummary)
    : Type 0 where
  pub methods : t.methods ≡ s.methods ++ collect method_of ps
  pub ids : t.ids ≡ s.ids ++ collect id_of ps
  pub tools : t.tools ≡ s.tools ++ collect (called codec) ps
  pub tool_calls : t.tool_calls ≡ s.tool_calls + calls ps
  pub tools_list_ids : t.tools_list_ids ≡ s.tools_list_ids ++ collect list_id_of ps
  pub tools_call_ids : t.tools_call_ids ≡ s.tools_call_ids ++ collect call_id_of ps
  pub batch : t.batch ≡ s.batch
  pub invalid : t.invalid ≡ s.invalid

append_tool-prepend :
    (o : Option Bytes) (xs ys : List Bytes) → append_tool xs o ++ ys ≡ xs ++ prepend o ys
unfolding append_tool prepend
append_tool-prepend none xs ys = refl
append_tool-prepend (some x) xs ys = append_assoc xs (x ∷ []) ys

collect_step :
    (f : RpcProbe → Option Bytes) (p : RpcProbe) (ps : List RpcProbe) (xs : List Bytes)
    → append_tool xs (f p) ++ collect f ps ≡ xs ++ collect f (p ∷ ps)
unfolding collect
collect_step f p ps xs = append_tool-prepend (f p) xs (collect f ps)

append_if-append_tool :
    (b : Bool) (xs : List Bytes) (x : Bytes) → append_if b xs x ≡ append_tool xs (when b x)
unfolding append_tool
append_if-append_tool b xs x = ground arith

module _ (codec : Codec) where
  tools_step :
      (s : RpcSummary) (p : RpcProbe)
      → (add_probe codec s p).tools ≡ append_tool s.tools (called codec p)
  unfolding add_probe
  tools_step s p = ground arith

  calls_step :
      (s : RpcSummary) (p : RpcProbe) (ps : List RpcProbe)
      → (add_probe codec s p).tool_calls + calls ps ≡ s.tool_calls + calls (p ∷ ps)
  unfolding add_probe calls
  calls_step s p ps = ground arith

  -- Each list of the summary gains what the messages show, in their order.
  pub add_probes-Collects :
      (ps : List RpcProbe) (s : RpcSummary) → Collects codec s ps (add_probes codec s ps)
  unfolding add_probes
  add_probes-Collects [] s =
      unfold collect calls in
      record {
        methods = rw append-nil;
        ids = rw append-nil;
        tools = rw append-nil;
        tool_calls = omega arith;
        tools_list_ids = rw append-nil;
        tools_call_ids = rw append-nil;
        batch = refl;
        invalid = refl;
      }
  add_probes-Collects (p ∷ ps) s =
      let rest = add_probes-Collects ps (add_probe codec s p) in
      let step = λ (f : RpcProbe → Option Bytes) (xs : List Bytes). collect_step f p ps xs in
      record {
        methods = rest.methods ∙ rw (append_if-append_tool, add_probe) (step method_of s.methods);
        ids = rest.ids ∙ rw (is_present-given, append_if-append_tool) (step id_of s.ids);
        tools = rest.tools ∙ rw tools_step (step (called codec) s.tools);
        tool_calls = rest.tool_calls ∙ calls_step s p ps;
        tools_list_ids =
            rest.tools_list_ids
            ∙ rw (is_present-given, append_if-append_tool) (step list_id_of s.tools_list_ids);
        tools_call_ids =
            rest.tools_call_ids
            ∙ rw (is_present-given, append_if-append_tool) (step call_id_of s.tools_call_ids);
        batch = rest.batch;
        invalid = rest.invalid;
      }

length-collect-called :
    (codec : Codec) (ps : List RpcProbe) → length (collect (called codec) ps) ≤ calls ps
unfolding collect calls prepend
length-collect-called codec [] = omega arith
length-collect-called codec (p ∷ ps) = ground (arith, length-collect-called codec ps)

add_probes-tools-le :
    (codec : Codec) (ps : List RpcProbe) (s : RpcSummary)
    → length s.tools ≤ s.tool_calls
    → length (add_probes codec s ps).tools ≤ (add_probes codec s ps).tool_calls
add_probes-tools-le codec ps s h =
    let c = add_probes-Collects codec ps s in
    rw (c.tools, c.tool_calls)
      (omega
        (arith, length-append s.tools (collect (called codec) ps), length-collect-called codec ps))

-- The messages that a trimmed body decodes to; none if the body is refused or empty.
unfoldable pub messages : Codec → Bytes → List RpcProbe
messages codec [] = []
messages codec (c ∷ s) =
    if c == b'{'
    then elim (codec.decode_request (c ∷ s)) [ none ↦ [] | some p ↦ p ∷ [] ]
    else if c == b'['
    then elim (codec.decode_batch (c ∷ s)) [ none ↦ [] | some ps ↦ ps ]
    else []

-- Whether a trimmed body is a batch with messages, and whether it is refused.
unfoldable pub is_batch : Codec → Bytes → Bool
unfolding messages
is_batch codec [] = false
is_batch codec (c ∷ s) = c == b'[' && not (is_nil (messages codec (c ∷ s)))

unfoldable pub is_refused : Codec → Bytes → Bool
unfolding messages
is_refused codec body = not (is_nil body) && is_nil (messages codec body)

abbrev pub flagged : Bool → Bool → RpcSummary
flagged batch invalid = record empty_summary { batch = batch; invalid = invalid }

summarize_trimmed-add_probes :
    (codec : Codec) (body : Bytes)
    → summarize_trimmed codec body
      ≡ add_probes codec
          (flagged (is_batch codec body) (is_refused codec body))
          (messages codec body)
unfolding summarize_trimmed is_batch is_refused
summarize_trimmed-add_probes codec [] = refl
summarize_trimmed-add_probes codec (c ∷ s) = ground arith

-- The summary of a body holds exactly what its messages show: the methods, the ids that are not
-- null, the tool names of the tools/call messages, their number, and the ids of tools/list and
-- tools/call messages, each in the order of the messages. The body is marked as a batch if it is
-- an array with messages, and as invalid exactly if it is not blank and shows no message.
pub summarize_rpc-Collects :
    (codec : Codec) (body : Bytes)
    → Collects codec
        (flagged (is_batch codec (trim_space body)) (is_refused codec (trim_space body)))
        (messages codec (trim_space body))
        (summarize_rpc codec body)
unfolding summarize_rpc
summarize_rpc-Collects codec body =
    rw summarize_trimmed-add_probes (add_probes-Collects codec (messages codec (trim_space body)) _)

-- A summary never lists more tool names than it counts tools/call messages.
length-tools-le-tool_calls :
    (codec : Codec) (body : Bytes)
    → length (summarize_rpc codec body).tools ≤ (summarize_rpc codec body).tool_calls
unfolding summarize_rpc
length-tools-le-tool_calls codec body =
    rw summarize_trimmed-add_probes
      (add_probes-tools-le codec (messages codec (trim_space body)) _ (omega arith))
