-- ===== src/Tests/LockRuns.antt =====
-- A run of LockInit on one upstream with one tool, and the lock that its file gives.
use mcp_gateway_lite.Base.{
  ℕ, zero, suc, codes, same, Bytes, false, [], ◌∷◌, ◌++◌, Option, none, some, length, ◌≡◌, refl,
  inl, subst, arith, ap,
}
use mcp_gateway_lite.Base.Dict.{Dict, lookup, insert}
use mcp_gateway_lite.Base.Int.{pos}
use mcp_gateway_lite.Canonical.{canonical, sort_by_key, sentinel_hash, decode_use_number}
use mcp_gateway_lite.Config.Types.{LockConfig, Config}
use mcp_gateway_lite.Lock.{
  PreparedLock, parse_lock_tools, parse_lock_tool, tool_fingerprint, tool_schema,
  fingerprint_object, tools_list_hash, fingerprints, values_of, verify,
}
use mcp_gateway_lite.Lock.Prepare.{LockFile, LockServer, missing, decoded, prepared, prepare_lock}
use mcp_gateway_lite.Lock.Capture.{capture, add_details}
use mcp_gateway_lite.Lock.Client.{
  ReplyCodec, replied, first_bytes, read_reply, do_rpc, fetch_all_tools,
}
use mcp_gateway_lite.Lock.Init.{
  ServerRecord, Outcome, done, InitWorld, fetch_record, lock_upstreams, servers_of, existing_file,
  write_servers, write_lock_file, lock_init,
}
use mcp_gateway_lite.Lock.Merged.{SameReading, lock_init-keeps, lock_init-verifies}
use mcp_gateway_lite.Tests.Toy.{toy, upstream_u, one_upstream, parse_any}

drop : ℕ → Bytes → Bytes
drop zero s = s
drop (suc n) [] = []
drop (suc n) (c ∷ s) = drop n s

first_bytes-append : (a b : Bytes) → first_bytes (length a) (a ++ b) ≡ a
unfolding first_bytes
first_bytes-append [] b = refl
first_bytes-append (x ∷ a) b = ap (λ (s : Bytes). x ∷ s) (first_bytes-append a b)

drop-append : (a b : Bytes) → drop (length a) (a ++ b) ≡ b
unfolding drop
drop-append [] b = refl
drop-append (x ∷ a) b = drop-append a b

-- A record with a hash and one tool: the lengths of the hash and the name, then the three texts.
abbrev encode_one : Option Bytes → Dict Bytes → Option Bytes
encode_one (some whole) ((k, h) ∷ []) = some (length whole ∷ length k ∷ (whole ++ (k ++ h)))
encode_one _ _ = none

pub decode_one : Bytes → Option LockServer
unfolding first_bytes drop
decode_one (m ∷ n ∷ s) = some (record {
  tools_hash = some (first_bytes m s);
  tools_detail = (first_bytes n (drop m s), drop n (drop m s)) ∷ [];
})
decode_one s = none

some-bytes : {x y : Bytes} → some x ≡ some y → x ≡ y
some-bytes e = cc e

round_one :
    (whole : Option Bytes) (detail : Dict Bytes) (raw : Bytes)
    → encode_one whole detail ≡ some raw
    → decode_one raw ≡ some (record { tools_hash = whole; tools_detail = detail })
unfolding decode_one
round_one none detail raw e = absurd (ground (arith, e))
round_one (some whole) [] raw e = absurd (ground (arith, e))
round_one (some whole) ((k, h) ∷ []) raw e =
    subst
      (λ (r : Bytes).
        decode_one r ≡ some (record { tools_hash = some whole; tools_detail = (k, h) ∷ [] }))
      (some-bytes e)
      (rw
        (
          decode_one,
          first_bytes-append whole (k ++ h),
          drop-append whole (k ++ h),
          first_bytes-append k h,
          drop-append k h,
        )
        refl)
round_one (some whole) ((k, h) ∷ d ∷ detail) raw e = absurd (ground (arith, e))

abbrev always_ok : ReplyCodec
always_ok = record {
  decode_reply = λ s. some (record { result = b'r' ∷ []; error = [] });
  decode_page = λ s. some (record { tools = some ((6 ∷ []) ∷ []); next_cursor = [] });
}

abbrev pub one_tool_world : InitWorld
one_tool_world = record {
  codec = toy;
  replies = always_ok;
  client =
      λ p. replied (record { status = 200; content_type = []; session_id = []; body = b'b' ∷ [] });
  encode_server = λ r. encode_one r.tools_hash r.tools_detail;
  stat = λ path. false;
  read = λ path. missing;
  decode_server = decode_one;
  marshal_indent = λ by lf. some [];
  write_file = λ path text. none;
}

abbrev lock_u : LockConfig
lock_u = record { file = b'l' ∷ []; server = []; mode = [] }

abbrev locked_config : Config ℕ
locked_config = record one_upstream {
  upstreams = record upstream_u { tools_lock = some lock_u } ∷ [];
}

abbrev outcome_file : Outcome LockFile → LockFile
outcome_file (done lf) = lf
outcome_file o = record { lockfile_version = pos 0; servers = none }

abbrev written_file : LockFile
written_file =
    outcome_file (lock_init one_tool_world (λ n. false) parse_any locked_config lock_u.file).outcome

run_is_done :
    (lock_init one_tool_world (λ n. false) parse_any locked_config lock_u.file).outcome
    ≡ done written_file
unfolding lock_init write_lock_file write_servers existing_file lock_upstreams fetch_record
    fetch_all_tools capture parse_lock_tools parse_lock_tool tool_fingerprint tool_schema
    fingerprint_object tools_list_hash fingerprints values_of add_details canonical sort_by_key
    sentinel_hash decode_use_number codes same lookup insert
run_is_done = refl

lock_init-keeps_example :
    (old : LockFile) × (existing_file one_tool_world lock_u.file ≡ done old)
    × (lookup (b'o' ∷ []) (servers_of one_tool_world written_file)
        ≡ lookup (b'o' ∷ []) (servers_of one_tool_world old))
    × (written_file.lockfile_version ≡ pos 1)
lock_init-keeps_example =
    lock_init-keeps one_tool_world (λ n. false) parse_any locked_config lock_u.file written_file
      run_is_done (b'o' ∷ []) ((λ e. absurd (ground (arith, e))), tt)

abbrev written_servers : Dict Bytes
written_servers = servers_of one_tool_world written_file

reread_one :
    (r : ServerRecord) (raw : Bytes)
    → encode_one r.tools_hash r.tools_detail ≡ some raw
    → SameReading r (decode_one raw)
reread_one r raw e = rw (round_one r.tools_hash r.tools_detail raw e) (refl, λ k. refl)

lock_init-verifies_example :
    (l : PreparedLock) × (cache : Dict LockFile) × (prepare_lock
        (λ path. decoded written_file)
        decode_one
        (record upstream_u { tools_lock = some lock_u })
        []
      ≡ prepared (some l) cache)
    × (verify toy l ((6 ∷ []) ∷ (6 ∷ []) ∷ []) ≡ [])
unfolding fetch_all_tools do_rpc read_reply first_bytes lock_init lookup
lock_init-verifies_example =
    lock_init-verifies one_tool_world (λ n. false) parse_any locked_config lock_u.file written_file
      (record upstream_u { tools_lock = some lock_u }) lock_u (λ path. decoded written_file)
      ((6 ∷ []) ∷ []) ((6 ∷ []) ∷ (6 ∷ []) ∷ []) written_file written_servers
      (λ f raw s e. reread_one f.rec raw e) run_is_done (inl refl) refl refl refl refl refl
      (λ k raw e. (raw, e, refl)) refl refl (inl refl, (inl refl, tt))
