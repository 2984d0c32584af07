-- ===== src/Lock/Init.antt =====
-- gateway/lockinit.go: LockInit, and emptyEntryHash of gateway/lock.go. The file system, the network and
-- the encoder of server records are parameters.
use mcp_gateway_lite.Base.{
  Bool, true, false, Bytes, codes, List, [], ◌∷◌, ◌++◌, Option, none, some, length,
}
use mcp_gateway_lite.Base.Dict.{Dict, insert}
use mcp_gateway_lite.Base.Int.{pos, itoa}
use mcp_gateway_lite.Codec.{Codec, Value, string, array, object, nil, end, field}
use mcp_gateway_lite.Canonical.{canonical, sentinel_hash}
use mcp_gateway_lite.Config.Types.{Upstream, Config}
use mcp_gateway_lite.Config.{ConfigError, ParsedUrl, validate}
use mcp_gateway_lite.Lock.{Checked, ok, err}
use mcp_gateway_lite.Lock.Prepare.{
  LockFile, LockServer, LockError, Prepared, prepared, lock_failed, ReadResult, cached_lock_file,
}
use mcp_gateway_lite.Lock.Capture.{capture}
use mcp_gateway_lite.Lock.Client.{ReplyCodec, Post, HttpResult, fetch_all_tools}

-- A server record as LockInit writes it.
pub record ServerRecord : Type 0 where
  pub command : Bytes
  pub args : List Bytes
  pub env_keys : List Bytes
  pub entry_hash : Bytes
  pub tools_hash : Option Bytes
  pub url : Bytes
  pub tools_detail : Dict Bytes

-- The fields of a record that prepareLock reads.
abbrev pub reading : ServerRecord → LockServer
reading r = record { tools_hash = r.tools_hash; tools_detail = r.tools_detail }

empty_entry : Value
unfolding codes
empty_entry = object (
    field (codes "command") (string [])
      (field (codes "args") (array nil) (field (codes "envKeys") (array nil) end)))

unfoldable pub empty_entry_hash : Codec → Bytes
unfolding canonical sentinel_hash empty_entry
empty_entry_hash codec = elim (canonical empty_entry) [
  | none ↦ []
  | some text ↦ sentinel_hash codec text
]

pub data InitError : Type 0 where
  bad_config : ConfigError → InitError
  unrecognized_lockfile : LockError → InitError
  upstream_error : Bytes → Bytes → InitError
  not_encoded : InitError
  not_written : Bytes → InitError

pub data Outcome (A : Type 0) : Type 0 where
  done : A → Outcome A
  init_failed : InitError → Outcome A

-- What a run has printed, and how it ends.
pub record InitRun (A : Type 0) : Type 0 where
  pub out : Bytes
  pub outcome : Outcome A

-- The network, the file system and the encoders. `marshal_indent` is json.MarshalIndent of a lockfile with
-- the name of its generator: it lays out the raw records anew. The errors of `write_file` are those of
-- os.WriteFile.
pub record InitWorld : Type 0 where
  pub codec : Codec
  pub replies : ReplyCodec
  pub client : Post → HttpResult
  pub encode_server : ServerRecord → Option Bytes
  pub stat : Bytes → Bool
  pub read : Bytes → ReadResult
  pub decode_server : Bytes → Option LockServer
  pub marshal_indent : Bytes → LockFile → Option Bytes
  pub write_file : Bytes → Bytes → Option Bytes

-- The tools of an upstream with its record.
pub record Fetched : Type 0 where
  pub elems : List Bytes
  pub rec : ServerRecord

abbrev pub recognized : Prepared LockFile → Outcome LockFile
recognized (prepared lf cache) = done lf
recognized (lock_failed e) = init_failed (unrecognized_lockfile e)

module _ (w : InitWorld) where
  abbrev pub record_of : Bytes → List Bytes → Checked LockServer → Checked Fetched
  record_of url elems (err e) = err e
  record_of url elems (ok lock) = ok (record {
    elems = elems;
    rec = record {
      command = [];
      args = [];
      env_keys = [];
      entry_hash = empty_entry_hash w.codec;
      tools_hash = lock.tools_hash;
      url = url;
      tools_detail = lock.tools_detail;
    };
  })

  abbrev pub captured : Bytes → Checked (List Bytes) → Checked Fetched
  captured url (err e) = err e
  captured url (ok elems) = record_of url elems (capture w.codec elems)

  -- The body of the loop of LockInit, up to the record.
  unfoldable pub fetch_record : Bytes → Checked Fetched
  unfolding capture fetch_all_tools empty_entry_hash
  fetch_record url = captured url (fetch_all_tools w.codec w.replies w.client url)

  abbrev hash_or_empty : Option Bytes → Bytes
  hash_or_empty none = []
  hash_or_empty (some h) = h

  unfoldable pub locked_line : Bytes → Fetched → Bytes
  unfolding codes itoa
  locked_line name f =
      codes "locked "
      ++ (name
          ++ (codes ": "
              ++ (itoa (pos (length f.elems))
                  ++ (codes " tools (" ++ (hash_or_empty f.rec.tools_hash ++ codes ")\n")))))

  abbrev failed_at : {A : Type 0} → Bytes → InitError → InitRun A
  failed_at out e = record { out = out; outcome = init_failed e }

  -- The end of a round: the record under the upstream's name. `next` is the rest of the loop.
  abbrev pub add_server :
      Bytes
      → Dict Bytes
      → Bytes
      → (Dict Bytes → Bytes → InitRun (Dict Bytes))
      → Checked Fetched
      → InitRun (Dict Bytes)
  add_server name servers out next (err e) = failed_at out (upstream_error name e)
  add_server name servers out next (ok f) = elim (w.encode_server f.rec) [
    | none ↦ failed_at out not_encoded
    | some raw ↦ next (insert name raw servers) (out ++ locked_line name f)
  ]

  -- The loop of LockInit over the upstreams.
  unfoldable pub lock_upstreams :
      {F : Type 0} → List (Upstream F) → Dict Bytes → Bytes → InitRun (Dict Bytes)
  unfolding fetch_record locked_line insert
  lock_upstreams [] servers out = record { out = out; outcome = done servers }
  lock_upstreams (u ∷ us) servers out =
      add_server u.name servers out (lock_upstreams us) (fetch_record u.url)

  abbrev pub servers_of : LockFile → Dict Bytes
  servers_of lf = elim lf.servers [ none ↦ [] | some m ↦ m ]

  -- The lockfile that LockInit merges into.
  unfoldable pub existing_file : Bytes → Outcome LockFile
  unfolding cached_lock_file
  existing_file path = elim (w.stat path) [
    | true ↦ recognized (cached_lock_file w.read w.decode_server path [])
    | false ↦ done (record { lockfile_version = pos 1; servers = some [] })
  ]

  unfoldable pub generated_by : Bytes
  unfolding codes
  generated_by = codes "mcp-gateway-lite 0.5.0"

  -- writeLockFile
  unfoldable pub write_lock_file : LockFile → Bytes → Option InitError
  unfolding generated_by
  write_lock_file lf path = elim (w.marshal_indent generated_by lf) [
    | none ↦ some not_encoded
    | some text ↦ elim (w.write_file path (text ++ b'\n' ∷ [])) [
      | some e ↦ some (not_written e)
      | none ↦ none
    ]
  ]

  -- The end of LockInit; a run that ends well shows the lockfile that writeLockFile is given.
  unfoldable pub write_servers : Bytes → LockFile → InitRun (Dict Bytes) → InitRun LockFile
  unfolding codes write_lock_file
  write_servers path lf run = elim run.outcome [
    | init_failed e ↦ failed_at run.out e
    | done servers ↦
        let merged : LockFile = record lf { servers = some servers } in
        elim (write_lock_file merged path) [
          | some e ↦ failed_at run.out e
          | none ↦ record {
            out = run.out ++ (codes "wrote " ++ (path ++ codes "\n"));
            outcome = done merged;
          }
        ]
  ]

  module _ {F : Type 0} (not_positive : F → Bool) (parse : Bytes → Option ParsedUrl) where
    -- LockInit, with the lockfile that it writes
    unfoldable pub lock_init : Config F → Bytes → InitRun LockFile
    unfolding validate existing_file lock_upstreams write_servers
    lock_init c path = elim (validate not_positive parse c).0 [
      | some e ↦ failed_at [] (bad_config e)
      | none ↦ elim (existing_file path) [
        | init_failed e ↦ failed_at [] e
        | done lf ↦
            write_servers path lf
              (lock_upstreams (validate not_positive parse c).1.upstreams (servers_of lf) [])
      ]
    ]
