-- ===== src/Lock/Prepare.antt =====
-- gateway/lock.go: reading a lockfile and resolving an upstream's entry in it. The file system and the
-- decoder are parameters: what reading a path and decoding a server record gives.
use mcp_gateway_lite.Base.{
  Bool, true, false, not, ◌&&◌, Bytes, codes, same, [], Option, none, some, is_nil, ◌==◌,
  if◌then◌else◌,
}
use mcp_gateway_lite.Base.Dict.{Dict, lookup, insert}
use mcp_gateway_lite.Base.Int.{ℤ, pos, negsuc}
use mcp_gateway_lite.Config.Types.{LockConfig, Upstream}
use mcp_gateway_lite.Lock.{PreparedLock}

-- The fields of a lockfile that are read; a missing table of servers is `none`.
pub record LockFile : Type 0 where
  pub lockfile_version : ℤ
  pub servers : Option (Dict Bytes)

-- The fields of a server record that are read.
pub record LockServer : Type 0 where
  pub tools_hash : Option Bytes
  pub tools_detail : Dict Bytes

pub data LockError : Type 0 where
  unreadable : Bytes → LockError
  undecodable : Bytes → LockError
  no_servers : Bytes → LockError
  unsupported_version : Bytes → ℤ → LockError
  no_server : Bytes → Bytes → LockError
  bad_server : Bytes → Bytes → LockError
  no_capture : Bytes → Bytes → LockError

-- A lock and the files read so far, or an error.
pub data Prepared (A : Type 0) : Type 0 where
  prepared : A → Dict LockFile → Prepared A
  lock_failed : LockError → Prepared A

-- os.ReadFile and json.Unmarshal of a path: no file, no lockfile, or a lockfile.
pub data ReadResult : Type 0 where
  missing : ReadResult
  garbled : ReadResult
  decoded : LockFile → ReadResult

abbrev is_version : ℤ → Bool
is_version (pos n) = n == 1
is_version (negsuc n) = false

abbrev checked_file : Bytes → LockFile → Option LockError
checked_file path lf = elim lf.servers [
  | none ↦ some (no_servers path)
  | some m ↦
      if is_version lf.lockfile_version
      then none
      else some (unsupported_version path lf.lockfile_version)
]

abbrev or_else : Bytes → Bytes → Bytes
or_else s d = if is_nil s then d else s

abbrev is_missing : Option Bytes → Bool
is_missing none = true
is_missing (some h) = false

abbrev text_or_empty : Option Bytes → Bytes
text_or_empty none = []
text_or_empty (some h) = h

module _ (read : Bytes → ReadResult) (decode_server : Bytes → Option LockServer) where
  abbrev keep_file : Bytes → Dict LockFile → LockFile → Option LockError → Prepared LockFile
  keep_file path cache lf none = prepared lf (insert path lf cache)
  keep_file path cache lf (some e) = lock_failed e

  abbrev loaded : Bytes → Dict LockFile → ReadResult → Prepared LockFile
  loaded path cache missing = lock_failed (unreadable path)
  loaded path cache garbled = lock_failed (undecodable path)
  loaded path cache (decoded lf) = keep_file path cache lf (checked_file path lf)

  -- loadLockFile behind the cache.
  unfoldable pub cached_lock_file : Bytes → Dict LockFile → Prepared LockFile
  cached_lock_file path cache = elim (lookup path cache) [
    | some lf ↦ prepared lf cache
    | none ↦ loaded path cache (read path)
  ]

  unfoldable pub enforcing : LockConfig → Bool
  unfolding codes same
  enforcing lc = not (same lc.mode (codes "warn"))

  abbrev pub lock_of : LockConfig → Bytes → LockServer → PreparedLock
  lock_of lc server rec = record {
    file = lc.file;
    server = server;
    enforce = enforcing lc;
    whole_hash = text_or_empty rec.tools_hash;
    detail = rec.tools_detail;
  }

  abbrev server_lock :
      LockConfig → Bytes → Dict LockFile → Option LockServer → Prepared (Option PreparedLock)
  server_lock lc server cache none = lock_failed (bad_server lc.file server)
  server_lock lc server cache (some rec) =
      if is_missing rec.tools_hash && is_nil rec.tools_detail
      then lock_failed (no_capture lc.file server)
      else prepared (some (lock_of lc server rec)) cache

  abbrev raw_lock :
      LockConfig → Bytes → Dict LockFile → Option Bytes → Prepared (Option PreparedLock)
  raw_lock lc server cache none = lock_failed (no_server lc.file server)
  raw_lock lc server cache (some raw) = server_lock lc server cache (decode_server raw)

  abbrev file_lock : LockConfig → Bytes → Prepared LockFile → Prepared (Option PreparedLock)
  file_lock lc server (lock_failed e) = lock_failed e
  file_lock lc server (prepared lf cache) =
      raw_lock lc server cache (elim lf.servers [ none ↦ none | some m ↦ lookup server m ])

  unfoldable pub prepare_lock :
      {F : Type 0} → Upstream F → Dict LockFile → Prepared (Option PreparedLock)
  unfolding cached_lock_file enforcing
  prepare_lock u cache = elim u.tools_lock [
    | none ↦ prepared none cache
    | some lc ↦ file_lock lc (or_else lc.server u.name) (cached_lock_file lc.file cache)
  ]
