-- ===== src/Lock/Merged.antt =====
-- The lockfile that LockInit of gateway/lockinit.go writes, and what prepareLock and verify of
-- gateway/lock.go make of it.
use mcp_gateway_lite.Base.{
  Bool, false, Bytes, List, [], ◌∷◌, Option, none, some, is_nil, All, ◌≡◌, ◌≢◌, refl, sym, ap,
  subst, ◌∙◌, arith, and-false,
}
use mcp_gateway_lite.Base.Dict.{Dict, lookup, insert}
use mcp_gateway_lite.Base.Int.{pos}
use mcp_gateway_lite.Codec.{Codec}
use mcp_gateway_lite.Config.Types.{LockConfig, Upstream, Config}
use mcp_gateway_lite.Config.{ParsedUrl}
use mcp_gateway_lite.Config.Names.{validate-names}
use mcp_gateway_lite.Lock.{ok, PreparedLock, verify}
use mcp_gateway_lite.Lock.Prepare.{
  LockFile, LockServer, prepared, ReadResult, decoded, cached_lock_file, lock_of, prepare_lock,
}
use mcp_gateway_lite.Lock.Recorded.{
  Holds, Captured, capture-Captured, Member, All-Member, PageOf, page-Locked,
}
use mcp_gateway_lite.Lock.Verify.{Locked, verify-Locked}
use mcp_gateway_lite.Lock.Capture.{capture}
use mcp_gateway_lite.Lock.Client.{fetch_all_tools}
use mcp_gateway_lite.Lock.Init.{
  ServerRecord, done, InitWorld, Fetched, fetch_record, servers_of, existing_file, lock_init,
}
use mcp_gateway_lite.Lock.Written.{
  LockedEntry, existing_file-version, lock_upstreams-others, lock_upstreams-LockedEntry,
  lock_init-Written, fetch_record-capture,
}

-- A lockfile that has a capture with detail for the upstream gives a lock with that detail.
prepare_lock-found :
    {F : Type 0} (read : Bytes → ReadResult) (decode : Bytes → Option LockServer) (u : Upstream F)
    (lc : LockConfig) (lf : LockFile) (m : Dict Bytes) (raw : Bytes) (rec : LockServer)
    → u.tools_lock ≡ some lc
    → lc.server ≡ []
    → read lc.file ≡ decoded lf
    → lf.servers ≡ some m
    → lf.lockfile_version ≡ pos 1
    → lookup u.name m ≡ some raw
    → decode raw ≡ some rec
    → is_nil rec.tools_detail ≡ false
    → prepare_lock read decode u []
      ≡ prepared (some (lock_of read decode lc u.name rec)) (insert lc.file lf [])
unfolding prepare_lock cached_lock_file lookup
prepare_lock-found read decode u lc lf m raw rec t s r has v found d some_detail =
    rw (t, r, s, has, v, found, d, some_detail, and-false) refl

-- A table with an entry is not empty.
Locked-some :
    (codec : Codec) (detail : Dict Bytes) (els : List Bytes)
    → is_nil els ≡ false
    → All (Locked codec detail) els
    → is_nil detail ≡ false
unfolding lookup
Locked-some codec detail [] n a = absurd (ground (arith, n))
Locked-some codec [] (el ∷ els) n a = absurd (ground (arith, a.0.2))
Locked-some codec (d ∷ detail) els n a = refl

-- The decoded record has the hash of `r` and, under each name, its hash of a tool.
abbrev pub SameReading : ServerRecord → Option LockServer → Type 0
SameReading r none = ⊥
SameReading r (some rec) =
    (rec.tools_hash ≡ r.tools_hash)
    × ((k : Bytes) → lookup k rec.tools_detail ≡ lookup k r.tools_detail)

decoded_record :
    (r : ServerRecord) (o : Option LockServer) {d : Option LockServer}
    → d ≡ o
    → SameReading r o
    → (rec : LockServer) × (d ≡ some rec)
      × (rec.tools_hash ≡ r.tools_hash)
      × ((k : Bytes) → lookup k rec.tools_detail ≡ lookup k r.tools_detail)
decoded_record r none e s = absurd s
decoded_record r (some rec) e s = (rec, e, s.0, s.1)

Locked-lookup :
    (codec : Codec) (d e : Dict Bytes) (els : List Bytes)
    → ((k : Bytes) → lookup k d ≡ lookup k e)
    → All (Locked codec d) els
    → All (Locked codec e) els
Locked-lookup codec d e [] same_hashes a = tt
Locked-lookup codec d e (el ∷ els) same_hashes a =
    ((a.0.0, a.0.1, sym (same_hashes _) ∙ a.0.2), Locked-lookup codec d e els same_hashes a.1)

module _ {F : Type 0} (w : InitWorld) (not_positive : F → Bool)
    (parse : Bytes → Option ParsedUrl) where
  -- Where LockInit writes, the lockfile that it gives to writeLockFile has, for every server of the
  -- lockfile before that is no upstream of the configuration, the same raw record as before, and the
  -- version of the lockfile is 1.
  pub lock_init-keeps :
      (c : Config F) (path : Bytes) (lf : LockFile)
      → (lock_init w not_positive parse c path).outcome ≡ done lf
      → (k : Bytes) → All (λ u. u.name ≢ k) c.upstreams
      → (old : LockFile) × (existing_file w path ≡ done old)
        × (lookup k (servers_of w lf) ≡ lookup k (servers_of w old))
        × (lf.lockfile_version ≡ pos 1)
  lock_init-keeps c path lf h k a =
      let x = lock_init-Written w not_positive parse c path lf h in
      (
        x.old,
        x.existing,
        ap (λ (f : LockFile). lookup k (servers_of w f)) x.file
            ∙ lock_upstreams-others w c.upstreams _ [] x.servers x.locked k a,
        ap (λ (f : LockFile). f.lockfile_version) x.file
            ∙ existing_file-version w path x.old x.existing,
      )

  -- A decoded record that agrees with the fetched one locks the tools that were fetched.
  record_locks :
      (u : Upstream F) (els : List Bytes) (f : Fetched) (rec : LockServer)
      → fetch_record w u.url ≡ ok f
      → fetch_all_tools w.codec w.replies w.client u.url ≡ ok els
      → ((k : Bytes) → lookup k rec.tools_detail ≡ lookup k f.rec.tools_detail)
      → All (Locked w.codec rec.tools_detail) els
  record_locks u els f rec source fetched same_detail =
      let (lock, all_of, caught, same_lock) = fetch_record-capture w u.url f source in
      let same_els : els ≡ f.elems = ground (arith, fetched, all_of) in
      let caught_els : capture w.codec els ≡ ok lock = rw same_els caught in
      let locked = subst (Holds (Captured w.codec els)) caught_els (capture-Captured w.codec els) in
      Locked-lookup w.codec lock.tools_detail rec.tools_detail els
        (λ k. ap (λ (y : LockServer). lookup k y.tools_detail) same_lock ∙ sym (same_detail k))
        locked

  -- After a run of LockInit that writes, a gateway that reads the lockfile back prepares a lock for an
  -- upstream of the configuration that names the file and no other server, and that lock finds no drift
  -- in any page of the listing that LockInit fetched of the upstream: in any tools of it, in any order,
  -- where the listing has a tool. What is assumed of the JSON encoder is that the record of this
  -- upstream's tools, encoded and decoded, has the same hash and the same hash of each tool, and that in
  -- the file that is read back the version is the same and the raw record of each server, perhaps laid
  -- out anew, decodes to the same.
  pub lock_init-verifies :
      (c : Config F) (path : Bytes) (lf : LockFile) (u : Upstream F) (lc : LockConfig)
      (read_back : Bytes → ReadResult) (els page : List Bytes) (again : LockFile)
      (servers : Dict Bytes)
      → ((f : Fetched) (raw : Bytes)
          → fetch_record w u.url ≡ ok f
          → w.encode_server f.rec ≡ some raw
          → SameReading f.rec (w.decode_server raw))
      → (lock_init w not_positive parse c path).outcome ≡ done lf
      → Member u c.upstreams
      → u.tools_lock ≡ some lc
      → lc.server ≡ []
      → read_back lc.file ≡ decoded again
      → again.servers ≡ some servers
      → again.lockfile_version ≡ lf.lockfile_version
      → ((k raw : Bytes)
          → lookup k (servers_of w lf) ≡ some raw
          → (laid_out : Bytes) × (lookup k servers ≡ some laid_out)
            × (w.decode_server laid_out ≡ w.decode_server raw))
      → fetch_all_tools w.codec w.replies w.client u.url ≡ ok els
      → is_nil els ≡ false
      → PageOf els page
      → (l : PreparedLock) × (cache : Dict LockFile) × (prepare_lock read_back w.decode_server u []
          ≡ prepared (some l) cache)
        × (verify w.codec l page ≡ [])
  lock_init-verifies c path lf u lc read_back els page again servers reads h member t s r has v
        rereads fetched some_tool p =
      let x = lock_init-Written w not_positive parse c path lf h in
      let names = validate-names not_positive parse c x.valid in
      let e =
        All-Member (LockedEntry w x.servers) u c.upstreams
          (lock_upstreams-LockedEntry w c.upstreams _ [] x.servers x.locked names.2) member in
      let (rec, decodes, same_hash, same_detail) =
        decoded_record e.fetched.rec (w.decode_server e.raw) refl
          (reads e.fetched e.raw e.source e.encoded) in
      let (laid_out, found, same_record) =
        rereads u.name e.raw
          (ap (λ (f : LockFile). lookup u.name (servers_of w f)) x.file ∙ e.found) in
      let locked = record_locks u els e.fetched rec e.source fetched same_detail in
      let some_detail = Locked-some w.codec rec.tools_detail els some_tool locked in
      let l = lock_of read_back w.decode_server lc u.name rec in
      (
        l,
        insert lc.file again [],
        prepare_lock-found read_back w.decode_server u lc again servers laid_out rec t s r has
            (v
              ∙ ap (λ (f : LockFile). f.lockfile_version) x.file
              ∙ existing_file-version w path x.old x.existing)
            found (same_record ∙ decodes) some_detail,
        (verify-Locked w.codec l page some_detail).1
            (page-Locked w.codec rec.tools_detail els page locked p),
      )
