-- ===== src/Lock/Written.antt =====
-- What a run of LockInit of gateway/lockinit.go has done where it writes.
use mcp_gateway_lite.Base.{
  Bool, Bytes, same, same_iff, same_refl, List, [], ◌∷◌, Option, none, some, All, All-map, ◌≡◌, ◌≢◌,
  ◌⊎◌, inl, inr, refl, ap, subst, ◌∙◌, Bool-cases, Option-cases, arith,
}
use mcp_gateway_lite.Base.Dict.{Dict, lookup, insert, lookup-insert}
use mcp_gateway_lite.Base.Int.{pos}
use mcp_gateway_lite.Config.Types.{Upstream, Config}
use mcp_gateway_lite.Config.{ParsedUrl, to_lower, validate}
use mcp_gateway_lite.Config.Names.{DistinctNames}
use mcp_gateway_lite.Lock.{Checked, ok, err}
use mcp_gateway_lite.Lock.Prepare.{
  LockFile, LockServer, Prepared, prepared, lock_failed, ReadResult, missing, garbled, decoded,
  cached_lock_file,
}
use mcp_gateway_lite.Lock.Capture.{capture}
use mcp_gateway_lite.Lock.Client.{fetch_all_tools}
use mcp_gateway_lite.Lock.Init.{
  reading, InitError, Outcome, done, init_failed, InitRun, InitWorld, Fetched, fetch_record,
  add_server, captured, record_of, lock_upstreams, servers_of, recognized, existing_file,
  write_servers, lock_init,
}

-- The table has the record of the upstream's tools under its name.
pub record LockedEntry {F : Type 0} (w : InitWorld) (m : Dict Bytes) (u : Upstream F) : Type 0 where
  pub fetched : Fetched
  pub raw : Bytes
  pub source : fetch_record w u.url ≡ ok fetched
  pub encoded : w.encode_server fetched.rec ≡ some raw
  pub found : lookup u.name m ≡ some raw

module _ (w : InitWorld) where
  -- A round that does not end the loop.
  record Round (name : Bytes) (servers : Dict Bytes)
      (next : Dict Bytes → Bytes → InitRun (Dict Bytes)) (c : Checked Fetched) (m : Dict Bytes)
      : Type 0 where
    f : Fetched
    raw : Bytes
    out : Bytes
    source : c ≡ ok f
    encoded : w.encode_server f.rec ≡ some raw
    rest : (next (insert name raw servers) out).outcome ≡ done m

  add_server-Round :
      (name : Bytes) (servers : Dict Bytes) (out : Bytes)
      (next : Dict Bytes → Bytes → InitRun (Dict Bytes)) (c : Checked Fetched) (m : Dict Bytes)
      → (add_server w name servers out next c).outcome ≡ done m
      → Round name servers next c m
  add_server-Round name servers out next (err e) m h = absurd (ground (arith, h))
  add_server-Round name servers out next (ok f) m h = elim (Option-cases (w.encode_server f.rec)) [
    | inl e ↦ absurd (ground (arith, h, e))
    | inr (raw, e) ↦ record {
      f = f;
      raw = raw;
      out = _;
      source = refl;
      encoded = e;
      rest = rw (add_server, e) at h;
    }
  ]

  module _ {F : Type 0} where
    -- The loop leaves the records of other servers alone.
    pub lock_upstreams-others :
        (us : List (Upstream F)) (servers : Dict Bytes) (out : Bytes) (m : Dict Bytes)
        → (lock_upstreams w us servers out).outcome ≡ done m
        → (k : Bytes) → All (λ u. u.name ≢ k) us
        → lookup k m ≡ lookup k servers
    unfolding lock_upstreams
    lock_upstreams-others [] servers out m h k a = ap (lookup k) (ground (arith, h))
    lock_upstreams-others (u ∷ us) servers out m h k a =
        let r =
          add_server-Round u.name servers out (lock_upstreams w us) (fetch_record w u.url) m h in
        lock_upstreams-others us _ r.out m r.rest k a.1
        ∙ lookup-insert u.name k r.raw servers
        ∙ elim (Bool-cases (same u.name k)) [
          | inl e ↦ absurd (a.0 ((same_iff u.name k).0 e))
          | inr e ↦ rw e refl
        ]

    pub lock_upstreams-LockedEntry :
        (us : List (Upstream F)) (servers : Dict Bytes) (out : Bytes) (m : Dict Bytes)
        → (lock_upstreams w us servers out).outcome ≡ done m
        → DistinctNames us
        → All (LockedEntry w m) us
    unfolding lock_upstreams
    lock_upstreams-LockedEntry [] servers out m h d = tt
    lock_upstreams-LockedEntry (u ∷ us) servers out m h d =
        let r =
          add_server-Round u.name servers out (lock_upstreams w us) (fetch_record w u.url) m h in
        let others : All (λ v. v.name ≢ u.name) us =
          All-map (λ v ne e. ne (ap to_lower e)) us d.0 in
        (
          record {
            fetched = r.f;
            raw = r.raw;
            source = r.source;
            encoded = r.encoded;
            found =
                lock_upstreams-others us _ r.out m r.rest u.name others
                ∙ lookup-insert u.name u.name r.raw servers
                ∙ rw (same_refl u.name) refl;
          },
          lock_upstreams-LockedEntry us _ r.out m r.rest d.1,
        )

  cached_lock_file-version :
      (path : Bytes) (r : ReadResult) (lf : LockFile) (cache : Dict LockFile)
      → w.read path ≡ r
      → cached_lock_file w.read w.decode_server path [] ≡ prepared lf cache
      → lf.lockfile_version ≡ pos 1
  unfolding cached_lock_file lookup
  cached_lock_file-version path missing lf cache e h = absurd (ground (arith, h, e))
  cached_lock_file-version path garbled lf cache e h = absurd (ground (arith, h, e))
  cached_lock_file-version path (decoded file) lf cache e h = ground (arith, h, e)

  pub existing_file-version :
      (path : Bytes) (lf : LockFile) → existing_file w path ≡ done lf → lf.lockfile_version ≡ pos 1
  unfolding existing_file
  existing_file-version path lf h = elim (Bool-cases (w.stat path)) [
    | inl e ↦
        found (cached_lock_file w.read w.decode_server path []) refl (rw (existing_file, e) at h)
    | inr e ↦ ground (arith, h, e)
  ]
    where
      found :
          (x : Prepared LockFile)
          → cached_lock_file w.read w.decode_server path [] ≡ x
          → recognized x ≡ done lf
          → lf.lockfile_version ≡ pos 1
      found (prepared file cache) q g =
          cached_lock_file-version path (w.read path) lf cache refl (q ∙ ground (arith, g))
      found (lock_failed x) q g = absurd (ground (arith, g))

  Outcome-cases :
      {A : Type 0} (o : Outcome A)
      → ((a : A) × (o ≡ done a)) ⊎ ((e : InitError) × (o ≡ init_failed e))
  Outcome-cases (done a) = inl (a, refl)
  Outcome-cases (init_failed e) = inr (e, refl)

  -- What a run of LockInit that writes has done.
  pub record Written {F : Type 0} (not_positive : F → Bool) (parse : Bytes → Option ParsedUrl)
      (c : Config F) (path : Bytes) (lf : LockFile) : Type 0 where
    pub valid : (validate not_positive parse c).0 ≡ none
    pub old : LockFile
    pub existing : existing_file w path ≡ done old
    pub servers : Dict Bytes
    pub locked : (lock_upstreams w c.upstreams (servers_of w old) []).outcome ≡ done servers
    pub file : lf ≡ record old { servers = some servers }

  write_servers-done :
      (path : Bytes) (old : LockFile) (run : InitRun (Dict Bytes)) (lf : LockFile)
      → (write_servers w path old run).outcome ≡ done lf
      → (m : Dict Bytes) × (run.outcome ≡ done m) × (lf ≡ record old { servers = some m })
  unfolding write_servers
  write_servers-done path old run lf h = elim (Outcome-cases run.outcome) [
    | inr (e, f) ↦ absurd (ground (arith, h, f))
    | inl (m, f) ↦ (m, f, ground (arith, h, f))
  ]

  pub lock_init-Written :
      {F : Type 0} (not_positive : F → Bool) (parse : Bytes → Option ParsedUrl) (c : Config F)
      (path : Bytes) (lf : LockFile)
      → (lock_init w not_positive parse c path).outcome ≡ done lf
      → Written not_positive parse c path lf
  unfolding lock_init validate
  lock_init-Written not_positive parse c path lf h =
      elim (Option-cases (validate not_positive parse c).0) [
        | inr (e, f) ↦ absurd (ground (arith, rw (lock_init, f) at h))
        | inl v ↦ elim (Outcome-cases (existing_file w path)) [
          | inr (e, f) ↦ absurd (ground (arith, rw (lock_init, v, f) at h))
          | inl (old, f) ↦
              let (m, run, same_file) =
                write_servers-done path old _ lf (rw (lock_init, v, f) at h) in
              record {
                valid = v;
                old = old;
                existing = f;
                servers = m;
                locked = run;
                file = same_file;
              }
        ]
      ]

  -- A record that was fetched is the capture of its tools.
  pub fetch_record-capture :
      (url : Bytes) (f : Fetched)
      → fetch_record w url ≡ ok f
      → (lock : LockServer) × (fetch_all_tools w.codec w.replies w.client url ≡ ok f.elems)
        × (capture w.codec f.elems ≡ ok lock)
        × (lock ≡ reading f.rec)
  unfolding fetch_record
  fetch_record-capture url f h = after (fetch_all_tools w.codec w.replies w.client url) refl h
    where
      fetched :
          (els : List Bytes) (c : Checked LockServer)
          → capture w.codec els ≡ c
          → record_of w url els c ≡ ok f
          → (lock : LockServer) × (els ≡ f.elems)
            × (capture w.codec f.elems ≡ ok lock)
            × (lock ≡ reading f.rec)
      fetched els (err e) q h = absurd (ground (arith, h))
      fetched els (ok lock) q h = (
        lock,
        ground (arith, h),
        subst (λ (x : List Bytes). capture w.codec x ≡ ok lock) (ground (arith, h)) q,
        ground (arith, h),
      )

      after :
          (c : Checked (List Bytes))
          → fetch_all_tools w.codec w.replies w.client url ≡ c
          → captured w url c ≡ ok f
          → (lock : LockServer) × (fetch_all_tools w.codec w.replies w.client url ≡ ok f.elems)
            × (capture w.codec f.elems ≡ ok lock)
            × (lock ≡ reading f.rec)
      after (err e) q h = absurd (ground (arith, h))
      after (ok els) q h =
          let (lock, same_els, caught, same_lock) = fetched els (capture w.codec els) refl h in
          (lock, q ∙ ap (λ (x : List Bytes). ok x) same_els, caught, same_lock)
