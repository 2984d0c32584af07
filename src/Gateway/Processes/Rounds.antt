-- ===== src/Gateway/Processes/Rounds.antt =====
-- Each round of New in gateway/gateway.go, by what the pools of the scanners own behind it.
use mcp_gateway_lite.Base.{
  ℕ, ◌+◌, ◌*◌, Bytes, same, same_iff, List, [], ◌∷◌, Option, none, All, All-zip, ◌≡◌, ◌≢◌, inl, inr,
  refl, sym, ap, ◌∙◌, arith, Bool-cases, Option-cases,
}
use mcp_gateway_lite.Base.Dict.{Dict, lookup, insert, lookup-insert}
use mcp_gateway_lite.Config.Types.{Upstream, PromptProofConfig}
use mcp_gateway_lite.Config.{to_lower}
use mcp_gateway_lite.Config.Names.{DistinctNames}
use mcp_gateway_lite.PromptProof.{ScanReply, new_scanner}
use mcp_gateway_lite.PromptProof.Process.{Os, Proc, Start}
use mcp_gateway_lite.PromptProof.Accounts.{owned}
use mcp_gateway_lite.PromptProof.Pool.{drain_all, PoolStart, start_failed, pool_ready}
use mcp_gateway_lite.PromptProof.Pool.Counts.{sum, Sound}
use mcp_gateway_lite.PromptProof.Pool.Startup.{drain_all-gives_back, Outcome, start_pool-Outcome}
use mcp_gateway_lite.Ratelimit.{Float64}
use mcp_gateway_lite.Lock.{PreparedLock}
use mcp_gateway_lite.Lock.Prepare.{Prepared, prepared, lock_failed}
use mcp_gateway_lite.Gateway.Build.{
  with_lock, invalid_config, bad_proxy_url, bad_lock, bad_scanner, World, Building, Built, built,
  build_failed, add_route, add_lock, add_policy, add_limit,
}
use mcp_gateway_lite.Gateway.Processes.{
  Live, LiveResult, live, not_live, close_pools, scanner_started, start_scanner, next_live,
  add_live, then_live, add_all_live,
}

-- What an entry of the table owns.
abbrev pub pool_owned : Bytes × List Proc → ℕ
pool_owned e = sum owned e.1

abbrev pub SoundPool : Bytes × List Proc → Type 0
SoundPool e = All Sound e.1

-- The pools, in a system where others own `c` children and `d` descriptors.
pub record Owning (c d : ℕ) (pools : Dict (List Proc)) (os : Os) : Type 0 where
  pub sound : All SoundPool pools
  pub children : os.children ≡ c + sum pool_owned pools
  pub descriptors : os.descriptors ≡ d + 3 * sum pool_owned pools

-- An insertion under a new key adds an entry.
sum-insert :
    {V : Type 0} (f : Bytes × V → ℕ) (k : Bytes) (v : V) (m : Dict V)
    → lookup k m ≡ none
    → sum f (insert k v m) ≡ sum f m + f (k, v)
unfolding lookup insert
sum-insert f k v [] e = omega arith
sum-insert f k v ((j, x) ∷ m) e = elim (Bool-cases (same j k)) [
  | inl q ↦ absurd (cc (rw (lookup, q) at e))
  | inr q ↦ rw (insert, q) (omega (arith, sum-insert f k v m (rw (lookup, q) at e)))
]

All-insert :
    {V : Type 0} (P : Bytes × V → Type 0) (k : Bytes) (v : V) (m : Dict V)
    → lookup k m ≡ none
    → All P m
    → P (k, v)
    → All P (insert k v m)
unfolding lookup insert
All-insert P k v [] e a p = (p, tt)
All-insert P k v ((j, x) ∷ m) e a p = elim (Bool-cases (same j k)) [
  | inl q ↦ absurd (cc (rw (lookup, q) at e))
  | inr q ↦ rw (insert, q) (a.0, All-insert P k v m (rw (lookup, q) at e) a.1 p)
]

module _ {c d : ℕ} where
  pub close_pools-gives_back :
      (pools : Dict (List Proc)) (os : Os)
      → Owning c d pools os
      → ((close_pools pools os).children ≡ c) × ((close_pools pools os).descriptors ≡ d)
  unfolding close_pools
  close_pools-gives_back [] os w = (omega (arith, w.children), omega (arith, w.descriptors))
  close_pools-gives_back ((k, pool) ∷ pools) os w =
      close_pools-gives_back pools _
        (record { sound = w.sound.1; children = freed.0; descriptors = freed.1 })
    where
      freed :
          ((drain_all pool os).children ≡ c + sum pool_owned pools)
          × ((drain_all pool os).descriptors ≡ d + 3 * sum pool_owned pools)
      freed = drain_all-gives_back pool os (record {
        sound = w.sound.0;
        children = omega (arith, w.children);
        descriptors = omega (arith, w.descriptors);
      })

module _ {F : Type 0} (num : Float64 F) (w : World) (attempt : Bytes → ℕ → Start)
    (reply : PromptProofConfig → Bytes → ScanReply) where
  -- What a part of New leaves: the pools own what there is more, and the error of a scanner gives all
  -- back.
  abbrev pub Leaves : ℕ → ℕ → LiveResult F → Type 0
  Leaves c d (live l) = Owning c d l.pools l.os
  Leaves c d (not_live (bad_scanner n) os) = (os.children ≡ c) × (os.descriptors ≡ d)
  Leaves c d (not_live (invalid_config e) os) = Unit
  Leaves c d (not_live (bad_proxy_url n) os) = Unit
  Leaves c d (not_live (bad_lock n e) os) = Unit

  -- The errors of the steps that start nothing are not those of a scanner.
  abbrev NotScanner : Built (Building F) → Type 0
  NotScanner (built b) = Unit
  NotScanner (build_failed e) = (n : Bytes) → e ≢ bad_scanner n

  add_route-NotScanner : (u : Upstream F) (b : Building F) → NotScanner (add_route num w u b)
  unfolding add_route
  add_route-NotScanner u b = elim (Option-cases (w.parse u.url)) [
    | inl e ↦ rw (add_route, e) (λ n q. absurd (ground (arith, q)))
    | inr (p, e) ↦ rw (add_route, e) tt
  ]

  with_lock-NotScanner :
      (u : Upstream F) (b : Building F) (x : Prepared (Option PreparedLock))
      → NotScanner (with_lock num w u b x)
  with_lock-NotScanner u b (prepared l cache) = tt
  with_lock-NotScanner u b (lock_failed e) = λ n q. absurd (ground (arith, q))

  add_lock-NotScanner : (u : Upstream F) (b : Building F) → NotScanner (add_lock num w u b)
  unfolding add_lock
  add_lock-NotScanner u b = with_lock-NotScanner u b _

  -- The steps of New that start nothing either fail with another error or go on.
  next_live-Leaves :
      (c d : ℕ) (l : Live F) (b : Built (Building F)) (f : Live F → LiveResult F)
      → NotScanner b
      → ((x : Building F) → Leaves c d (f (record l { building = x })))
      → Leaves c d (next_live num w attempt reply l b f)
  next_live-Leaves c d l (build_failed (bad_scanner n)) f bad good = absurd (bad n refl)
  next_live-Leaves c d l (build_failed (invalid_config e)) f bad good = tt
  next_live-Leaves c d l (build_failed (bad_proxy_url n)) f bad good = tt
  next_live-Leaves c d l (build_failed (bad_lock n e)) f bad good = tt
  next_live-Leaves c d l (built x) f bad good = good x

  module _ {c d : ℕ} where
    scanner_started-Leaves :
        (u : Upstream F) (p : PromptProofConfig) (l : Live F) (s : PoolStart) (n : ℕ)
        → Owning c d l.pools l.os
        → lookup u.name l.pools ≡ none
        → Outcome l.os.children l.os.descriptors s n
        → Leaves c d (scanner_started num w attempt reply u p l s)
    scanner_started-Leaves u p l (start_failed e os) n o new s =
        close_pools-gives_back l.pools os (record {
          sound = o.sound;
          children = s.0 ∙ o.children;
          descriptors = s.1 ∙ o.descriptors;
        })
    scanner_started-Leaves u p l (pool_ready pool os) n o new s = record {
      sound = All-insert SoundPool u.name pool l.pools new o.sound s.0.sound;
      children =
          omega (arith, s.0.children, o.children, sum-insert pool_owned u.name pool l.pools new);
      descriptors =
          omega
            (arith, s.0.descriptors, o.descriptors, sum-insert pool_owned u.name pool l.pools new);
    }

    start_scanner-Leaves :
        (u : Upstream F) (l : Live F)
        → Owning c d l.pools l.os
        → lookup u.name l.pools ≡ none
        → Leaves c d (start_scanner num w attempt reply u l)
    unfolding start_scanner
    start_scanner-Leaves u l o new = elim (Option-cases u.prompt_proof) [
      | inl e ↦ rw (start_scanner, e) o
      | inr (p, e) ↦ elim (Bool-cases p.enabled) [
        | inr f ↦ rw (start_scanner, e, f) o
        | inl f ↦
            rw (start_scanner, e)
              (simp f (
                scanner_started-Leaves u p l _ _ o new (
                  start_pool-Outcome (new_scanner p (reply p)).size (attempt u.name) [] l.os
                    (record { sound = tt; children = omega arith; descriptors = omega arith }))))
      ]
    ]

    add_live-Leaves :
        (u : Upstream F) (l : Live F)
        → Owning c d l.pools l.os
        → lookup u.name l.pools ≡ none
        → Leaves c d (add_live num w attempt reply u l)
    unfolding add_live
    add_live-Leaves u l o new = next_live-Leaves c d l _ _ (add_route-NotScanner u l.building) (λ x.
        next_live-Leaves c d (record l { building = x }) _ _ (add_lock-NotScanner u _)
          (λ y. start_scanner-Leaves u _ o new))

  -- A round touches the pool of its own upstream only.
  abbrev Keeps : Upstream F → Live F → LiveResult F → Type 0
  Keeps u l (not_live e os) = Unit
  Keeps u l (live after) = (k : Bytes) → k ≢ u.name → lookup k after.pools ≡ lookup k l.pools

  scanner_started-Keeps :
      (u : Upstream F) (p : PromptProofConfig) (l : Live F) (s : PoolStart)
      → Keeps u l (scanner_started num w attempt reply u p l s)
  scanner_started-Keeps u p l (start_failed e os) = tt
  scanner_started-Keeps u p l (pool_ready pool os) = λ k other.
      lookup-insert u.name k pool l.pools ∙ elim (Bool-cases (same u.name k)) [
        | inl e ↦ absurd (other (sym ((same_iff u.name k).0 e)))
        | inr e ↦ rw e refl
      ]

  start_scanner-Keeps :
      (u : Upstream F) (l : Live F) → Keeps u l (start_scanner num w attempt reply u l)
  unfolding start_scanner
  start_scanner-Keeps u l = elim (Option-cases u.prompt_proof) [
    | inl e ↦ rw (start_scanner, e) (λ k other. refl)
    | inr (p, e) ↦ elim (Bool-cases p.enabled) [
      | inr f ↦ rw (start_scanner, e, f) (λ k other. refl)
      | inl f ↦ rw (start_scanner, e) (simp f (scanner_started-Keeps u p l _))
    ]
  ]

  next_live-Keeps :
      (u : Upstream F) (l m : Live F) (b : Built (Building F)) (f : Live F → LiveResult F)
      → ((x : Building F) → Keeps u l (f (record m { building = x })))
      → Keeps u l (next_live num w attempt reply m b f)
  next_live-Keeps u l m (build_failed e) f good = tt
  next_live-Keeps u l m (built x) f good = good x

  add_live-Keeps : (u : Upstream F) (l : Live F) → Keeps u l (add_live num w attempt reply u l)
  unfolding add_live
  add_live-Keeps u l =
      next_live-Keeps u l l (add_route num w u l.building)
        (λ x.
          next_live num w attempt reply x
            (add_lock num w u (add_policy num w u (add_limit num w u x.building)))
            (start_scanner num w attempt reply u))
        (λ x.
          next_live-Keeps u l (record l { building = x })
            (add_lock num w u (add_policy num w u (add_limit num w u x)))
            (start_scanner num w attempt reply u)
            (λ y. start_scanner-Keeps u (record l { building = y })))

  module _ {c d : ℕ} where
    pub add_all_live-Leaves :
        (us : List (Upstream F)) (l : Live F)
        → Owning c d l.pools l.os
        → All (λ u. lookup u.name l.pools ≡ none) us
        → DistinctNames us
        → Leaves c d (add_all_live num w attempt reply us l)
    unfolding add_all_live
    add_all_live-Leaves [] l o new names = o
    add_all_live-Leaves (u ∷ us) l o new names =
        after (add_live num w attempt reply u l) (add_live-Leaves u l o new.0) (add_live-Keeps u l)
          (λ next owning fresh. add_all_live-Leaves us next owning fresh names.1)
      where
        after :
            (x : LiveResult F)
            → Leaves c d x
            → Keeps u l x
            → ((next : Live F)
                → Owning c d next.pools next.os
                → All (λ v. lookup v.name next.pools ≡ none) us
                → Leaves c d (add_all_live num w attempt reply us next))
            → Leaves c d (then_live num w attempt reply x (add_all_live num w attempt reply us))
        after (not_live e os) leaves keeps rest = leaves
        after (live next) leaves keeps rest = rest next leaves (
            All-zip (λ v other absent. keeps v.name (λ e. other (ap to_lower e)) ∙ absent) us
              names.0 new.1)
