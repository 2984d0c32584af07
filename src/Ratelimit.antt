-- ===== src/Ratelimit.antt =====
-- gateway/ratelimit.go: the token bucket and the table of buckets by session. The mutexes make each
-- operation one step. A time is a number of nanoseconds, and the readings of the clock that an
-- operation makes are its arguments, in the order of the calls. float64 is a type with the
-- operations that the code uses.
pub mod Oldest
pub mod Table
pub mod Runs
pub mod Isolated
use mcp_gateway_lite.Base.{
  ℕ, zero, suc, Bool, true, false, Bytes, List, [], ◌∷◌, Option, none, some, leb, ltb, length,
  if◌then◌else◌,
}
use mcp_gateway_lite.Base.Dict.{Dict, lookup, insert, delete}
use mcp_gateway_lite.Base.Int.{ℤ, pos, negsuc, is_non_positive, to_ℕ}

-- `seconds` is Duration.Seconds of the difference of two times, the later one first, and
-- `nanoseconds` is the conversion of a product with time.Second to a Duration.
pub record Float64 (F : Type 0) : Type 0 where
  pub of_int : ℤ → F
  pub seconds : ℕ → ℕ → F
  pub nanoseconds : F → ℤ
  pub plus : F → F → F
  pub minus : F → F → F
  pub times : F → F → F
  pub over : F → F → F
  pub min : F → F → F
  pub less : F → F → Bool
  pub at_most : F → F → Bool

pub record TokenBucket (F : Type 0) : Type 0 where
  pub rps : F
  pub burst : F
  pub tokens : F
  pub last : ℕ

pub record SessionLimiter (F : Type 0) : Type 0 where
  pub rps : F
  pub burst : ℤ
  pub max : ℕ
  pub buckets : Dict (TokenBucket F)
  pub last_seen : Dict ℕ

-- maxSessionBuckets
abbrev pub max_session_buckets : ℕ
max_session_buckets = 4096

-- The loop of sessionLimiter.allow: the first of the sessions seen longest ago.
unfoldable pub oldest : Option (Bytes × ℕ) → Dict ℕ → Option (Bytes × ℕ)
oldest best [] = best
oldest none ((s, seen) ∷ m) = oldest (some (s, seen)) m
oldest (some (o, t)) ((s, seen) ∷ m) = oldest (some (if ltb seen t then (s, seen) else (o, t))) m

-- The key that is deleted: the empty string where no session is in the table.
abbrev pub oldest_key : Dict ℕ → Bytes
oldest_key m = elim (oldest none m) [ none ↦ [] | some p ↦ p.0 ]

module _ {F : Type 0} where
  unfoldable pub evict : SessionLimiter F → SessionLimiter F
  unfolding oldest
  evict l =
      let key = oldest_key l.last_seen in
      if leb l.max (length l.buckets)
      then record l { buckets = delete key l.buckets; last_seen = delete key l.last_seen }
      else l

module _ {F : Type 0} (num : Float64 F) where
  unfoldable pub new_token_bucket : F → ℤ → ℕ → TokenBucket F
  new_token_bucket rps burst now = record {
    rps = rps;
    burst = num.of_int burst;
    tokens = num.of_int burst;
    last = now;
  }

  unfoldable pub refill : TokenBucket F → ℕ → TokenBucket F
  refill b t =
      let elapsed = num.seconds t b.last in
      if num.less (num.of_int (pos 0)) elapsed
      then record b {
        tokens = num.min b.burst (num.plus b.tokens (num.times elapsed b.rps));
        last = t;
      }
      else b

  -- Whether a token was there, and how long until the next one.
  unfoldable pub allow_bucket : TokenBucket F → ℕ → (Bool × ℤ) × TokenBucket F
  unfolding refill
  allow_bucket bucket t =
      let b = refill bucket t in
      let one = num.of_int (pos 1) in
      if num.at_most one b.tokens
      then ((true, pos 0), record b { tokens = num.minus b.tokens one })
      else ((false, num.nanoseconds (num.over (num.minus one b.tokens) b.rps)), b)

  unfoldable pub new_session_limiter : F → ℤ → ℤ → SessionLimiter F
  new_session_limiter rps burst max = record {
    rps = rps;
    burst = burst;
    max = if is_non_positive max then max_session_buckets else to_ℕ max;
    buckets = [];
    last_seen = [];
  }

  -- The table in which the session has a bucket.
  unfoldable pub ensure : SessionLimiter F → Bytes → ℕ → SessionLimiter F
  unfolding evict new_token_bucket
  ensure l session now = elim (lookup session l.buckets) [
    | some b ↦ l
    | none ↦
        let room = evict l in
        record room { buckets = insert session (new_token_bucket l.rps l.burst now) room.buckets }
  ]

  abbrev pub take_from :
      SessionLimiter F → Bytes → ℕ → Option (TokenBucket F) → (Bool × ℤ) × SessionLimiter F
  take_from l session t none = ((false, pos 0), l)
  take_from l session t (some b) =
      let (answer, after) = allow_bucket b t in
      (answer, record l { buckets = insert session after l.buckets })

  -- `made`, `seen` and `t` are the clock's readings for a new bucket, for the table and for the
  -- bucket.
  unfoldable pub allow : SessionLimiter F → Bytes → ℕ → ℕ → ℕ → (Bool × ℤ) × SessionLimiter F
  unfolding ensure allow_bucket
  allow l session made seen t =
      let here = ensure l session made in
      let noted = record here { last_seen = insert session seen here.last_seen } in
      take_from noted session t (lookup session noted.buckets)
