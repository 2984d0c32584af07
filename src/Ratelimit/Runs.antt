-- ===== src/Ratelimit/Runs.antt =====
-- Any sequence of requests to a session limiter of gateway/ratelimit.go.
use mcp_gateway_lite.Base.{ℕ, Bytes, List, [], ◌∷◌, refl, arith}
use mcp_gateway_lite.Base.Dict.{lookup}
use mcp_gateway_lite.Base.Int.{ℤ}
use mcp_gateway_lite.Ratelimit.{Float64, SessionLimiter, new_session_limiter, allow}
use mcp_gateway_lite.Ratelimit.Table.{WellFormed, allow-WellFormed}

-- A request: its session, and the clock's readings while it is decided.
pub record Arrival : Type 0 where
  pub session : Bytes
  pub made : ℕ
  pub seen : ℕ
  pub t : ℕ

module _ {F : Type 0} (num : Float64 F) where
  -- The limiter after a sequence of requests.
  abbrev pub serve : List Arrival → SessionLimiter F → SessionLimiter F
  serve [] l = l
  serve (r ∷ rs) l = serve rs (allow num l r.session r.made r.seen r.t).1

  serve-WellFormed :
      (rs : List Arrival) (l : SessionLimiter F) → WellFormed l → WellFormed (serve rs l)
  serve-WellFormed [] l w = w
  serve-WellFormed (r ∷ rs) l w =
      serve-WellFormed rs _ (allow-WellFormed num l r.session r.made r.seen r.t w)

  new-WellFormed : (rps : F) (burst max : ℤ) → WellFormed (new_session_limiter num rps burst max)
  unfolding new_session_limiter lookup
  new-WellFormed rps burst max = record {
    room = ground arith;
    bound = omega arith;
    timed = λ k. (λ e. refl, λ e. refl);
  }

  -- After any sequence of requests a new limiter has at most its maximum of buckets, and for every
  -- bucket a time.
  pub new-serve-WellFormed :
      (rps : F) (burst max : ℤ) (rs : List Arrival)
      → WellFormed (serve rs (new_session_limiter num rps burst max))
  new-serve-WellFormed rps burst max rs = serve-WellFormed rs _ (new-WellFormed rps burst max)
