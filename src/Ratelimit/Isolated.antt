-- ===== src/Ratelimit/Isolated.antt =====
-- A session limiter of gateway/ratelimit.go against its specification: every session has a bucket of its
-- own, as if it were alone.
use mcp_gateway_lite.Base.{
  ℕ, ◌≤◌, Bool, true, false, Bytes, same, same_iff, same_refl, List, [], ◌∷◌, Option, none, some,
  leb, length, ◌||◌, if◌then◌else◌, ◌≡◌, ◌↔◌, inl, inr, refl, sym, ap, subst, ◌∙◌, arith,
  Bool-cases, Option-cases,
}
use mcp_gateway_lite.Base.Dict.{lookup, insert, lookup-insert, length-insert}
use mcp_gateway_lite.Base.Int.{ℤ}
use mcp_gateway_lite.PromptProof.{contains_string}
use mcp_gateway_lite.Ratelimit.{
  Float64, TokenBucket, SessionLimiter, new_token_bucket, allow_bucket, new_session_limiter, evict,
  allow,
}
use mcp_gateway_lite.Ratelimit.Table.{base, own, allow_lem, allow-own}
use mcp_gateway_lite.Ratelimit.Runs.{Arrival}

-- The sessions of a run, each once, added to those seen before.
abbrev add_session : List Bytes → Bytes → List Bytes
add_session seen s = if contains_string seen s then seen else s ∷ seen

abbrev pub sessions : List Bytes → List Arrival → List Bytes
sessions seen [] = seen
sessions seen (r ∷ rs) = sessions (add_session seen r.session) rs

contains-add_session :
    (seen : List Bytes) (s k : Bytes)
    → contains_string (add_session seen s) k ≡ (same s k || contains_string seen k)
unfolding contains_string
contains-add_session seen s k = elim (Bool-cases (contains_string seen s)) [
  | inr e ↦ rw e refl
  | inl e ↦ elim (Bool-cases (same s k)) [
    | inr d ↦ rw (e, d) refl
    | inl d ↦
        rw (e, d) (subst (λ (x : Bytes). contains_string seen x ≡ true) ((same_iff s k).0 d) e)
  ]
]

module _ {F : Type 0} (num : Float64 F) where
  -- The answers that a run on a limiter gives to a session.
  unfoldable pub answers_of : Bytes → List Arrival → SessionLimiter F → List (Bool × ℤ)
  answers_of s [] l = []
  answers_of s (r ∷ rs) l =
      let answered = allow num l r.session r.made r.seen r.t in
      let rest = answers_of s rs answered.1 in if same r.session s then answered.0 ∷ rest else rest

  abbrev own_bucket : F → ℤ → ℕ → Option (TokenBucket F) → TokenBucket F
  own_bucket rps burst made none = new_token_bucket num rps burst made
  own_bucket rps burst made (some b) = b

  -- The specification: the answers of a bucket that only this session draws from, made full at its
  -- first request.
  unfoldable pub answers_alone :
      F → ℤ → Bytes → List Arrival → Option (TokenBucket F) → List (Bool × ℤ)
  answers_alone rps burst s [] bucket = []
  answers_alone rps burst s (r ∷ rs) bucket =
      let answered = allow_bucket num (own_bucket rps burst r.made bucket) r.t in
      elim (same r.session s) [
        | true ↦ answered.0 ∷ answers_alone rps burst s rs (some answered.1)
        | false ↦ answers_alone rps burst s rs bucket
      ]

  -- The table has a bucket for exactly the sessions seen.
  record Tracks (rps : F) (burst : ℤ) (max : ℕ) (seen : List Bytes) (l : SessionLimiter F)
      : Type 0 where
    same_rps : l.rps ≡ rps
    same_burst : l.burst ≡ burst
    same_max : l.max ≡ max
    count : length l.buckets ≡ length seen
    keys : (k : Bytes) → (lookup k l.buckets ≡ none) ↔ (contains_string seen k ≡ false)

  length-sessions-le :
      (seen : List Bytes) (rs : List Arrival) → length seen ≤ length (sessions seen rs)
  length-sessions-le seen [] = omega arith
  length-sessions-le seen (r ∷ rs) =
      ground (arith, length-sessions-le (add_session seen r.session) rs)

  module _ {rps : F} {burst : ℤ} {max : ℕ} (seen : List Bytes) (l : SessionLimiter F)
      (w : Tracks rps burst max seen l) where
    -- With room for every session nothing is evicted.
    base-kept : (s : Bytes) → length (add_session seen s) ≤ max → base l s ≡ l
    unfolding base evict
    base-kept s fits = elim (Option-cases (lookup s l.buckets)) [
      | inr (b, e) ↦ rw (base, e) refl
      | inl e ↦ rw (base, e, evict, room e) refl
    ]
      where
        room : lookup s l.buckets ≡ none → leb l.max (length l.buckets) ≡ false
        room e = ground (arith, w.count, w.same_max, fits, (w.keys s).0 e)

    insert-count :
        (s : Bytes) (b : TokenBucket F)
        → length (insert s b l.buckets) ≡ length (add_session seen s)
    insert-count s b = elim (Option-cases (lookup s l.buckets)) [
      | inl e ↦ ground (arith, w.count, (w.keys s).0 e, length-insert s b l.buckets, e)
      | inr (c, e) ↦ elim (Bool-cases (contains_string seen s)) [
        | inl x ↦ ground (arith, w.count, x, length-insert s b l.buckets, e)
        | inr x ↦ absurd (cc ((w.keys s).1 x, e))
      ]
    ]

    insert-keys :
        (s : Bytes) (b : TokenBucket F) (k : Bytes)
        → (lookup k (insert s b l.buckets) ≡ none)
          ↔ (contains_string (add_session seen s) k ≡ false)
    unfolding contains_string
    insert-keys s b k = rw (lookup-insert s k b l.buckets) (elim (Bool-cases (same s k)) [
      | inl e ↦
          rw (e, contains-add_session seen s k, e)
            (λ x. absurd (ground (arith, x)), λ x. absurd (ground (arith, x)))
      | inr e ↦ rw (e, contains-add_session seen s k, e) (w.keys k)
    ])

    step-Tracks :
        (r : Arrival)
        → length (add_session seen r.session) ≤ max
        → Tracks rps burst max
            (add_session seen r.session)
            (allow num l r.session r.made r.seen r.t).1
    step-Tracks r fits =
        rw (allow_lem num l r.session r.made r.seen r.t, base-kept r.session fits)
          (record {
            same_rps = w.same_rps;
            same_burst = w.same_burst;
            same_max = w.same_max;
            count = insert-count r.session _;
            keys = insert-keys r.session _;
          })

  own-own_bucket :
      (l : SessionLimiter F) (s : Bytes) (made : ℕ)
      → own num l s made ≡ own_bucket l.rps l.burst made (lookup s l.buckets)
  unfolding own
  own-own_bucket l s made = elim (Option-cases (lookup s l.buckets)) [
    | inl e ↦ rw (own, e) refl
    | inr (b, e) ↦ rw (own, e) refl
  ]

  alone-mine :
      (rps : F) (burst : ℤ) (rs : List Arrival) (r : Arrival) (b : Option (TokenBucket F))
      → answers_alone rps burst r.session (r ∷ rs) b
        ≡ (allow_bucket num (own_bucket rps burst r.made b) r.t).0
          ∷ answers_alone rps burst r.session rs
              (some (allow_bucket num (own_bucket rps burst r.made b) r.t).1)
  unfolding answers_alone
  alone-mine rps burst rs r b = rw (answers_alone, same_refl r.session) refl

  alone-other :
      (rps : F) (burst : ℤ) (s : Bytes) (rs : List Arrival) (r : Arrival)
      (b : Option (TokenBucket F))
      → same r.session s ≡ false
      → answers_alone rps burst s (r ∷ rs) b ≡ answers_alone rps burst s rs b
  unfolding answers_alone
  alone-other rps burst s rs r b e = rw (answers_alone, e) refl

  module _ (rs : List Arrival) (r : Arrival) (l : SessionLimiter F) where
    abbrev after : SessionLimiter F
    after = (allow num l r.session r.made r.seen r.t).1

    -- A request of the session itself.
    answers_of-mine :
        (rps : F) (burst : ℤ)
        → l.rps ≡ rps
        → l.burst ≡ burst
        → answers_of r.session rs after
          ≡ answers_alone rps burst r.session rs (lookup r.session after.buckets)
        → answers_of r.session (r ∷ rs) l
          ≡ answers_alone rps burst r.session (r ∷ rs) (lookup r.session l.buckets)
    unfolding answers_of
    answers_of-mine rps burst p q ih =
        let (answer, kept) = allow-own num l r.session r.made r.seen r.t in
        rw (same_refl r.session, ih, answer, kept, own-own_bucket l r.session r.made, p, q)
          (sym (alone-mine rps burst rs r (lookup r.session l.buckets)))

    -- A request of another session.
    answers_of-other :
        (rps : F) (burst : ℤ) (s : Bytes)
        → same r.session s ≡ false
        → base l r.session ≡ l
        → answers_of s rs after ≡ answers_alone rps burst s rs (lookup s after.buckets)
        → answers_of s (r ∷ rs) l ≡ answers_alone rps burst s (r ∷ rs) (lookup s l.buckets)
    unfolding answers_of
    answers_of-other rps burst s e kept ih =
        rw (e, ih)
          (ap (answers_alone rps burst s rs) same_bucket
            ∙ sym (alone-other rps burst s rs r (lookup s l.buckets) e))
      where
        drawn : TokenBucket F
        drawn = (allow_bucket num (own num l r.session r.made) r.t).1

        same_bucket : lookup s after.buckets ≡ lookup s l.buckets
        same_bucket =
            ap (λ (x : (Bool × ℤ) × SessionLimiter F). lookup s x.1.buckets)
              (allow_lem num l r.session r.made r.seen r.t)
            ∙ rw (lookup-insert r.session s drawn (base l r.session).buckets, e, kept) refl

  -- From any table that tracks the sessions seen.
  answers_of-tracked :
      {rps : F} {burst : ℤ} {max : ℕ} (s : Bytes) (rs : List Arrival) (seen : List Bytes)
      (l : SessionLimiter F)
      → Tracks rps burst max seen l
      → length (sessions seen rs) ≤ max
      → answers_of s rs l ≡ answers_alone rps burst s rs (lookup s l.buckets)
  unfolding answers_of answers_alone
  answers_of-tracked s [] seen l w fits = refl
  answers_of-tracked {rps} {burst} {max} s (r ∷ rs) seen l w fits =
      let room : length (add_session seen r.session) ≤ max =
        omega (arith, fits, length-sessions-le (add_session seen r.session) rs) in
      let ih =
        answers_of-tracked s rs (add_session seen r.session) _ (step-Tracks seen l w r room) fits in
      elim (Bool-cases (same r.session s)) [
        | inr e ↦ answers_of-other rs r l rps burst s e (base-kept seen l w r.session room) ih
        | inl e ↦
            let mine : r.session ≡ s = (same_iff r.session s).0 e in
            subst
              (λ (x : Bytes).
                answers_of x rs (after rs r l)
                  ≡ answers_alone rps burst x rs (lookup x (after rs r l).buckets)
                → answers_of x (r ∷ rs) l ≡ answers_alone rps burst x (r ∷ rs) (lookup x l.buckets))
              mine (answers_of-mine rs r l rps burst w.same_rps w.same_burst) ih
      ]

  new-Tracks :
      (rps : F) (burst : ℤ) (max : ℤ)
      → Tracks rps burst
          (new_session_limiter num rps burst max).max
          []
          (new_session_limiter num rps burst max)
  unfolding new_session_limiter lookup contains_string
  new-Tracks rps burst max = record {
    same_rps = refl;
    same_burst = refl;
    same_max = refl;
    count = refl;
    keys = λ k. (λ e. refl, λ e. refl);
  }

  -- A session limiter refines a bucket for each session: over any run of requests with no more sessions
  -- than the table holds, it answers each session as a bucket does that only this session draws from,
  -- and that is made full at the session's first request.
  pub answers_of-alone :
      (rps : F) (burst max : ℤ) (rs : List Arrival) (s : Bytes)
      → length (sessions [] rs) ≤ (new_session_limiter num rps burst max).max
      → answers_of s rs (new_session_limiter num rps burst max) ≡ answers_alone rps burst s rs none
  unfolding new_session_limiter lookup
  answers_of-alone rps burst max rs s fits =
      answers_of-tracked s rs [] _ (new-Tracks rps burst max) fits
