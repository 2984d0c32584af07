-- ===== src/Ratelimit/Table.antt =====
-- The table of gateway/ratelimit.go: its bound, and what an operation does to other sessions.
use mcp_gateway_lite.Base.{
  ℕ, ◌≤◌, ◌<◌, Bool, Bytes, same, same_iff, same_refl, [], ◌∷◌, none, some, leb, length, ◌≡◌, ◌≢◌,
  ◌↔◌, ◌⊎◌, inl, inr, refl, sym, subst, ◌∙◌, arith, Bool-cases, Option-cases,
}
use mcp_gateway_lite.Base.Dict.{
  Dict, lookup, insert, delete, lookup-insert, lookup-delete, length-insert, length-delete-le,
  length-delete-lt, insert-insert,
}
use mcp_gateway_lite.Base.Int.{ℤ}
use mcp_gateway_lite.Ratelimit.{
  Float64, TokenBucket, SessionLimiter, oldest_key, new_token_bucket, allow_bucket, evict, ensure,
  allow,
}
use mcp_gateway_lite.Ratelimit.Oldest.{
  lookup-here, oldest_key-listed, SeenFirst, oldest_key-SeenFirst,
}

-- A table within its bound, with a time for every bucket.
pub record WellFormed {F : Type 0} (l : SessionLimiter F) : Type 0 where
  pub room : 1 ≤ l.max
  pub bound : length l.buckets ≤ l.max
  pub timed : (k : Bytes) → (lookup k l.buckets ≡ none) ↔ (lookup k l.last_seen ≡ none)

-- Two tables with the same keys.
abbrev SameKeys : {V W : Type 0} → Dict V → Dict W → Type 0
SameKeys b m = (k : Bytes) → (lookup k b ≡ none) ↔ (lookup k m ≡ none)

delete-SameKeys :
    {V W : Type 0} (key : Bytes) (b : Dict V) (m : Dict W)
    → SameKeys b m
    → SameKeys (delete key b) (delete key m)
delete-SameKeys key b m h k =
    rw (lookup-delete key k b, lookup-delete key k m)
      (elim (Bool-cases (same key k)) [ inl e ↦ rw e (λ x. refl, λ x. refl) | inr e ↦ rw e (h k) ])

insert-SameKeys :
    {V W : Type 0} (key : Bytes) (v : V) (w : W) (b : Dict V) (m : Dict W)
    → SameKeys b m
    → SameKeys (insert key v b) (insert key w m)
insert-SameKeys key v w b m h k =
    rw (lookup-insert key k v b, lookup-insert key k w m)
      (elim (Bool-cases (same key k)) [
        | inl e ↦ rw e (λ x. absurd (cc x), λ x. absurd (cc x))
        | inr e ↦ rw e (h k)
      ])

module _ {F : Type 0} where
  abbrev pub Full : SessionLimiter F → Type 0
  Full l = l.max ≤ length l.buckets

  -- The table that a session's bucket is put into.
  unfoldable pub base : SessionLimiter F → Bytes → SessionLimiter F
  base l s = elim (lookup s l.buckets) [ some b ↦ l | none ↦ evict l ]

  -- The bucket that a session has, or a full one.
  unfoldable pub own : Float64 F → SessionLimiter F → Bytes → ℕ → TokenBucket F
  own num l s made = elim (lookup s l.buckets) [
    | some b ↦ b
    | none ↦ new_token_bucket num l.rps l.burst made
  ]

  nonempty-listed : (b : Dict (TokenBucket F)) → 1 ≤ length b → (k : Bytes) × ¬ (lookup k b ≡ none)
  nonempty-listed [] h = absurd (omega (arith, h))
  nonempty-listed ((k, v) ∷ b) h = (k, λ e. absurd (cc (e, lookup-here k v b)))

  evict-room : (l : SessionLimiter F) → WellFormed l → length (evict l).buckets < l.max
  unfolding evict
  evict-room l w = elim (Bool-cases (leb l.max (length l.buckets))) [
    | inr free ↦ rw free (ground (arith, free))
    | inl full ↦
        let (k, present) = nonempty-listed l.buckets (ground (arith, w.room, full)) in
        let gone = oldest_key-listed l.last_seen k (λ e. present ((w.timed k).1 e)) in
        elim (Option-cases (lookup (oldest_key l.last_seen) l.buckets)) [
          | inl e ↦ absurd (gone ((w.timed _).0 e))
          | inr (b, e) ↦
              rw full
                (omega (arith, w.bound, length-delete-lt (oldest_key l.last_seen) b l.buckets e))
        ]
  ]

  evict-WellFormed : (l : SessionLimiter F) → WellFormed l → WellFormed (evict l)
  unfolding evict
  evict-WellFormed l w = elim (Bool-cases (leb l.max (length l.buckets))) [
    | inr free ↦ rw free w
    | inl full ↦ rw full (record {
      room = w.room;
      bound = omega (arith, w.bound, length-delete-le (oldest_key l.last_seen) l.buckets);
      timed = delete-SameKeys (oldest_key l.last_seen) l.buckets l.last_seen w.timed;
    })
  ]

  base-WellFormed : (l : SessionLimiter F) (s : Bytes) → WellFormed l → WellFormed (base l s)
  unfolding base
  base-WellFormed l s w = elim (Option-cases (lookup s l.buckets)) [
    | inl e ↦ rw (e, base) (evict-WellFormed l w)
    | inr (b, e) ↦ rw (e, base) w
  ]

  base-max : (l : SessionLimiter F) (s : Bytes) → (base l s).max ≡ l.max
  unfolding base evict
  base-max l s = ground arith

  evict-max : (l : SessionLimiter F) → (evict l).max ≡ l.max
  unfolding evict
  evict-max l = ground arith

  base-room :
      (l : SessionLimiter F) (s : Bytes) (b : TokenBucket F)
      → WellFormed l
      → length (insert s b (base l s).buckets) ≤ (base l s).max
  unfolding base
  base-room l s b w = elim (Option-cases (lookup s l.buckets)) [
    | inl e ↦
        rw (e, base)
          (ground (arith, evict-room l w, evict-max l, length-insert s b (evict l).buckets))
    | inr (c, e) ↦ rw (e, base) (ground (arith, e, w.bound, length-insert s b l.buckets))
  ]

  module _ (num : Float64 F) (l : SessionLimiter F) (s : Bytes) (made seen t : ℕ) where
    abbrev answered : (Bool × ℤ) × TokenBucket F
    answered = allow_bucket num (own num l s made) t

    own-absent :
        lookup s l.buckets ≡ none → own num l s made ≡ new_token_bucket num l.rps l.burst made
    unfolding own
    own-absent e = rw (e, own) refl

    own-present : (b : TokenBucket F) → lookup s l.buckets ≡ some b → own num l s made ≡ b
    unfolding own
    own-present b e = rw (e, own) refl

    pub allow_lem : allow num l s made seen t ≡ (
      answered.0,
      record (base l s) {
        buckets = insert s answered.1 (base l s).buckets;
        last_seen = insert s seen (base l s).last_seen;
      },
    )
    unfolding allow base ensure
    allow_lem = elim (Option-cases (lookup s l.buckets)) [
      | inl e ↦
          rw
            (
              e,
              base,
              ensure,
              allow,
              lookup-insert s s (new_token_bucket num l.rps l.burst made) (evict l).buckets,
              same_refl s,
              insert-insert s,
            )
            (rw (own-absent e) refl)
      | inr (b, e) ↦ rw (e, base, ensure, allow, e, own-present b e) refl
    ]

    -- An operation keeps the table within its bound, with a time for every bucket.
    pub allow-WellFormed : WellFormed l → WellFormed (allow num l s made seen t).1
    allow-WellFormed w =
        let b = base-WellFormed l s w in
        rw allow_lem (record {
          room = b.room;
          bound = base-room l s answered.1 w;
          timed = insert-SameKeys s answered.1 seen (base l s).buckets (base l s).last_seen b.timed;
        })

    -- The answer to a session is its own bucket's, or a new full bucket's where it has none, and the
    -- table then holds that bucket with the token taken.
    pub allow-own :
        ((allow num l s made seen t).0 ≡ (allow_bucket num (own num l s made) t).0)
        × (lookup s (allow num l s made seen t).1.buckets
            ≡ some (allow_bucket num (own num l s made) t).1)
    allow-own =
        rw allow_lem (refl, lookup-insert s s answered.1 (base l s).buckets ∙ rw (same_refl s) refl)

    lookup-base :
        (k : Bytes)
        → WellFormed l
        → (lookup k (base l s).buckets ≡ lookup k l.buckets)
          ⊎ ((lookup s l.buckets ≡ none) × Full l × SeenFirst k l.last_seen)
    unfolding base evict
    lookup-base k w = elim (Option-cases (lookup s l.buckets)) [
      | inr (b, e) ↦ inl (rw (e, base) refl)
      | inl e ↦ elim (Bool-cases (leb l.max (length l.buckets))) [
        | inr free ↦ inl (rw (e, free, base, evict) refl)
        | inl full ↦ elim (Bool-cases (same (oldest_key l.last_seen) k)) [
          | inr kept ↦ inl (
              rw (e, full, base, evict, lookup-delete (oldest_key l.last_seen) k l.buckets, kept)
                refl)
          | inl gone ↦
              let (j, present) = nonempty-listed l.buckets (ground (arith, w.room, full)) in
              inr (
                e,
                ground (arith, full),
                subst (λ x. SeenFirst x l.last_seen) ((same_iff _ k).0 gone)
                    (oldest_key-SeenFirst l.last_seen j (λ x. present ((w.timed j).1 x))),
              )
        ]
      ]
    ]

    -- An operation for one session leaves the bucket of every other session alone, except that a
    -- session without a bucket in a full table evicts a session that no other was seen before.
    pub allow-others :
        (k : Bytes)
        → WellFormed l
        → k ≢ s
        → (lookup k (allow num l s made seen t).1.buckets ≡ lookup k l.buckets)
          ⊎ ((lookup s l.buckets ≡ none) × Full l × SeenFirst k l.last_seen)
    allow-others k w other =
        rw (allow_lem, lookup-insert s k answered.1 (base l s).buckets)
          (elim (Bool-cases (same s k)) [
            | inl e ↦ absurd (other (sym ((same_iff s k).0 e)))
            | inr e ↦ rw e (lookup-base k w)
          ])
