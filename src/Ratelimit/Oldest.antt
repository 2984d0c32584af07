-- ===== src/Ratelimit/Oldest.antt =====
-- The session that gateway/ratelimit.go evicts: the loop over the times of the last requests.
use mcp_gateway_lite.Base.{
  ℕ, ◌≤◌, Bytes, same, same_iff, same_refl, [], ◌∷◌, Option, none, some, ltb, All, ◌≡◌, ◌⊎◌, inl,
  inr, refl, sym, ap, subst, arith, Bool-cases,
}
use mcp_gateway_lite.Base.Dict.{Dict, lookup}
use mcp_gateway_lite.Ratelimit.{oldest, oldest_key}

pub lookup-here : {V : Type 0} (k : Bytes) (v : V) (m : Dict V) → lookup k ((k, v) ∷ m) ≡ some v
unfolding lookup
lookup-here k v m = rw (same_refl k) refl

lookup-there :
    {V : Type 0} (j k : Bytes) (v : V) (m : Dict V)
    → (k ≡ j) ⊎ (¬ (lookup k m ≡ none))
    → ¬ (lookup k ((j, v) ∷ m) ≡ none)
unfolding lookup
lookup-there j k v m (inl e) n = absurd (cc (n, (same_iff j k).1 (sym e)))
lookup-there j k v m (inr h) n = elim (Bool-cases (same j k)) [
  | inl e ↦ absurd (cc (n, e))
  | inr e ↦ h (rw e at n)
]

-- The entry stands in the table.
abbrev pub Among : Bytes × ℕ → Dict ℕ → Type 0
Among p [] = ⊥
Among p (q ∷ m) = (p ≡ q) ⊎ Among p m

-- The session is in the table with a time that no entry is before.
abbrev pub SeenFirst : Bytes → Dict ℕ → Type 0
SeenFirst k m = (t : ℕ) × Among (k, t) m × All (λ p. t ≤ p.1) m

-- What the loop finds: an entry that is no younger than any other.
record Found (best : Bytes × ℕ) (m : Dict ℕ) : Type 0 where
  found : Bytes × ℕ
  is_found : oldest (some best) m ≡ some found
  before_best : found.1 ≤ best.1
  before_all : All (λ p. found.1 ≤ p.1) m
  listed : (found ≡ best) ⊎ (¬ (lookup found.0 m ≡ none))
  among : Among found (best ∷ m)

oldest-Found : (m : Dict ℕ) (best : Bytes × ℕ) → Found best m
unfolding oldest lookup
oldest-Found [] best = record {
  found = best;
  is_found = refl;
  before_best = omega arith;
  before_all = tt;
  listed = inl refl;
  among = inl refl;
}
oldest-Found ((s, seen) ∷ m) (o, t) = elim (Bool-cases (ltb seen t)) [
  | inl e ↦
      let r = oldest-Found m (s, seen) in
      record {
        found = r.found;
        is_found = rw e r.is_found;
        before_best = ground (arith, r.before_best);
        before_all = (r.before_best, r.before_all);
        listed = inr (
            lookup-there s r.found.0 seen m
              (elim r.listed [ inl x ↦ inl (ap (λ p. p.0) x) | inr n ↦ inr n ]));
        among = inr r.among;
      }
  | inr e ↦
      let r = oldest-Found m (o, t) in
      record {
        found = r.found;
        is_found = rw e r.is_found;
        before_best = r.before_best;
        before_all = (ground (arith, r.before_best), r.before_all);
        listed = elim r.listed [
          | inl x ↦ inl x
          | inr n ↦ inr (lookup-there s r.found.0 seen m (inr n))
        ];
        among = elim r.among [ inl x ↦ inl x | inr h ↦ inr (inr h) ];
      }
]

key_of : Option (Bytes × ℕ) → Bytes
key_of o = elim o [ none ↦ [] | some p ↦ p.0 ]

-- The key that is evicted is in the table.
pub oldest_key-listed :
    (m : Dict ℕ) (k : Bytes) → ¬ (lookup k m ≡ none) → ¬ (lookup (oldest_key m) m ≡ none)
unfolding oldest lookup key_of
oldest_key-listed [] k n = n
oldest_key-listed ((s, seen) ∷ m) k n =
    let r = oldest-Found m (s, seen) in
    let is_key = ap key_of r.is_found in
    subst (λ key. ¬ (lookup key ((s, seen) ∷ m) ≡ none)) (sym is_key)
      (lookup-there s r.found.0 seen m
        (elim r.listed [ inl x ↦ inl (ap (λ p. p.0) x) | inr h ↦ inr h ]))

pub oldest_key-SeenFirst :
    (m : Dict ℕ) (k : Bytes) → ¬ (lookup k m ≡ none) → SeenFirst (oldest_key m) m
unfolding oldest lookup key_of
oldest_key-SeenFirst [] k n = absurd (n refl)
oldest_key-SeenFirst ((s, seen) ∷ m) k n =
    let r = oldest-Found m (s, seen) in
    subst (λ key. SeenFirst key ((s, seen) ∷ m)) (sym (ap key_of r.is_found))
      (r.found.1, r.among, (r.before_best, r.before_all))
