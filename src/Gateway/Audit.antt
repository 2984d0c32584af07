-- ===== src/Gateway/Audit.antt =====
-- What every request leaves in the audit log, and which requests reach an upstream, by
-- gateway/gateway.go.
use mcp_gateway_lite.Base.{
  ℕ, ◌+◌, true, Bytes, List, [], ◌∷◌, ◌++◌, Option, none, some, is_nil, ◌≡◌, ◌⊎◌, inl, inr, refl,
  ap, ◌∙◌, false, ◌==◌, if◌then◌else◌, arith, Bool-cases, Option-cases,
}
use mcp_gateway_lite.Base.Dict.{lookup}
use mcp_gateway_lite.Codec.{Codec}
use mcp_gateway_lite.Config.Types.{Upstream}
use mcp_gateway_lite.Policy.{block_reason}
use mcp_gateway_lite.Ratelimit.{Float64}
use mcp_gateway_lite.Rewrite.{RewriteState}
use mcp_gateway_lite.Rpc.{RpcSummary}
use mcp_gateway_lite.Gateway.{name_of, with_rewrite, peek, rewrite_state}
use mcp_gateway_lite.Gateway.Types.{Entry, Request, Reply, Gateway, State, Clock}
use mcp_gateway_lite.Gateway.Handler.{
  Backend, logged, limited, target_path, proxied, proxied_entry, forward_request, peeked_entry,
  admit, handle_proxy, write_header, write_headers, recorded_status,
}

abbrev first_nonzero : List ℕ → ℕ
first_nonzero [] = 0
first_nonzero (c ∷ cs) = if c == 0 then first_nonzero cs else c

-- An entry of the request with the status of the reply, or the first informational code before it. (A
-- code 0 counts as none, and where there is no other, the status is 200.)
pub record Tells (r : Request) (reply : Reply) (e : Entry) : Type 0 where
  pub status : e.status ≡ first_nonzero (reply.informational ++ reply.status ∷ 200 ∷ [])
  pub path : e.path ≡ r.path
  pub remote : e.remote ≡ r.remote
  pub http_method : e.http_method ≡ r.http_method

module _ {F : Type 0} (codec : Codec) (num : Float64 F) (back : Backend) (g : Gateway F) where
  -- The reply is whole, and one entry is added, which tells of the request and the reply; or an
  -- upstream was called and its answer was broken off, and no entry is added.
  abbrev pub Logged : Bytes → Request → State F → Reply × State F → Type 0
  Logged name r s x =
      ((x.0.whole ≡ true) × (e : Entry) × (x.1.log ≡ s.log ++ e ∷ []) × Tells r x.0 e)
      ⊎ ((x.0.whole ≡ false) × (x.1.called ≡ s.called ++ name ∷ []) × (x.1.log ≡ s.log))

  limited-keeps :
      (name : Bytes) (r : Request) (clock : Clock) (s : State F)
      → ((limited codec num back name r clock s).1.log ≡ s.log)
        × ((limited codec num back name r clock s).1.called ≡ s.called)
  unfolding limited
  limited-keeps name r clock s = elim (Option-cases (lookup name s.session_limits)) [
    | inr (l, e) ↦ rw (limited, e) (refl, refl)
    | inl e ↦ elim (Option-cases (lookup name s.limits)) [
      | inr (b, f) ↦ rw (limited, e, f) (refl, refl)
      | inl f ↦ rw (limited, e, f) (refl, refl)
    ]
  ]

  write_headers-first :
      (w : ℕ) (cs : List ℕ) (reply : Reply)
      → (if write_header (write_headers w cs) reply.status == 0
          then 200
          else write_header (write_headers w cs) reply.status)
        ≡ first_nonzero (w ∷ cs ++ reply.status ∷ 200 ∷ [])
  unfolding write_headers write_header
  write_headers-first w [] reply = ground arith
  write_headers-first w (c ∷ cs) reply = elim (Bool-cases (w == 0)) [
    | inl e ↦ rw e (write_headers-first c cs reply)
    | inr e ↦ rw e (write_headers-first w cs reply ∙ rw e refl)
  ]

  recorded_status-first :
      (reply : Reply)
      → recorded_status reply ≡ first_nonzero (reply.informational ++ reply.status ∷ 200 ∷ [])
  unfolding recorded_status
  recorded_status-first reply = write_headers-first 0 reply.informational reply

  with_rewrite-Tells :
      (r : Request) (reply : Reply) (rw : Option RewriteState) (e : Entry)
      → Tells r reply e
      → Tells r reply (with_rewrite rw e)
  with_rewrite-Tells r reply none e t = t
  with_rewrite-Tells r reply (some rw) e t = record {
    status = t.status;
    path = t.path;
    remote = t.remote;
    http_method = t.http_method;
  }

  proxied_entry-Tells :
      (r : Request) (e : Entry) (sum : RpcSummary) (n : ℕ) (d : Reply × Bytes × Option RewriteState)
      → e.path ≡ r.path
      → e.remote ≡ r.remote
      → e.http_method ≡ r.http_method
      → Tells r d.0 (proxied_entry codec num back e sum n d)
  unfolding proxied_entry
  proxied_entry-Tells r e sum n (reply, err, rw) p q m =
      with_rewrite-Tells r reply rw _
        (record { status = recorded_status-first reply; path = p; remote = q; http_method = m })

  -- Where the upstream is called, it is for a request that the policy does not block.
  abbrev pub Calls : Bytes → Request → State F → State F → Type 0
  Calls name r s after =
      (after.called ≡ s.called)
      ⊎ ((after.called ≡ s.called ++ name ∷ [])
          × (block_reason (lookup name g.policies) (peek codec r.body).0 ≡ []))

  empty_string : (x : Bytes) → is_nil x ≡ true → x ≡ []
  empty_string [] e = refl
  empty_string (c ∷ x) e = absurd (cc e)

  forward_request-Logged :
      (name : Bytes) (u : Upstream F) (r : Request) (e : Entry) (sum : RpcSummary) (n : ℕ)
      (s : State F)
      → e.path ≡ r.path
      → e.remote ≡ r.remote
      → e.http_method ≡ r.http_method
      → Logged name r s (forward_request codec num back g name u r e sum n s)
  unfolding forward_request
  forward_request-Logged name u r e sum n s p q m =
      let x =
        back.forward name (target_path codec num back (back.path_of_url u.url) name r.path)
          r.body in
      let done = proxied codec num back x (
        rewrite_state (lookup name g.policies) (lookup name g.locks) (lookup name g.scanners)
          sum) in
      let entry = proxied_entry codec num back e sum (n + x.extra_in) done in
      elim (Bool-cases done.0.whole) [
        | inl w ↦
            rw (forward_request, w)
              (inl (w, entry, refl, proxied_entry-Tells r e sum (n + x.extra_in) done p q m))
        | inr w ↦ rw (forward_request, w) (inr (w, refl, refl))
      ]

  called-forward :
      (name : Bytes) (u : Upstream F) (r : Request) (e : Entry) (sum : RpcSummary) (n : ℕ)
      (s : State F)
      → (forward_request codec num back g name u r e sum n s).1.called ≡ s.called ++ name ∷ []
  unfolding forward_request
  called-forward name u r e sum n s =
      let x =
        back.forward name (target_path codec num back (back.path_of_url u.url) name r.path)
          r.body in
      let done = proxied codec num back x (
        rewrite_state (lookup name g.policies) (lookup name g.locks) (lookup name g.scanners)
          sum) in
      elim (Bool-cases done.0.whole) [
        | inl w ↦ rw (forward_request, w) refl
        | inr w ↦ rw (forward_request, w) refl
      ]

  admit-Logged :
      (name : Bytes) (u : Upstream F) (r : Request) (s : State F)
      → Logged name r s (admit codec num back g name u r s)
        × Calls name r s (admit codec num back g name u r s).1
  unfolding admit
  admit-Logged name u r s =
      elim (Bool-cases (is_nil (block_reason (lookup name g.policies) (peek codec r.body).0))) [
        | inl e ↦
            let entry = peeked_entry codec num back name r in
            let (sum, n) = peek codec r.body in
            rw (admit, e)
              (
                forward_request-Logged name u r entry sum n s refl refl refl,
                inr (called-forward name u r entry sum n s, empty_string _ e),
              )
        | inr e ↦
            rw (admit, e)
              (
                inl (
                  refl,
                  _,
                  refl,
                  record { status = refl; path = refl; remote = refl; http_method = refl },
                ),
                inl refl,
              )
      ]

  -- What holds of a step from a state holds of it from one with the same log and the same calls.
  from_same :
      (name : Bytes) (r : Request) (s t : State F) (x : Reply × State F)
      → t.log ≡ s.log
      → t.called ≡ s.called
      → Logged name r t x × Calls name r t x.1
      → Logged name r s x × Calls name r s x.1
  from_same name r s t (reply, after) same_log same_called (log, calls) = (
    elim log [
      | inl (w, e, added, tells) ↦
          inl (w, e, added ∙ ap (λ (l : List Entry). l ++ e ∷ []) same_log, tells)
      | inr (w, c, added) ↦
          inr (w, c ∙ ap (λ (l : List Bytes). l ++ name ∷ []) same_called, added ∙ same_log)
    ],
    elim calls [
      | inl quiet ↦ inl (quiet ∙ same_called)
      | inr c ↦ inr (c.0 ∙ ap (λ (l : List Bytes). l ++ name ∷ []) same_called, c.1)
    ],
  )

  logged-Logged :
      (name : Bytes) (r : Request) (s t : State F) (e : Entry) (reply : Reply)
      → t.log ≡ s.log
      → t.called ≡ s.called
      → reply.whole ≡ true
      → Tells r reply e
      → Logged name r s (logged e reply t) × Calls name r s (logged e reply t).1
  logged-Logged name r s t e reply same_log same_called whole tells =
      from_same name r s t (logged e reply t) same_log same_called
        (inl (whole, e, refl, tells), inl refl)

  handle_proxy-both :
      (r : Request) (clock : Clock) (s : State F)
      → Logged (name_of r) r s (handle_proxy codec num back g r clock s)
        × Calls (name_of r) r s (handle_proxy codec num back g r clock s).1
  unfolding handle_proxy
  handle_proxy-both r clock s =
      let (same_log, same_called) = limited-keeps (name_of r) r clock s in
      let after = (limited codec num back (name_of r) r clock s).1 in
      elim (Option-cases (lookup (name_of r) g.upstreams)) [
        | inl e ↦
            rw (handle_proxy, e)
              (
                inl (
                  refl,
                  _,
                  refl,
                  record { status = refl; path = refl; remote = refl; http_method = refl },
                ),
                inl refl,
              )
        | inr (u, e) ↦ elim (Bool-cases (limited codec num back (name_of r) r clock s).0.0) [
          | inl allowed ↦
              rw (handle_proxy, e, allowed)
                (from_same (name_of r) r s after (admit codec num back g (name_of r) u r after)
                  same_log same_called (admit-Logged (name_of r) u r after))
          | inr spent ↦
              rw (handle_proxy, e, spent)
                (logged-Logged (name_of r) r s after _ _ same_log same_called refl
                  (record { status = refl; path = refl; remote = refl; http_method = refl }))
        ]
      ]

  -- Every request under /mcp/ whose reply comes to its end gets exactly one audit entry, with the path,
  -- the address and the method of the request and the first status code that the client gets, whether
  -- it names no upstream, is over the rate limit, is blocked by the policy, is forwarded, or fails at
  -- the upstream. The first code is that of the reply, except where the upstream sends an informational
  -- one before it. A reply that is broken off, which is one of an upstream that was called, gets none.
  pub handle_proxy-Logged :
      (r : Request) (clock : Clock) (s : State F)
      → Logged (name_of r) r s (handle_proxy codec num back g r clock s)
  handle_proxy-Logged r clock s = (handle_proxy-both r clock s).0

  -- A request calls at most one upstream, the one that its path names, once, and only if the
  -- upstream's policy finds no reason to block what the request's body calls.
  pub handle_proxy-Calls :
      (r : Request) (clock : Clock) (s : State F)
      → Calls (name_of r) r s (handle_proxy codec num back g r clock s).1
  handle_proxy-Calls r clock s = (handle_proxy-both r clock s).1
