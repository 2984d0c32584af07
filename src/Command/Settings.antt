-- ===== src/Command/Settings.antt =====
-- What run of cmd/mcp-gateway-lite/main.go makes of its flags, and what it opens and closes.
use mcp_gateway_lite.Base.{
  Bytes, List, [], ◌∷◌, ◌++◌, append_assoc, append-nil, Option, none, some, All, ◌≡◌, ◌≢◌, refl,
  sym, ◌⊎◌, inl, inr, ◌∙◌, Option-cases,
}
use mcp_gateway_lite.Config.Types.{Upstream, Config}
use mcp_gateway_lite.Config.{parse_upstream_flag}
use mcp_gateway_lite.Command.{
  Flags, Event, lock_init_called, audit_opened, gateway_built, listening, gateway_closed,
  audit_closed, upstream_of, set_all, or_flag, merge_flags,
}

-- A flag that is not empty counts for the setting.
abbrev pub Setting : Bytes → Bytes → Bytes → Type 0
Setting flag old new = ((flag ≡ []) × (new ≡ old)) ⊎ ((flag ≢ []) × (new ≡ flag))

or_flag-Setting : (flag old : Bytes) → Setting flag old (or_flag flag old)
or_flag-Setting [] old = inl (refl, refl)
or_flag-Setting (c ∷ flag) old = inr (λ e. absurd (cc e), refl)

-- What is open.
pub data Resource : Type 0 where
  audit_log : Resource
  whole_gateway : Resource

abbrev pub Stack : Type 0
Stack = Option (List Resource)

module _ {F : Type 0} where
  -- The open resources behind an event, the last one first, or none where the event closes one that is
  -- not the last, or listens without a gateway.
  abbrev pub after_event : List Resource → Event F → Stack
  after_event held (audit_opened path) = some (audit_log ∷ held)
  after_event held (gateway_built c) = some (whole_gateway ∷ held)
  after_event (whole_gateway ∷ held) (listening address) = some (whole_gateway ∷ held)
  after_event (whole_gateway ∷ held) gateway_closed = some held
  after_event (audit_log ∷ held) audit_closed = some held
  after_event _ _ = none

  abbrev pub after_events : Stack → List (Event F) → Stack
  after_events none events = none
  after_events (some held) [] = some held
  after_events (some held) (e ∷ events) = after_events (after_event held e) events

  -- The event is one of serving the configuration.
  abbrev pub Serves : Config F → Event F → Type 0
  Serves c (lock_init_called d path) = ⊥
  Serves c (audit_opened path) = path ≡ c.audit.path
  Serves c (gateway_built d) = d ≡ c
  Serves c (listening address) = address ≡ c.listen
  Serves c gateway_closed = Unit
  Serves c audit_closed = Unit

  -- The events are of serving the configuration; what is opened is closed, in reverse order, and
  -- nothing else, and the server listens only while a gateway is open.
  abbrev pub Orderly : Config F → List (Event F) → Type 0
  Orderly c events = (after_events (some []) events ≡ some []) × All (Serves c) events

  -- A configuration with the flags' upstreams behind its own, and the flags' address and audit path
  -- where they are given.
  pub record Combined (f : Flags) (ups : List (Upstream F)) (base c : Config F) : Type 0 where
    pub upstreams : c.upstreams ≡ base.upstreams ++ ups
    pub listen : Setting f.listen base.listen c.listen
    pub audit : Setting f.audit_path base.audit.path c.audit.path
    pub public_base_url : c.public_base_url ≡ base.public_base_url

  -- Each value of --upstream gives an upstream with its name and URL and nothing else.
  abbrev pub Given : List Bytes → List (Upstream F) → Type 0
  Given [] [] = Unit
  Given [] (u ∷ us) = ⊥
  Given (v ∷ vs) [] = ⊥
  Given (v ∷ vs) (u ∷ us) =
      ((p : Bytes × Bytes) × (parse_upstream_flag v ≡ some p) × (u ≡ upstream_of p)) × Given vs us

  pub merge_flags-Combined :
      (f : Flags) (ups : List (Upstream F)) (base : Config F)
      → Combined f ups base (merge_flags f ups base)
  unfolding merge_flags
  merge_flags-Combined f ups base = record {
    upstreams = refl;
    listen = or_flag-Setting f.listen base.listen;
    audit = or_flag-Setting f.audit_path base.audit.path;
    public_base_url = refl;
  }

  pub set_all-Given :
      (vs : List Bytes) (acc ups : List (Upstream F))
      → set_all acc vs ≡ some ups
      → (us : List (Upstream F)) × (ups ≡ acc ++ us) × Given vs us
  unfolding set_all
  set_all-Given [] acc ups e = ([], cc e ∙ sym (append-nil acc), tt)
  set_all-Given (v ∷ vs) acc ups e = elim (Option-cases (parse_upstream_flag v)) [
    | inl n ↦ absurd (cc (rw (set_all, n) at e))
    | inr (p, q) ↦
        let (us, all_of, given) =
          set_all-Given vs (acc ++ upstream_of p ∷ []) ups (rw (set_all, q) at e) in
        (
          upstream_of p ∷ us,
          all_of ∙ append_assoc acc (upstream_of p ∷ []) us,
          ((p, q, refl), given),
        )
  ]
