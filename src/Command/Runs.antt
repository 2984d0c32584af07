-- ===== src/Command/Runs.antt =====
-- How run of cmd/mcp-gateway-lite/main.go can end.
use mcp_gateway_lite.Base.{
  true, false, Bytes, List, [], ◌∷◌, none, is_nil, ◌≡◌, refl, sym, subst, ◌⊎◌, inl, inr, ap, ◌∙◌,
  Bool-cases, Option-cases,
}
use mcp_gateway_lite.Config.Types.{Upstream, Config}
use mcp_gateway_lite.Config.{validate}
use mcp_gateway_lite.Config.Load.{Loaded, loaded_config, load_failed, load}
use mcp_gateway_lite.Audit.{Opened, auditor, open_failed, new_auditor}
use mcp_gateway_lite.Command.{
  Flags, FlagEnd, all_parsed, help, bad_flag, CommandLine, lock_init_called, Run, Surroundings,
  empty_config, set_all, merge_flags, serve_with, with_auditor, run_valid, run_config, with_loaded,
  run_flags, at_end, run,
}
use mcp_gateway_lite.Command.Settings.{
  Orderly, Combined, Given, merge_flags-Combined, set_all-Given,
}

module _ {F : Type 0} (w : Surroundings F) where
  -- The configuration that the flags are combined with: an empty one, or what Load gives.
  abbrev pub Origin : Flags → Config F → Type 0
  Origin f c =
      ((is_nil f.config_path ≡ true) × (c ≡ empty_config))
      ⊎ (load w.not_positive w.parse w.config_file f.config_path ≡ loaded_config c)

  -- The configuration that flags and upstreams give, once Validate has accepted it.
  pub record Accepted (f : Flags) (ups : List (Upstream F)) (c : Config F) : Type 0 where
    pub base : Config F
    pub origin : Origin f base
    pub combined : Config F
    pub is_combined : Combined f ups base combined
    pub accepted : (validate w.not_positive w.parse combined).0 ≡ none
    pub validated : c ≡ (validate w.not_positive w.parse combined).1

  -- The configuration of a command line, with its flags.
  pub record Served (line : CommandLine) (f : Flags) (c : Config F) : Type 0 where
    pub ups : List (Upstream F)
    pub parsed : line.end_of_flags ≡ all_parsed f
    pub given : Given line.upstream_values ups
    pub no_version : f.show_version ≡ false
    pub config : Accepted f ups c

  -- A run does nothing to the outside; or calls LockInit alone; or serves a configuration.
  abbrev pub Ends : (Flags → Config F → Type 0) → Run F → Type 0
  Ends P r =
      (r.events ≡ [])
      ⊎ ((f : Flags) × (c : Config F) × P f c
          × (f.lock_only ≡ true)
          × (r.events ≡ lock_init_called c f.lock_file ∷ []))
      ⊎ ((f : Flags) × (c : Config F) × P f c
          × (f.lock_only ≡ false)
          × (f.check_only ≡ false)
          × Orderly c r.events)

  Ends-map :
      {P Q : Flags → Config F → Type 0} {q r : Run F}
      → q ≡ r
      → ((f : Flags) (c : Config F) → P f c → Q f c)
      → Ends P r
      → Ends Q q
  Ends-map e h (inl quiet) = inl (ap (λ (x : Run F). x.events) e ∙ quiet)
  Ends-map e h (inr (inl (f, c, p, on, events))) =
      inr (inl (f, c, h f c p, on, ap (λ (x : Run F). x.events) e ∙ events))
  Ends-map e h (inr (inr (f, c, p, off, no_check, o))) =
      inr (inr (f, c, h f c p, off, no_check, subst (λ (x : Run F). Orderly c x.events) (sym e) o))

  serve_with-Orderly : (c : Config F) → Orderly c (serve_with w c).events
  unfolding serve_with
  serve_with-Orderly c = elim (Option-cases (w.build c)) [
    | inl e ↦ rw (serve_with, e) (refl, (refl, (refl, (refl, (tt, (tt, tt))))))
    | inr (x, e) ↦ rw (serve_with, e) (refl, (refl, (tt, tt)))
  ]

  with_auditor-events :
      (c : Config F) (o : Opened)
      → ((with_auditor w c o).events ≡ []) ⊎ Orderly c (with_auditor w c o).events
  with_auditor-events c (open_failed e) = inl refl
  with_auditor-events c (auditor a) = inr (serve_with-Orderly c)

  run_valid-Ends :
      (P : Flags → Config F → Type 0) (f : Flags) (c : Config F) → P f c → Ends P (run_valid w f c)
  unfolding run_valid
  run_valid-Ends P f c p = elim (Bool-cases f.lock_only) [
    | inl e ↦ inr (inl (f, c, p, e, simp (run_valid, e)))
    | inr e ↦ elim (Bool-cases f.check_only) [
      | inl g ↦ inl (simp (run_valid, e, g))
      | inr g ↦ elim (with_auditor-events c (new_auditor w.open_append c.audit.path)) [
        | inl q ↦ inl (simp (run_valid, e, g) q)
        | inr q ↦ inr (inr (f, c, p, e, g, simp (run_valid, e, g) q))
      ]
    ]
  ]

  run_config-Ends :
      (f : Flags) (ups : List (Upstream F)) (base : Config F)
      → Origin f base
      → Ends (λ g c. (g ≡ f) × Accepted f ups c) (run_config w f ups base)
  unfolding run_config
  run_config-Ends f ups base origin =
      let c = merge_flags f ups base in
      elim (Option-cases (validate w.not_positive w.parse c).0) [
        | inr (e, q) ↦ inl (rw (run_config, q) refl)
        | inl q ↦
            rw (run_config, q)
              (run_valid-Ends (λ g d. (g ≡ f) × Accepted f ups d) f
                (validate w.not_positive w.parse c).1
                (
                  refl,
                  record {
                    base = base;
                    origin = origin;
                    combined = c;
                    is_combined = merge_flags-Combined f ups base;
                    accepted = q;
                    validated = refl;
                  },
                ))
      ]

  with_loaded-Ends :
      (f : Flags) (ups : List (Upstream F)) (l : Loaded F)
      → load w.not_positive w.parse w.config_file f.config_path ≡ l
      → Ends (λ g c. (g ≡ f) × Accepted f ups c) (with_loaded w f ups l)
  with_loaded-Ends f ups (load_failed e) q = inl refl
  with_loaded-Ends f ups (loaded_config c) q = run_config-Ends f ups c (inr q)

  run_flags-Ends :
      (f : Flags) (ups : List (Upstream F))
      → Ends (λ g c. (g ≡ f) × (f.show_version ≡ false) × Accepted f ups c) (run_flags w f ups)
  unfolding run_flags
  run_flags-Ends f ups = elim (Bool-cases f.show_version) [
    | inl e ↦ inl (simp (run_flags, e))
    | inr e ↦ elim (Bool-cases (is_nil f.config_path)) [
      | inl g ↦
          Ends-map {q = run_flags w f ups} {r = run_config w f ups empty_config}
            (simp (run_flags, e, g)) (λ h c p. (p.0, e, p.1))
            (run_config-Ends f ups empty_config (inl (g, refl)))
      | inr g ↦
          let l = load w.not_positive w.parse w.config_file f.config_path in
          Ends-map {q = run_flags w f ups} {r = with_loaded w f ups l} (simp (run_flags, e, g))
            (λ h c p. (p.0, e, p.1)) (with_loaded-Ends f ups l refl)
    ]
  ]

  at_end-Ends :
      (line : CommandLine) (ups : List (Upstream F)) (end : FlagEnd)
      → Given line.upstream_values ups
      → line.end_of_flags ≡ end
      → Ends (Served line) (at_end w ups end)
  at_end-Ends line ups help s e = inl refl
  at_end-Ends line ups (bad_flag x) s e = inl refl
  at_end-Ends line ups (all_parsed f) s e =
      Ends-map {r = run_flags w f ups} refl
        (λ g c p.
          subst (λ (h : Flags). Served line h c) (sym p.0)
            (record { ups = ups; parsed = e; given = s; no_version = p.1; config = p.2 }))
        (run_flags-Ends f ups)

  -- On every command line, run does nothing to the audit log, the gateway, the upstreams and the files;
  -- or, with --lock-init, calls LockInit alone, with the lockfile of the flags; or, without --lock-init
  -- and --check, serves a configuration, or tries to open its log and to build a gateway for it: it
  -- closes what it opens, in reverse order, and listens only while the gateway is open. The
  -- configuration is in both cases one that Validate accepts: that of the file, or an empty one, with
  -- the upstreams of the flags behind its own and the flags' address and audit path where they are
  -- given, on a command line without --version.
  pub run-Ends :
      (bad : List Bytes → Bytes) (line : CommandLine) → Ends (Served line) (run w bad line)
  unfolding run
  run-Ends bad line = elim (Option-cases (set_all {F = F} [] line.upstream_values)) [
    | inl e ↦ inl (rw (run, e) refl)
    | inr (ups, e) ↦
        let (us, same_ups, given) = set_all-Given line.upstream_values [] ups e in
        rw (run, e)
          (at_end-Ends line ups line.end_of_flags
            (subst (Given line.upstream_values) (sym same_ups) given) refl)
  ]
