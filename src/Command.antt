-- ===== src/Command.antt =====
-- cmd/mcp-gateway-lite/main.go: run, from the parsed command line to its end. The package flag, the
-- files, the gateway's construction and the server are parameters.
pub mod Settings
pub mod Runs
use mcp_gateway_lite.Base.{
  Bool, true, false, Bytes, codes, List, [], ◌∷◌, ◌++◌, Option, none, some, is_nil, if◌then◌else◌,
  length,
}
use mcp_gateway_lite.Base.Int.{pos, itoa}
use mcp_gateway_lite.Config.Types.{Upstream, Config}
use mcp_gateway_lite.Config.{ParsedUrl, ConfigError, validate, parse_upstream_flag}
use mcp_gateway_lite.Config.Load.{ConfigFile, LoadError, Loaded, loaded_config, load_failed, load}
use mcp_gateway_lite.Audit.{Auditor, Opened, auditor, open_failed, new_auditor}
use mcp_gateway_lite.Gateway.Build.{BuildError, Built, built, build_failed}
use mcp_gateway_lite.Lock.Prepare.{LockFile}
use mcp_gateway_lite.Lock.Init.{
  InitWorld, InitError, InitRun, Outcome, done, init_failed, lock_init,
}

pub record Flags : Type 0 where
  pub config_path : Bytes
  pub listen : Bytes
  pub audit_path : Bytes
  pub show_version : Bool
  pub check_only : Bool
  pub lock_only : Bool
  pub lock_file : Bytes

pub data FlagEnd : Type 0 where
  all_parsed : Flags → FlagEnd
  help : FlagEnd
  bad_flag : Bytes → FlagEnd

-- What the package flag meets on a command line: the values of --upstream, up to the end.
pub record CommandLine : Type 0 where
  pub upstream_values : List Bytes
  pub end_of_flags : FlagEnd

pub data RunError : Type 0 where
  bad_upstream : Bytes → RunError
  bad_command : Bytes → RunError
  not_loaded : LoadError → RunError
  bad_configuration : ConfigError → RunError
  not_locked : InitError → RunError
  no_audit : Bytes → RunError
  not_built : BuildError → RunError
  server_failed : Bytes → RunError

-- What run does to the rest of the world, in order: the calls of LockInit, which asks the upstreams and
-- writes a lockfile, NewAuditor, New and ListenAndServe, and the deferred closes.
pub data Event (F : Type 0) : Type 0 where
  lock_init_called : Config F → Bytes → Event F
  audit_opened : Bytes → Event F
  gateway_built : Config F → Event F
  listening : Bytes → Event F
  gateway_closed : Event F
  audit_closed : Event F

pub record Run (F : Type 0) : Type 0 where
  pub stdout : Bytes
  pub events : List (Event F)
  pub error : Option RunError

abbrev pub or_flag : Bytes → Bytes → Bytes
or_flag flag s = if is_nil flag then s else flag

module _ {F : Type 0} where
  -- The zero value of the configuration and that of an upstream with a name and a URL.
  abbrev pub empty_config : Config F
  empty_config = record {
    listen = [];
    public_base_url = [];
    audit = record { path = [] };
    upstreams = [];
  }

  abbrev pub upstream_of : Bytes × Bytes → Upstream F
  upstream_of p = record {
    name = p.0;
    url = p.1;
    header_timeout_seconds = pos 0;
    rate_limit = none;
    tools_allow = [];
    tools_deny = [];
    tools_lock = none;
    prompt_proof = none;
    authorization_servers = [];
    resource_name = [];
  }

  -- upstreamFlags.Set on each value in turn; `none` is its error.
  unfoldable pub set_all : List (Upstream F) → List Bytes → Option (List (Upstream F))
  unfolding parse_upstream_flag
  set_all ups [] = some ups
  set_all ups (v ∷ vs) = elim (parse_upstream_flag v) [
    | none ↦ none
    | some p ↦ set_all (ups ++ upstream_of p ∷ []) vs
  ]

  -- The configuration with what the command line adds to it.
  unfoldable pub merge_flags : Flags → List (Upstream F) → Config F → Config F
  merge_flags f ups c = record c {
    upstreams = c.upstreams ++ ups;
    listen = or_flag f.listen c.listen;
    audit = record c.audit { path = or_flag f.audit_path c.audit.path };
  }

  abbrev pub stopped : Bytes → RunError → Run F
  stopped out e = record { stdout = out; events = []; error = some e }

  abbrev pub printed : Bytes → Run F
  printed out = record { stdout = out; events = []; error = none }

unfoldable pub version_text : Bytes
unfolding codes
version_text = codes "mcp-gateway-lite 0.5.0\n"

-- The surroundings of run. `build` is New, `serve` the error that the server ends with, or none where a
-- signal ends it and the shutdown succeeds.
pub record Surroundings (F : Type 0) : Type 0 where
  pub not_positive : F → Bool
  pub parse : Bytes → Option ParsedUrl
  pub config_file : Bytes → ConfigFile F
  pub open_append : Bytes → Option Bytes
  pub build : Config F → Option BuildError
  pub serve : Config F → Option Bytes
  pub lock_world : InitWorld

module _ {F : Type 0} (w : Surroundings F) where
  abbrev server_error : Option Bytes → Option RunError
  server_error none = none
  server_error (some e) = some (server_failed e)

  -- With an auditor: New, the server, and the deferred closes in reverse.
  unfoldable pub serve_with : Config F → Run F
  serve_with c = elim (w.build c) [
    | some e ↦ record {
      stdout = [];
      events = audit_opened c.audit.path ∷ audit_closed ∷ [];
      error = some (not_built e);
    }
    | none ↦ record {
      stdout = [];
      events =
          audit_opened c.audit.path
          ∷ gateway_built c
          ∷ listening c.listen
          ∷ gateway_closed
          ∷ audit_closed
          ∷ [];
      error = server_error (w.serve c);
    }
  ]

  abbrev pub with_auditor : Config F → Opened → Run F
  with_auditor c (open_failed e) = stopped [] (no_audit e)
  with_auditor c (auditor a) = serve_with c

  unfoldable pub check_text : Config F → Bytes
  unfolding codes itoa
  check_text c =
      codes "config ok: listen="
      ++ (c.listen ++ (codes " upstreams=" ++ (itoa (pos (length c.upstreams)) ++ codes "\n")))

  abbrev pub lock_error : Outcome LockFile → Option RunError
  lock_error (done lf) = none
  lock_error (init_failed e) = some (not_locked e)

  abbrev pub locked_run : Config F → Bytes → InitRun LockFile → Run F
  locked_run c path r = record {
    stdout = r.out;
    events = lock_init_called c path ∷ [];
    error = lock_error r.outcome;
  }

  -- With an accepted configuration.
  unfoldable pub run_valid : Flags → Config F → Run F
  unfolding lock_init check_text new_auditor serve_with
  run_valid f c =
      if f.lock_only
      then locked_run c f.lock_file (lock_init w.lock_world w.not_positive w.parse c f.lock_file)
      else if f.check_only
      then printed (check_text c)
      else with_auditor c (new_auditor w.open_append c.audit.path)

  unfoldable pub run_config : Flags → List (Upstream F) → Config F → Run F
  unfolding validate merge_flags run_valid
  run_config f ups c =
      let checked = validate w.not_positive w.parse (merge_flags f ups c) in
      elim checked.0 [ some e ↦ stopped [] (bad_configuration e) | none ↦ run_valid f checked.1 ]

  abbrev pub with_loaded : Flags → List (Upstream F) → Loaded F → Run F
  with_loaded f ups (load_failed e) = stopped [] (not_loaded e)
  with_loaded f ups (loaded_config c) = run_config f ups c

  unfoldable pub run_flags : Flags → List (Upstream F) → Run F
  unfolding version_text load run_config
  run_flags f ups =
      if f.show_version
      then printed version_text
      else if is_nil f.config_path
      then run_config f ups empty_config
      else with_loaded f ups (load w.not_positive w.parse w.config_file f.config_path)

  abbrev pub at_end : List (Upstream F) → FlagEnd → Run F
  at_end ups (all_parsed f) = run_flags f ups
  at_end ups help = printed []
  at_end ups (bad_flag e) = stopped [] (bad_command e)

  -- `bad` is the error of the package flag for a value of --upstream.
  unfoldable pub run : (List Bytes → Bytes) → CommandLine → Run F
  unfolding set_all run_flags
  run bad line = elim (set_all [] line.upstream_values) [
    | none ↦ stopped [] (bad_upstream (bad line.upstream_values))
    | some ups ↦ at_end ups line.end_of_flags
  ]
