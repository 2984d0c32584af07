-- ===== src/Tests/Commands.antt =====
-- A command line, and an auditor with failing writes.
use mcp_gateway_lite.Base.{ℕ, codes, List, [], ◌∷◌, ◌++◌, none, ◌==◌, ◌≡◌, true, false}
use mcp_gateway_lite.Gateway.Types.{Entry}
use mcp_gateway_lite.Gateway.{blank_entry}
use mcp_gateway_lite.Audit.{
  Auditor, Sink, Marshalled, text, WriteEnd, all_taken, write_failed, log_all,
}
use mcp_gateway_lite.Audit.Sequences.{pieces, errors, reports, log_all-pieces}
use mcp_gateway_lite.Config.Load.{not_opened}
use mcp_gateway_lite.Command.{all_parsed, CommandLine, Surroundings, run}
use mcp_gateway_lite.Command.Runs.{Ends, Served, run-Ends}
use mcp_gateway_lite.Tests.Toy.{parse_any}
use mcp_gateway_lite.Tests.LockRuns.{one_tool_world}

-- Three entries, of which two are written in part.
abbrev entries : List (Entry × WriteEnd)
entries =
    (blank_entry, write_failed 1 (codes "full"))
    ∷ (blank_entry, all_taken)
    ∷ (blank_entry, write_failed 1 (codes "full"))
    ∷ []

abbrev to_text : Entry → Marshalled
to_text e = text (b'{' ∷ b'}' ∷ [])

abbrev fresh_auditor : Auditor
fresh_auditor = record { closer = true; failed = false }

abbrev empty_sink : Sink
empty_sink = record { written = []; stderr = [] }

log_all-pieces_example :
    ((log_all to_text entries fresh_auditor empty_sink).1.written ≡ [] ++ pieces to_text entries)
    × ((log_all to_text entries fresh_auditor empty_sink).1.stderr
        ≡ [] ++ reports false (errors to_text entries))
log_all-pieces_example = log_all-pieces to_text entries fresh_auditor empty_sink

abbrev no_files : Surroundings ℕ
no_files = record {
  not_positive = λ n. n == 0;
  parse = parse_any;
  config_file = λ path. not_opened (codes "no such file");
  open_append = λ path. none;
  build = λ c. none;
  serve = λ c. none;
  lock_world = one_tool_world;
}

abbrev one_flag : CommandLine
one_flag = record {
  upstream_values = codes "u=http://h" ∷ [];
  end_of_flags = all_parsed (record {
    config_path = [];
    listen = [];
    audit_path = [];
    show_version = false;
    check_only = false;
    lock_only = false;
    lock_file = codes "mcp-sentinel.lock";
  });
}

run-Ends_example :
    Ends no_files
      (Served no_files one_flag)
      (run no_files (λ values. codes "invalid value") one_flag)
run-Ends_example = run-Ends no_files (λ values. codes "invalid value") one_flag
