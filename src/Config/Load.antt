-- ===== src/Config/Load.antt =====
-- gateway/config.go: Load. Opening the file and decoding it strictly are a parameter.
use mcp_gateway_lite.Base.{Bool, Bytes, Option, none, some}
use mcp_gateway_lite.Config.Types.{Config}
use mcp_gateway_lite.Config.{ParsedUrl, ConfigError, validate}

-- What opening and decoding a configuration file gives.
pub data ConfigFile (F : Type 0) : Type 0 where
  not_opened : Bytes → ConfigFile F
  not_decoded : Bytes → ConfigFile F
  decoded : Config F → ConfigFile F

pub data LoadError : Type 0 where
  open_error : Bytes → LoadError
  decode_error : Bytes → Bytes → LoadError
  invalid : Bytes → ConfigError → LoadError

pub data Loaded (F : Type 0) : Type 0 where
  loaded_config : Config F → Loaded F
  load_failed : LoadError → Loaded F

module _ {F : Type 0} (not_positive : F → Bool) (parse : Bytes → Option ParsedUrl) where
  unfoldable pub load : (Bytes → ConfigFile F) → Bytes → Loaded F
  unfolding validate
  load open_file path = elim (open_file path) [
    | not_opened e ↦ load_failed (open_error e)
    | not_decoded e ↦ load_failed (decode_error path e)
    | decoded c ↦ elim (validate not_positive parse c).0 [
      | some e ↦ load_failed (invalid path e)
      | none ↦ loaded_config (validate not_positive parse c).1
    ]
  ]
