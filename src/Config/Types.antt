-- ===== src/Config/Types.antt =====
-- The configuration records of gateway/config.go. A Go pointer to a block is an `Option`.
use mcp_gateway_lite.Base.{Bool, Bytes, List, Option}
use mcp_gateway_lite.Base.Int.{ℤ}

pub record RateLimitConfig (F : Type 0) : Type 0 where
  pub requests_per_second : F
  pub burst : ℤ
  pub per_session : Bool

pub record LockConfig : Type 0 where
  pub file : Bytes
  pub server : Bytes
  pub mode : Bytes

pub record PromptProofConfig : Type 0 where
  pub enabled : Bool
  pub binary : Bytes
  pub threshold : Bytes
  pub action : Bytes
  pub suspicious_at : ℤ
  pub dangerous_at : ℤ
  pub pool : ℤ

pub record Upstream (F : Type 0) : Type 0 where
  pub name : Bytes
  pub url : Bytes
  pub header_timeout_seconds : ℤ
  pub rate_limit : Option (RateLimitConfig F)
  pub tools_allow : List Bytes
  pub tools_deny : List Bytes
  pub tools_lock : Option LockConfig
  pub prompt_proof : Option PromptProofConfig
  pub authorization_servers : List Bytes
  pub resource_name : Bytes

pub record AuditConfig : Type 0 where
  pub path : Bytes

pub record Config (F : Type 0) : Type 0 where
  pub listen : Bytes
  pub public_base_url : Bytes
  pub audit : AuditConfig
  pub upstreams : List (Upstream F)
