-- ===== src/Config.antt =====
-- gateway/config.go: `Validate` with its default and its errors, and the command line's `name=url`
-- flag. `F` is the type of float64 values, and net/url's parser is a parameter.
pub mod Types
pub mod Names
pub mod Load
use mcp_gateway_lite.Base.{
  ℕ, zero, suc, ◌+◌, Bool, true, false, not, ◌&&◌, ◌||◌, Bytes, codes, same, trim_space, List, [],
  ◌∷◌, ◌++◌, Option, none, some, is_nil, leb, ltb, ◌==◌, if◌then◌else◌, map,
}
use mcp_gateway_lite.Base.Int.{ℤ, pos, negsuc, is_negative, is_non_positive}
use mcp_gateway_lite.Config.Types.{RateLimitConfig, LockConfig, PromptProofConfig, Upstream, Config}
use mcp_gateway_lite.PromptProof.{contains_string, suspicious, dangerous}

-- What Validate reads of a parsed URL.
pub record ParsedUrl : Type 0 where
  pub scheme : Bytes
  pub host : Bytes
  pub raw_query : Bytes
  pub fragment : Bytes

pub data UrlError : Type 0 where
  invalid_url bad_scheme no_host query_or_fragment : UrlError

-- The errors of Validate; each that is about an upstream has its name.
pub data ConfigError : Type 0 where
  bad_public_base_url : UrlError → ConfigError
  no_upstream : ConfigError
  bad_name : ℕ → Bytes → ConfigError
  duplicate_name : Bytes → ConfigError
  bad_url : Bytes → UrlError → ConfigError
  negative_timeout : Bytes → ConfigError
  rate_not_positive : Bytes → ConfigError
  burst_below_one : Bytes → ConfigError
  allow_and_deny : Bytes → ConfigError
  empty_allow_entry : Bytes → ConfigError
  empty_deny_entry : Bytes → ConfigError
  lock_without_file : Bytes → ConfigError
  bad_lock_mode : Bytes → Bytes → ConfigError
  bad_threshold : Bytes → Bytes → ConfigError
  bad_action : Bytes → Bytes → ConfigError
  negative_scores : Bytes → ConfigError
  negative_pool : Bytes → ConfigError
  bad_authorization_server : Bytes → Bytes → UrlError → ConfigError

-- An early return: the first error.
abbrev pub then_check {ℓ} : {E : Type ℓ} → Option E → Option E → Option E
then_check (some e) next = some e
then_check none next = next

abbrev pub fail_if {ℓ} : {E : Type ℓ} → Bool → E → Option E
fail_if true e = some e
fail_if false e = none

unfoldable pub default_listen : Bytes
unfolding codes
default_listen = codes "127.0.0.1:8385"

abbrev pub between : ℕ → ℕ → ℕ → Bool
between low high c = leb low c && leb c high

abbrev pub is_alphanumeric : ℕ → Bool
is_alphanumeric c = between b'A' b'Z' c || between b'a' b'z' c || between b'0' b'9' c

abbrev pub is_name_char : ℕ → Bool
is_name_char c = is_alphanumeric c || c == b'.' || c == b'_' || c == b'-'

unfoldable pub all_name_chars : Bytes → Bool
all_name_chars [] = true
all_name_chars (c ∷ s) = is_name_char c && all_name_chars s

-- nameRE
unfoldable pub matches_name : Bytes → Bool
unfolding all_name_chars
matches_name [] = false
matches_name (c ∷ s) = is_alphanumeric c && all_name_chars s

-- strings.ToLower on ASCII, which a name that matches is.
unfoldable pub to_lower : Bytes → Bytes
to_lower [] = []
to_lower (c ∷ s) = (if between b'A' b'Z' c then c + 32 else c) ∷ to_lower s

-- Whether a string is empty or one of two literals.
abbrev pub is_choice : Bytes → Bytes → Bytes → Bool
is_choice a b s = is_nil s || same s a || same s b

unfoldable pub any_blank : List Bytes → Bool
unfolding trim_space
any_blank [] = false
any_blank (t ∷ ts) = is_nil (trim_space t) || any_blank ts

unfoldable pub check_lock : Bytes → LockConfig → Option ConfigError
unfolding codes same trim_space
check_lock name l =
    then_check (fail_if (is_nil (trim_space l.file)) (lock_without_file name)) (
      fail_if (not (is_choice (codes "enforce") (codes "warn") l.mode)) (bad_lock_mode name l.mode))

unfoldable pub check_prompt_proof : Bytes → PromptProofConfig → Option ConfigError
unfolding codes same suspicious dangerous
check_prompt_proof name pp =
    then_check
      (fail_if (not (is_choice suspicious dangerous pp.threshold))
        (bad_threshold name pp.threshold))
      (then_check
        (fail_if (not (is_choice (codes "block") (codes "flag") pp.action))
          (bad_action name pp.action))
        (then_check
          (fail_if (is_negative pp.suspicious_at || is_negative pp.dangerous_at)
            (negative_scores name))
          (fail_if (is_negative pp.pool) (negative_pool name))))

abbrev pub if_some {ℓ} : {A E : Type ℓ} → Option A → (A → Option E) → Option E
if_some none check = none
if_some (some a) check = check a

-- strings.Cut at "=": the parts before and behind, if there is one.
unfoldable pub cut : Bytes → Option (Bytes × Bytes)
cut [] = none
cut (c ∷ s) =
    let rest = cut s in
    if c == b'=' then some ([], s) else elim rest [ none ↦ none | some p ↦ some (c ∷ p.0, p.1) ]

-- ParseUpstreamFlag: the name and the URL; `none` is its error.
unfoldable pub parse_upstream_flag : Bytes → Option (Bytes × Bytes)
unfolding cut
parse_upstream_flag v = elim (cut v) [
  | none ↦ none
  | some p ↦ if is_nil p.0 || is_nil p.1 then none else some p
]

-- `not_positive` is the comparison of a float64 with 0.
module _ {F : Type 0} (not_positive : F → Bool) (parse : Bytes → Option ParsedUrl) where
  unfoldable pub validate_http_url : Bytes → Option UrlError
  unfolding codes same
  validate_http_url raw = elim (parse raw) [
    | none ↦ some invalid_url
    | some u ↦
        then_check
          (fail_if (not (same u.scheme (codes "http")) && not (same u.scheme (codes "https")))
            bad_scheme)
          (then_check (fail_if (is_nil u.host) no_host)
            (fail_if (not (is_nil u.raw_query) || not (is_nil u.fragment)) query_or_fragment))
  ]

  abbrev pub check_url : (UrlError → ConfigError) → Bytes → Option ConfigError
  check_url wrap raw = elim (validate_http_url raw) [ none ↦ none | some e ↦ some (wrap e) ]

  unfoldable pub check_rate : Bytes → RateLimitConfig F → Option ConfigError
  check_rate name r =
      then_check (fail_if (not_positive r.requests_per_second) (rate_not_positive name))
        (fail_if (is_non_positive r.burst) (burst_below_one name))

  unfoldable pub check_servers : Bytes → List Bytes → Option ConfigError
  unfolding validate_http_url
  check_servers name [] = none
  check_servers name (a ∷ servers) =
      then_check (check_url (bad_authorization_server name a) a) (check_servers name servers)

  -- The checks of an upstream behind those of its name.
  unfoldable pub check_upstream : Upstream F → Option ConfigError
  unfolding validate_http_url check_rate any_blank check_lock check_prompt_proof check_servers
  check_upstream u = then_check (check_url (bad_url u.name) u.url) (
      then_check (fail_if (is_negative u.header_timeout_seconds) (negative_timeout u.name)) (
        then_check (if_some u.rate_limit (check_rate u.name)) (
          then_check
            (fail_if (not (is_nil u.tools_allow) && not (is_nil u.tools_deny))
              (allow_and_deny u.name))
            (then_check (fail_if (any_blank u.tools_allow) (empty_allow_entry u.name)) (
              then_check (fail_if (any_blank u.tools_deny) (empty_deny_entry u.name)) (
                then_check (if_some u.tools_lock (check_lock u.name)) (
                  then_check (if_some u.prompt_proof (check_prompt_proof u.name))
                    (check_servers u.name u.authorization_servers))))))))

  -- The loop over the upstreams: the index, and the names seen so far in lower case.
  unfoldable pub check_upstreams : ℕ → List Bytes → List (Upstream F) → Option ConfigError
  unfolding matches_name to_lower contains_string check_upstream
  check_upstreams i seen [] = none
  check_upstreams i seen (u ∷ us) =
      let key = to_lower u.name in
      then_check (fail_if (not (matches_name u.name)) (bad_name i u.name)) (
        then_check (fail_if (contains_string seen key) (duplicate_name u.name))
          (then_check (check_upstream u) (check_upstreams (suc i) (key ∷ seen) us)))

  -- The configuration with its default, and the error, if any.
  unfoldable pub validate : Config F → Option ConfigError × Config F
  unfolding check_upstreams validate_http_url default_listen
  validate c = (
    then_check
        (if is_nil c.public_base_url then none else check_url bad_public_base_url c.public_base_url)
        (then_check (fail_if (is_nil c.upstreams) no_upstream) (check_upstreams 0 [] c.upstreams)),
    record c { listen = if is_nil c.listen then default_listen else c.listen },
  )
