-- ===== src/PromptProof.antt =====
-- gateway/promptproof.go: verdicts, the scanner's settings, its reports, and the strings of a tool
-- result that are scanned. The coprocess itself is a parameter: the reply that it gives to a content.
pub mod Fuel
pub mod Categories
pub mod Process
pub mod Accounts
pub mod Pool
use mcp_gateway_lite.Base.{
  ℕ, zero, suc, Bool, false, not, ◌&&◌, ◌||◌, Bytes, codes, same, trim_space, List, [], ◌∷◌, ◌++◌,
  Option, none, some, is_nil, leb, ◌==◌, if◌then◌else◌,
}
use mcp_gateway_lite.Base.Dict.{Dict}
use mcp_gateway_lite.Base.Int.{ℤ, is_non_positive, to_ℕ, itoa}
use mcp_gateway_lite.Codec.{Codec}
use mcp_gateway_lite.Config.Types.{PromptProofConfig}

unfoldable pub suspicious : Bytes
unfolding codes
suspicious = codes "suspicious"

unfoldable pub dangerous : Bytes
unfolding codes
dangerous = codes "dangerous"

unfoldable pub verdict_rank : Bytes → ℕ
unfolding suspicious dangerous
verdict_rank v = if same v suspicious then 1 else if same v dangerous then 2 else 0

pub record ScanResult : Type 0 where
  pub verdict : Bytes
  pub score : ℤ
  pub categories : List Bytes

pub data ScanReply : Type 0 where
  report : ScanResult → ScanReply
  scan_error : Bytes → ScanReply

-- A scanner's settings, and what its coprocesses answer.
pub record Scanner : Type 0 where
  pub bin : Bytes
  pub args : List Bytes
  pub threshold : ℕ
  pub action : Bytes
  pub size : ℕ
  pub reply : Bytes → ScanReply

abbrev or_default : Bytes → Bytes → Bytes
or_default s d = if is_nil s then d else s

-- A flag with its value, where the value is positive.
unfoldable pub flag_if_positive : Bytes → ℤ → List Bytes
unfolding itoa
flag_if_positive flag n = if is_non_positive n then [] else flag ∷ itoa n ∷ []

-- newScanner, without the start of the coprocesses
unfoldable pub new_scanner : PromptProofConfig → (Bytes → ScanReply) → Scanner
unfolding codes flag_if_positive verdict_rank
new_scanner c reply =
    let threshold = verdict_rank c.threshold in
    record {
      bin = or_default c.binary (codes "promptproof");
      args =
          codes "serve"
          ∷ (flag_if_positive (codes "--suspicious-at") c.suspicious_at
              ++ flag_if_positive (codes "--dangerous-at") c.dangerous_at);
      threshold = if threshold == 0 then verdict_rank dangerous else threshold;
      action = or_default c.action (codes "block");
      size = if is_non_positive c.pool then 2 else to_ℕ c.pool;
      reply = reply;
    }

unfoldable pub triggers : Scanner → Bytes → Bool
unfolding verdict_rank
triggers s verdict = leb s.threshold (verdict_rank verdict)

unfoldable pub contains_string : List Bytes → Bytes → Bool
contains_string [] s = false
contains_string (x ∷ xs) s = same x s || contains_string xs s

-- The loop of parseReport: each category once, in the order of the findings.
unfoldable pub add_categories : List Bytes → List Bytes → List Bytes
unfolding contains_string
add_categories seen [] = seen
add_categories seen (c ∷ cs) =
    add_categories (if not (is_nil c) && not (contains_string seen c) then seen ++ c ∷ [] else seen)
      cs

unfoldable pub empty_response : Bytes
unfolding codes
empty_response = codes "promptproof: empty response"

unfoldable pub bad_response : Codec → Bytes → Bytes
unfolding codes
bad_response codec line =
    codes "promptproof: bad response "
    ++ (codec.quote line ++ (codes ": " ++ codec.error_text line))

unfoldable pub parse_report : Codec → Bytes → ScanReply
unfolding add_categories empty_response bad_response trim_space
parse_report codec raw =
    let line = trim_space raw in
    if is_nil line then scan_error empty_response else elim (codec.decode_report line) [
      | none ↦ scan_error (bad_response codec line)
      | some rep ↦ report (record {
        verdict = rep.verdict;
        score = rep.score;
        categories = add_categories [] rep.findings;
      })
    ]

unfoldable pub values : Dict Bytes → List Bytes
values [] = []
values ((k, v) ∷ m) = v ∷ values m

-- What a walk collects from each element in turn.
unfoldable pub collect_each : (Bytes → List Bytes) → List Bytes → List Bytes
collect_each walk [] = []
collect_each walk (x ∷ xs) = walk x ++ collect_each walk xs

-- The elements of a JSON object, or none.
elements_of : Option (Option (Dict Bytes)) → List Bytes
unfolding values
elements_of (some (some m)) = values m
elements_of _ = []

-- The string values of a JSON text, in the order of the walk. The fuel bounds the depth.
unfoldable pub collect_strings : Codec → ℕ → Bytes → List Bytes
unfolding collect_each elements_of
collect_strings codec zero raw = []
collect_strings codec (suc fuel) raw =
    let walk = collect_each (collect_strings codec fuel) in
    elim (codec.decode_string raw) [
      | some s ↦ s ∷ []
      | none ↦ elim (codec.decode_array raw) [
        | some els ↦ walk els
        | none ↦ walk (elements_of (codec.decode_object raw))
      ]
    ]
