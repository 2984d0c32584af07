-- ===== src/Codec.antt =====
-- What the gateway asks of encoding/json and crypto/sha256: the shapes that it decodes
-- (gateway/jsonrpc.go, gateway/responsefilter.go, gateway/lock.go, gateway/promptproof.go) and an
-- interface to the decoder, the encoder, the digest and strconv.Quote, which every user takes as a
-- parameter.
use mcp_gateway_lite.Base.{Bool, Bytes, List, Option}
use mcp_gateway_lite.Base.Dict.{Dict}
use mcp_gateway_lite.Base.Int.{ℤ}

-- rpcProbe: the fields of a request message. A missing field is empty.
pub record RpcProbe : Type 0 where
  pub method : Bytes
  pub id : Bytes
  pub params : Bytes

-- rpcResponseProbe: the fields of a response message, raw.
pub record RpcResponseProbe : Type 0 where
  pub jsonrpc : Bytes
  pub id : Bytes
  pub result : Bytes
  pub error : Bytes

-- ppReport: the verdict line of promptproof, findings reduced to their categories.
pub record PpReport : Type 0 where
  pub verdict : Bytes
  pub score : ℤ
  pub findings : List Bytes

-- The fields of a tool definition that its fingerprint covers.
pub record ToolProbe : Type 0 where
  pub name : Bytes
  pub description : Bytes
  pub input_schema : Bytes
  pub input_schema_alt : Bytes

-- A value of decodeUseNumber: number literals stay text, objects are maps.
mutual
  pub data Value : Type 0 where
    null : Value
    bool : Bool → Value
    number : Bytes → Value
    string : Bytes → Value
    array : Values → Value
    object : Fields → Value

  pub data Values : Type 0 where
    nil : Values
    cons : Value → Values → Values

  pub data Fields : Type 0 where
    end : Fields
    field : Bytes → Value → Fields → Fields

-- `none` is an error of json.Unmarshal or json.Marshal. A decoded JSON null is a nil map. The flag of
-- `decode_value` is Decoder.More. `error_text x` is the message of the error that refuses `x`.
pub record Codec : Type 0 where
  pub decode_request : Bytes → Option RpcProbe
  pub decode_batch : Bytes → Option (List RpcProbe)
  pub decode_name : Bytes → Option Bytes
  pub decode_response : Bytes → Option RpcResponseProbe
  pub decode_object : Bytes → Option (Option (Dict Bytes))
  pub decode_array : Bytes → Option (List Bytes)
  pub decode_string : Bytes → Option Bytes
  pub decode_tool : Bytes → Option ToolProbe
  pub decode_value : Bytes → Option (Value × Bool)
  pub decode_report : Bytes → Option PpReport
  pub encode_string : Bytes → Bytes
  pub encode_array : List Bytes → Option Bytes
  pub encode_object : Dict Bytes → Option Bytes
  pub error_text : Bytes → Bytes
  pub sha256 : Bytes → Bytes
  pub quote : Bytes → Bytes
