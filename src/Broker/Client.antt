-- ===== src/Broker/Client.antt =====
-- `BrokerClient.issue`: the exchange with a broker over a socket.
use trustplane_auth_sdk_pyth.Base.{
  ℕ, Bool, not, Option, some, List, [], ◌∷◌, ◌++◌, Text, Bytes, length, ltb, if◌then◌else◌, Result,
  ok, err, ◌>>=◌, ◌>>◌, raise_if,
}
use trustplane_auth_sdk_pyth.Base.Int.{ℤ}
use trustplane_auth_sdk_pyth.Text.{codes, text_eq, is_empty, strip, has_char}
use trustplane_auth_sdk_pyth.Json.{Json, str, dict, Fields, end, field, get, has_field}
use trustplane_auth_sdk_pyth.Platform.{Platform}
use trustplane_auth_sdk_pyth.Broker.Request.{PreparedBrokerRequest}
use trustplane_auth_sdk_pyth.Broker.Answer.{BrokerResponse, response_from_dict, invalid}

abbrev pub broker_ipc_v1_version : Text
broker_ipc_v1_version = codes "trustplane-broker-ipc-v1"

abbrev pub broker_ipc_v1_kind : Text
broker_ipc_v1_kind = codes "broker_ipc_exchange"

-- `1 << 20`
abbrev pub max_broker_response : ℕ
max_broker_response = 1_048_576

-- The timeout is in microseconds.
pub record BrokerClient : Type 0 where
  pub socket_path : Text
  pub timeout : ℤ

-- A stream socket: what the calls of `recv` return or raise, one after the other, once the socket at a
-- path was connected with a timeout and a message was sent. Past the end, `recv` returns nothing.
abbrev pub Socket : Type 0
Socket = Text → ℤ → Bytes → Result Text (List (Result Text Bytes))

-- `json.dumps(envelope, ...)`
unfoldable pub envelope : Fields → Json
envelope request = dict (
    field (codes "version") (str broker_ipc_v1_version)
      (field (codes "kind") (str broker_ipc_v1_kind) (field (codes "request") (dict request) end)))

-- What follows a chunk: too much, the end of the line, or more.
unfoldable pub on_chunk : Bytes → Bytes → Result Text Bytes → Result Text Bytes
unfolding has_char
on_chunk response_raw chunk more =
    if ltb max_broker_response (length response_raw)
    then err (codes "broker_response_too_large")
    else if has_char b'\n' chunk
    then ok response_raw
    else more

-- The loop over `recv`.
unfoldable pub receive : Bytes → List (Result Text Bytes) → Result Text Bytes
unfolding on_chunk
receive response_raw [] = ok response_raw
receive response_raw (err raised ∷ chunks) = err raised
receive response_raw (ok chunk ∷ chunks) =
    let more = receive (response_raw ++ chunk) chunks in
    if is_empty chunk then ok response_raw else on_chunk (response_raw ++ chunk) chunk more

abbrev pub is_id : Json → Text → Bool
is_id (str s) id = text_eq s id
is_id _ id = Bool.false

-- The response that was decoded, if it answers the request.
unfoldable pub answered : Fields → Option Json → Result Text BrokerResponse
unfolding response_from_dict get
answered request (some (dict decoded)) =
    let response = response_from_dict decoded in
    raise_if (not (has_field (codes "request_id") request)) (codes "request_id")
    >> raise_if (not (is_id (get (codes "request_id") request) response.request_id))
        (codes "broker_response_request_id_mismatch")
    >> ok response
answered request _ = invalid

module _ ⦃p : Platform⦄ where
  open p use {json_dumps_ascii, json_loads_bytes}

  -- `BrokerClient.issue`.
  unfoldable pub issue : Socket → BrokerClient → PreparedBrokerRequest → Result Text BrokerResponse
  unfolding envelope receive answered
  issue socket client prepared = do
    raise_if (is_empty (strip client.socket_path)) (codes "missing_socket_path")
    let raw = json_dumps_ascii (envelope prepared.request) ++ b'\n' ∷ []
    chunks ← socket client.socket_path client.timeout raw
    response_raw ← receive [] chunks
    answered prepared.request (json_loads_bytes response_raw)
