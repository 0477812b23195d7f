-- ===== src/Node/Rpc.antt =====
-- src/coldwatch/node/rpc.py: `BitcoinRpc.call`, from the body of the response on. The connection and
-- `json.loads` are not modelled: a reply is what they came to.
use coldwatch.Base.{ℕ, Option, none, some, List, [], ◌∷◌}
use coldwatch.Base.Integers.{ℤ, negsuc}
use coldwatch.Base.Keys.{bytes_key}
use coldwatch.Base.Dict.{get}
use coldwatch.Base.Results.{Result, ok, err}
use coldwatch.Node.Json.{Json, null, object, integer, Members, members, PyError, to_int, get_member}

-- No response, a body that is not JSON, or the value that it holds.
pub data Reply : Type 0 where
  no_response not_json : Reply
  body : Json → Reply

-- What can come out of a call: `RpcError` with its code, `RpcTransportError`, or what `int` raises of
-- a code that is not a number.
pub data RpcFailure : Type 0 where
  rpc_error : ℤ → RpcFailure
  transport_error : RpcFailure
  escaped : PyError → RpcFailure

-- "error", "code" and "result", and the code of an error that has none.
abbrev pub error_name : List ℕ
error_name = 101 ∷ 114 ∷ 114 ∷ 111 ∷ 114 ∷ []

abbrev pub code_name : List ℕ
code_name = 99 ∷ 111 ∷ 100 ∷ 101 ∷ []

abbrev pub result_name : List ℕ
result_name = 114 ∷ 101 ∷ 115 ∷ 117 ∷ 108 ∷ 116 ∷ []

abbrev pub no_code : Json
no_code = integer (negsuc 0)

module _ (read_int : List ℕ → Option ℤ) where
  -- `raise RpcError(int(error.get("code", -1)), ...)`.
  unfoldable pub rpc_error_of : Members → RpcFailure
  rpc_error_of error = elim (to_int read_int (get_member code_name no_code error)) [
    | err why ↦ escaped why
    | ok code ↦ rpc_error code
  ]

  unfoldable pub result_of : Members → Result RpcFailure Json
  result_of payload = elim (get result_name (members payload)) [
    | none ↦ err transport_error
    | some result ↦ ok result
  ]

  unfoldable pub answer_of : Members → Result RpcFailure Json
  unfolding rpc_error_of result_of
  answer_of payload = elim (get_member error_name null payload) [
    | null ↦ result_of payload
    | object error ↦ err (rpc_error_of error)
    | _ ↦ err transport_error
  ]

  unfoldable pub call : Reply → Result RpcFailure Json
  unfolding answer_of
  call no_response = err transport_error
  call not_json = err transport_error
  call (body (object payload)) = answer_of payload
  call (body value) = err transport_error
