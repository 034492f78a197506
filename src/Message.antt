-- ===== src/Message.antt =====
-- Requests and responses (protocol.go: Request, Response, DecodeUnaryBody, EncodeUnaryBody,
-- StatusFromHeader, URLFor).
pub mod Laws
use easy_rpc_go.Base.{
  ℕ, Bool, true, false, List, [], ◌∷◌, ◌++◌, Option, none, some, Result, ok, err, leb,
  if◌then◌else◌,
}
use easy_rpc_go.Base.Int.{ℤ, pos}
use easy_rpc_go.Text.{Bytes, codes, is_empty}
use easy_rpc_go.Text.Decimal.{atoi}
use easy_rpc_go.Code.{RpcError, connect_from_status}
use easy_rpc_go.Headers.{Headers, get}

pub record Request : Type 0 where
  pub url : Bytes
  pub headers : Headers
  pub body : Bytes

pub record Response : Type 0 where
  pub status : ℕ
  pub headers : Headers
  pub body : Bytes
  pub trailers : Headers
  pub error : Option RpcError

unfoldable pub encode_unary_body : Bytes → Bytes
encode_unary_body msg = msg

unfoldable pub decode_unary_body : Response → Result RpcError Bytes
unfolding connect_from_status get
decode_unary_body rep = elim rep.error [
  | some e ↦ err e
  | none ↦
      if leb 300 rep.status
      then err (record {
        code = pos (connect_from_status rep.status);
        message = get (codes "connect-error") rep.headers;
        details = [];
      })
      else ok rep.body
]

-- `StatusFromHeader`; the error of `Atoi` is dropped, its value is not.
unfoldable pub status_from_header : Headers → Option RpcError
unfolding get
status_from_header h =
    let code = get (codes "connect-code") h in
    if is_empty code
    then none
    else some
        (record { code = (atoi code).0; message = get (codes "connect-error") h; details = [] })

-- `URLFor`.
unfoldable pub url_for : Bytes → Bytes → Bytes → Bytes
url_for pkg service method = b'/' ∷ pkg ++ (b'.' ∷ service ++ (b'/' ∷ method))
