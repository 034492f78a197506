-- ===== src/Server/Dispatch.antt =====
-- Dispatch (server.go): the checks in front of a handler, in their order, and the two branches.
pub mod Computed
pub mod Named
pub mod Checks
pub mod Writers
pub mod Responses
use easy_rpc_go.Base.{
  ℕ, Bool, true, false, ◌&&◌, not, List, [], ◌∷◌, ◌++◌, Option, none, some, Result, ok, err, length,
  ltb, if◌then◌else◌,
}
use easy_rpc_go.Base.Int.{ℤ, pos, is_positive}
use easy_rpc_go.Text.{Bytes, codes, eq_text, is_empty, to_lower, trim_space, before}
use easy_rpc_go.Code.{Error, RpcError, rpc_error, http_status}
use easy_rpc_go.Headers.{Headers, get}
use easy_rpc_go.Frame.{Gzip, default_max_message_bytes}
use easy_rpc_go.Message.{Request}
use easy_rpc_go.Timeout.{header_timeout, parse_timeout}
use easy_rpc_go.Content.{ContentKind, content_kind_of, is_stream_content_type}
use easy_rpc_go.HandlerContext.{HandlerContext, new_handler_context}
use easy_rpc_go.Json.{JsonText}
use easy_rpc_go.Server.Writer.{ResponseWriter}
use easy_rpc_go.Server.Calls.{MethodSpec, Context, ServiceRegistry, find_method}
use easy_rpc_go.Server.Errors.{write_error, write_error_status}
use easy_rpc_go.Server.Stream.{serve_stream}
use easy_rpc_go.Server.Unary.{serve_unary}

-- An error response in front of any handler: the error and the HTTP status.
pub record Refusal : Type 0 where
  pub error : RpcError
  pub status : ℕ

-- A refusal with the status of its code, as `writeError` has it.
abbrev pub refuse : ℕ → Bytes → Refusal
refuse code message = record { error = rpc_error code message; status = http_status (pos code) }

-- What the checks find out: the method, the codec and whether the body is gzip.
pub record Accepted : Type 0 where
  pub spec : MethodSpec
  pub kind : ContentKind
  pub is_gzip : Bool

-- `x != "" && x != value`.
unfoldable pub is_other : Bytes → Bytes → Bool
unfolding eq_text
is_other x value = not (is_empty x) && not (eq_text x value)

-- The refusal if the test holds.
abbrev pub guard : Bool → Refusal → Option Refusal
guard true r = some r
guard false r = none

unfoldable pub check_version : Headers → Option Refusal
check_version headers =
    let pv = get (codes "connect-protocol-version") headers in
    guard (is_other pv (codes "1"))
      (refuse 12 (codes "unsupported connect-protocol-version: " ++ pv))

unfoldable pub check_size : Bytes → Option Refusal
check_size body =
    guard (ltb default_max_message_bytes (length body)) (refuse 8 (codes "request too large"))

unfoldable pub check_post : Headers → Option Refusal
check_post headers =
    let m = get (codes ":method") headers in
    guard (is_other m (codes "POST"))
      (record { error = rpc_error 2 (codes "method " ++ m ++ codes " not allowed"); status = 405 })

-- `path`: the URL up to its first `?`.
unfoldable pub path_of : Bytes → Bytes
path_of url = before b'?' url

-- `a == b` for booleans.
abbrev pub same : Bool → Bool → Bool
same true b = b
same false b = not b

-- The codec that the content type names, if its shape is the method's.
unfoldable pub negotiate : MethodSpec → Bytes → Option ContentKind
negotiate spec ct = elim (content_kind_of ct) [
  | none ↦ none
  | some kind ↦ if same (is_stream_content_type ct) spec.server_stream then some kind else none
]

-- `reqEnc`.
unfoldable pub request_encoding : Headers → Bytes
request_encoding headers =
    let first = trim_space (to_lower (get (codes "content-encoding") headers)) in
    let enc =
      if is_empty first
      then trim_space (to_lower (get (codes "connect-content-encoding") headers))
      else first in
    if eq_text enc (codes "identity") then [] else enc

unfoldable pub check_encoding : Bytes → Option Refusal
check_encoding enc =
    guard (is_other enc (codes "gzip")) (refuse 12 (codes "unsupported content-encoding: " ++ enc))

-- The first refusal, else what comes behind it.
abbrev pub unless : {A : Type 0} → Option Refusal → Result Refusal A → Result Refusal A
unless (some r) rest = err r
unless none rest = rest

-- What stands behind the look-up of the codec.
unfoldable pub check_kind : MethodSpec → Headers → Option ContentKind → Result Refusal Accepted
check_kind spec headers none = err (record {
  error = rpc_error 2 (codes "unsupported content-type: " ++ get (codes "Content-Type") headers);
  status = 415;
})
check_kind spec headers (some kind) =
    let enc = request_encoding headers in
    unless (check_encoding enc)
      (ok (record { spec = spec; kind = kind; is_gzip = eq_text enc (codes "gzip") }))

-- From the method found on: content type and encoding.
unfoldable pub check_codec : MethodSpec → Headers → Result Refusal Accepted
unfolding check_kind
check_codec spec headers =
    check_kind spec headers (negotiate spec (get (codes "Content-Type") headers))

-- The look-up of the method.
unfoldable pub check_method : Option MethodSpec → Headers → Result Refusal Accepted
unfolding check_codec
check_method none headers =
    err (record { error = rpc_error 12 (codes "unimplemented"); status = 404 })
check_method (some spec) headers = check_codec spec headers

-- All checks in front of the handler.
unfoldable pub check : Request → List MethodSpec → Result Refusal Accepted
unfolding check_version check_size check_post path_of check_method
check req methods = unless (check_version req.headers) (
    unless (check_size req.body) (
      unless (check_post req.headers)
        (check_method (find_method (path_of req.url) methods) req.headers)))

-- The context that the handlers get.
unfoldable pub handler_context : Accepted → Headers → Context
handler_context a headers =
    let timeout = parse_timeout (get header_timeout headers) in
    record {
      headers = headers;
      handler = record (new_handler_context headers) { kind = a.kind };
      deadline = if is_positive timeout then some timeout else none;
    }

module _ {S : Type 0} (w : ResponseWriter S) (gzip : Gzip) (text : JsonText) where
  unfoldable pub serve : Accepted → Request → ServiceRegistry → S → Option Error × S
  unfolding handler_context
  serve a req reg s =
      let ctx = handler_context a req.headers in
      if a.spec.server_stream
      then serve_stream w gzip text (reg.stream a.spec.name) ctx req.headers req.body s
      else serve_unary w gzip text (reg.unary a.spec.name) ctx req.headers a.is_gzip req.body s

  -- From the outcome of the checks on.
  unfoldable pub dispatch_checked :
      Result Refusal Accepted → Request → ServiceRegistry → S → Option Error × S
  unfolding serve
  dispatch_checked (err r) req reg s = write_error_status w text r.error r.status s
  dispatch_checked (ok a) req reg s = serve a req reg s

  unfoldable pub dispatch : Request → List MethodSpec → ServiceRegistry → S → Option Error × S
  unfolding check dispatch_checked
  dispatch req methods reg s = dispatch_checked (check req methods) req reg s
