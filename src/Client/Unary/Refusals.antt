-- ===== src/Client/Unary/Refusals.antt =====
-- What a client of a unary call gets when Dispatch refuses its request.
use easy_rpc_go.Base.{
  ◌≤◌, ◌≡◌, refl, sym, ap, ◌∙◌, arith, Bool, true, false, List, [], Option, none, some, Result, ok,
  err,
}
use easy_rpc_go.Text.{Bytes, codes}
use easy_rpc_go.Text.Decimal.{IsInt64}
use easy_rpc_go.Code.{http_status}
use easy_rpc_go.Headers.{Headers, get}
use easy_rpc_go.Frame.{Gzip}
use easy_rpc_go.Json.{JsonText, IsPlain}
use easy_rpc_go.Wire.Details.{kept}
use easy_rpc_go.Message.{Request}
use easy_rpc_go.Content.{ContentKind}
use easy_rpc_go.Server.Writer.{reliable}
use easy_rpc_go.Server.Calls.{MethodSpec, ServiceRegistry, find_method}
use easy_rpc_go.Server.Errors.{write_error_status}
use easy_rpc_go.Server.Dispatch.{
  Refusal, Accepted, guard, request_encoding, negotiate, unless, check_version, check_size,
  check_post, check_encoding, check_kind, check_codec, check_method, check, path_of,
  dispatch_checked, dispatch,
}
use easy_rpc_go.Client.Unary.{to_response}
use easy_rpc_go.Client.Unary.Errors.{response_of, error-write_error_status}

-- A refusal that a client can tell for an error: a code of 64 bits, no details, an error's status.
abbrev IsRefusal : Refusal → Type 0
IsRefusal r = IsInt64 r.error.code × (r.error.details ≡ []) × (300 ≤ r.status)

abbrev Refuses : Result Refusal Accepted → Type 0
Refuses (err r) = IsRefusal r
Refuses (ok a) = Unit

guard-Refuses :
    (t : Bool) (r : Refusal) (rest : Result Refusal Accepted)
    → IsRefusal r
    → Refuses rest
    → Refuses (unless (guard t r) rest)
guard-Refuses true r rest h k = h
guard-Refuses false r rest h k = k

module _ (rest : Result Refusal Accepted) (k : Refuses rest) where
  version-Refuses : (h : Headers) → Refuses (unless (check_version h) rest)
  unfolding check_version http_status
  version-Refuses h = guard-Refuses _ _ rest (omega arith, refl, omega arith) k

  size-Refuses : (s : Bytes) → Refuses (unless (check_size s) rest)
  unfolding check_size http_status
  size-Refuses s = guard-Refuses _ _ rest (omega arith, refl, omega arith) k

  post-Refuses : (h : Headers) → Refuses (unless (check_post h) rest)
  unfolding check_post
  post-Refuses h = guard-Refuses _ _ rest (omega arith, refl, omega arith) k

  encoding-Refuses : (enc : Bytes) → Refuses (unless (check_encoding enc) rest)
  unfolding check_encoding http_status
  encoding-Refuses enc = guard-Refuses _ _ rest (omega arith, refl, omega arith) k

kind-Refuses :
    (spec : MethodSpec) (h : Headers) (o : Option ContentKind) → Refuses (check_kind spec h o)
unfolding check_kind
kind-Refuses spec h none = (omega arith, refl, omega arith)
kind-Refuses spec h (some kind) = encoding-Refuses _ tt (request_encoding h)

method-Refuses : (o : Option MethodSpec) (h : Headers) → Refuses (check_method o h)
unfolding check_method check_codec
method-Refuses none h = (omega arith, refl, omega arith)
method-Refuses (some spec) h = kind-Refuses spec h (negotiate spec (get (codes "Content-Type") h))

check-Refuses : (req : Request) (methods : List MethodSpec) → Refuses (check req methods)
unfolding check
check-Refuses req methods =
    version-Refuses _
      (size-Refuses _
        (post-Refuses _ (method-Refuses (find_method (path_of req.url) methods) req.headers)
          req.headers)
        req.body)
      req.headers

-- A refusal has a status that clients take for an error's.
pub status_of_refusal :
    (req : Request) (methods : List MethodSpec) (r : Refusal)
    → check req methods ≡ err r
    → 300 ≤ r.status
status_of_refusal req methods r e =
    let (_, _, large) : IsRefusal r = rw e at (check-Refuses req methods) in large

refusal_sent :
    (gzip : Gzip) (text : JsonText) (r : Refusal) (proto : Bytes)
    → IsRefusal r
    → IsPlain r.error.message
    → (to_response gzip text
        (response_of proto (write_error_status reliable text r.error r.status []).1)).error
      ≡ some r.error
unfolding kept
refusal_sent gzip text r proto (c, d, s) plain =
    error-write_error_status gzip text r.error r.status proto
      (record { code = c; message = plain; kinds = rw d tt; values = rw d tt }) s
    ∙ ap (λ ds. some (record r.error { details = ds })) (ap kept d ∙ sym d)

-- A client that reads the response to a request which Dispatch refuses gets the very error of the
-- refusal, its code and its message, whatever handlers the server has, if the message is ASCII.
pub error-dispatch_refused :
    (gzip : Gzip) (text : JsonText) (req : Request) (methods : List MethodSpec)
    (reg : ServiceRegistry) (proto : Bytes) (r : Refusal)
    → check req methods ≡ err r
    → IsPlain r.error.message
    → (to_response gzip text
        (response_of proto (dispatch reliable gzip text req methods reg []).1)).error
      ≡ some r.error
unfolding dispatch dispatch_checked
error-dispatch_refused gzip text req methods reg proto r e plain =
    ap
      (λ c.
        (to_response gzip text
          (response_of proto (dispatch_checked reliable gzip text c req reg []).1)).error)
      e
    ∙ refusal_sent gzip text r proto (rw e at (check-Refuses req methods)) plain
