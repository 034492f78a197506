-- ===== src/Client/Unary/Results.antt =====
-- A unary call from the request that passes the checks of Dispatch to the response that the client
-- reads, over a hop that changes the names of headers in case alone.
use easy_rpc_go.Base.{
  ℕ, ◌≤◌, ◌<◌, ◌≡◌, ◌≢◌, refl, arith, false, List, [], map, Option, none, some, ok, err,
}
use easy_rpc_go.Base.Int.{pos}
use easy_rpc_go.Text.{Bytes, codes, to_lower}
use easy_rpc_go.Code.{Error}
use easy_rpc_go.Headers.{Headers}
use easy_rpc_go.Headers.Trailers.{lower_entry}
use easy_rpc_go.HandlerContext.{HandlerContext}
use easy_rpc_go.Frame.{Gzip}
use easy_rpc_go.Json.{JsonText}
use easy_rpc_go.Content.{ContentKind}
use easy_rpc_go.Message.{Request, Response}
use easy_rpc_go.Wire.Details.{kept}
use easy_rpc_go.Server.Writer.{ResponseWriter, reliable}
use easy_rpc_go.Server.Calls.{UnaryHandler, MethodSpec, ServiceRegistry}
use easy_rpc_go.Server.Errors.{as_rpc_error}
use easy_rpc_go.Server.Unary.{
  compressed_response, request_body, respond, respond_result, serve_body, serve_unary,
}
use easy_rpc_go.Server.Dispatch.{
  Accepted, check, handler_context, serve, dispatch_checked, dispatch,
}
use easy_rpc_go.Client.Unary.{to_response}
use easy_rpc_go.Client.Unary.Errors.{response_of, IsSendable}
use easy_rpc_go.Client.Unary.Own.{IsOwn, carried}
use easy_rpc_go.Client.Unary.Arrival.{respond_plain, respond-zipped, error-respond_error}

-- The handler's result, for any writer.
module _ {S : Type 0} (w : ResponseWriter S) (gzip : Gzip) (text : JsonText) where
  pub dispatch_unary :
      (req : Request) (methods : List MethodSpec) (reg : ServiceRegistry) (s : S) (a : Accepted)
      (h : UnaryHandler) (body : Bytes)
      → check req methods ≡ ok a
      → a.spec.server_stream ≡ false
      → reg.unary a.spec.name ≡ some h
      → request_body gzip a.is_gzip req.body ≡ ok body
      → dispatch w gzip text req methods reg s
        ≡ respond_result w gzip text a.kind req.headers (h (handler_context a req.headers) body) s
  unfolding dispatch dispatch_checked serve serve_unary serve_body
  dispatch_unary req methods reg s a h body accepted unary found decoded =
      rw (accepted, unary, found, decoded) refl

-- What a client gets of a handler that returns a response.
abbrev pub Succeeds : Response → Bytes → HandlerContext → Type 0
Succeeds r resp hc =
    (r.status ≡ 200)
    × (r.error ≡ none)
    × (r.body ≡ resp)
    × (r.trailers ≡ map lower_entry hc.trailer)

module _ (recase : Bytes → Bytes) (keeps : (k : Bytes) → to_lower (recase k) ≡ to_lower k)
    (gzip : Gzip) (text : JsonText) (proto : Bytes) where
  respond_arrives :
      (kind : ContentKind) (resp : Bytes) (z : Option Bytes) (hc : HandlerContext)
      → recase (codes "Content-Encoding") ≡ codes "Content-Encoding"
      → IsOwn hc
      → gzip.compress resp ≢ ok []
      → ((y : Bytes) → z ≡ some y → gzip.compress resp ≡ ok y)
      → Succeeds
          (to_response gzip text
            (carried recase (response_of proto (respond reliable gzip text kind resp z hc []).1)))
          resp
          hc
  respond_arrives kind resp none hc canonical o full made =
      rw (respond_plain recase keeps gzip text proto kind resp hc o) (refl, refl, refl, refl)
  respond_arrives kind resp (some z) hc canonical o full made =
      rw (respond-zipped recase keeps gzip text proto kind resp z hc canonical o (made z refl) full)
        (refl, refl, refl, refl)

  compressed_by :
      (headers : Headers) (resp y : Bytes)
      → compressed_response gzip headers resp ≡ some y
      → gzip.compress resp ≡ ok y
  unfolding compressed_response
  compressed_by headers resp y e = ground arith

  -- For a request that passes the checks and whose unary handler returns a response, the client
  -- gets status 200, no error, the response's bytes, decompressed if they were compressed, and the
  -- handler's trailers under lower-case names. The names of the handler's own headers and trailers
  -- are apart and none of the runtime's, the network changes header names in case alone and leaves
  -- Content-Encoding, and the gzip text of the response is not empty.
  pub to_response-dispatch_ok :
      (req : Request) (methods : List MethodSpec) (reg : ServiceRegistry) (a : Accepted)
      (h : UnaryHandler) (body resp : Bytes) (hc : HandlerContext)
      → check req methods ≡ ok a
      → a.spec.server_stream ≡ false
      → reg.unary a.spec.name ≡ some h
      → request_body gzip a.is_gzip req.body ≡ ok body
      → h (handler_context a req.headers) body ≡ (ok resp, hc)
      → recase (codes "Content-Encoding") ≡ codes "Content-Encoding"
      → IsOwn hc
      → gzip.compress resp ≢ ok []
      → Succeeds
          (to_response gzip text
            (carried recase (response_of proto (dispatch reliable gzip text req methods reg []).1)))
          resp
          hc
  unfolding respond_result
  to_response-dispatch_ok req methods reg a h body resp hc accepted unary found decoded returned
        canonical o full =
      rw
        (
          dispatch_unary reliable gzip text req methods reg [] a h body accepted unary found
              decoded,
          returned,
        )
        (respond_arrives a.kind resp (compressed_response gzip req.headers resp) hc canonical o full
          (compressed_by req.headers resp))

  pub error-dispatch_failed :
      (req : Request) (methods : List MethodSpec) (reg : ServiceRegistry) (a : Accepted)
      (h : UnaryHandler) (body : Bytes) (e : Error) (c : ℕ) (hc : HandlerContext)
      → check req methods ≡ ok a
      → a.spec.server_stream ≡ false
      → reg.unary a.spec.name ≡ some h
      → request_body gzip a.is_gzip req.body ≡ ok body
      → h (handler_context a req.headers) body ≡ (err e, hc)
      → (as_rpc_error e).code ≡ pos c
      → 0 < c
      → c ≤ 16
      → IsSendable (as_rpc_error e)
      → IsOwn hc
      → (to_response gzip text (
          carried recase
            (response_of proto (dispatch reliable gzip text req methods reg []).1))).error
        ≡ some (record (as_rpc_error e) { details = kept (as_rpc_error e).details })
  unfolding respond_result
  error-dispatch_failed req methods reg a h body e c hc accepted unary found decoded returned known
        above below s o =
      rw
        (
          dispatch_unary reliable gzip text req methods reg [] a h body accepted unary found
              decoded,
          returned,
        )
        (error-respond_error recase keeps gzip text proto e c hc o known above below s)
