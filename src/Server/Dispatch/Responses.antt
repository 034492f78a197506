-- ===== src/Server/Dispatch/Responses.antt =====
-- The shape of every response that Dispatch writes.
use easy_rpc_go.Base.{
  ℕ, ◌≡◌, refl, Bool, not, List, [], ◌∷◌, map, Option, none, some, Result, ok, err, ◌==◌, if-either,
}
use easy_rpc_go.Text.{Bytes}
use easy_rpc_go.Code.{Error, RpcError}
use easy_rpc_go.Headers.{Headers, values}
use easy_rpc_go.Frame.{Gzip}
use easy_rpc_go.Frame.Request.{count_frames}
use easy_rpc_go.Message.{Request}
use easy_rpc_go.Content.{ContentKind, accepts_gzip}
use easy_rpc_go.HandlerContext.{HandlerContext}
use easy_rpc_go.Json.{JsonText}
use easy_rpc_go.Server.Writer.{ResponseWriter, Event, status_set, header_set, written}
use easy_rpc_go.Server.Calls.{MethodSpec, Context, ServiceRegistry, UnaryHandler, StreamHandler}
use easy_rpc_go.Server.Errors.{write_error, write_error_status, stream_fail}
use easy_rpc_go.Server.Stream.{header_accept_encoding, serve_request, serve_counted, serve_stream}
use easy_rpc_go.Server.Replay.{replay, run_handler-replay}
use easy_rpc_go.Server.Unary.{respond_error, respond, respond_result, serve_body, serve_unary}
use easy_rpc_go.Server.Dispatch.{
  Refusal, Accepted, check, handler_context, serve, dispatch_checked, dispatch,
}

-- One status and one set of headers, in either order, and then the body in one write or more.
pub data IsResponse : List Event → Type 0 where
  status_first :
      (code : ℕ) (h : Headers) (p : Bytes) (ps : List Bytes)
      → IsResponse (status_set code ∷ header_set h ∷ written p ∷ map written ps)
  header_first :
      (code : ℕ) (h : Headers) (p : Bytes) (ps : List Bytes)
      → IsResponse (header_set h ∷ status_set code ∷ written p ∷ map written ps)

module _ {S : Type 0} (w : ResponseWriter S) (s : S) where
  -- Calls that make up a response lead from the state to that of a result.
  abbrev pub Responds : Option Error × S → Type 0
  Responds r = (events : List Event) × (IsResponse events × (r.1 ≡ replay w events s))

module _ {S : Type 0} (w : ResponseWriter S) (gzip : Gzip) (text : JsonText) (s : S) where
  refused : (e : RpcError) (status : ℕ) → Responds w s (write_error_status w text e status s)
  unfolding write_error_status replay
  refused e status = (_, (IsResponse.status_first _ _ _ [], refl))

  failed_stream : (e : RpcError) (hc : HandlerContext) → Responds w s (stream_fail w text e hc s)
  unfolding stream_fail replay
  failed_stream e hc = (_, (IsResponse.status_first _ _ _ [], refl))

  respond-Responds :
      (kind : ContentKind) (resp : Bytes) (z : Option Bytes) (hc : HandlerContext)
      → Responds w s (respond w gzip text kind resp z hc s)
  unfolding respond replay
  respond-Responds kind resp none hc = (_, (IsResponse.status_first _ _ _ [], refl))
  respond-Responds kind resp (some z) hc = (_, (IsResponse.header_first _ _ _ [], refl))

  result-Responds :
      (kind : ContentKind) (headers : Headers) (r : Result Error Bytes) (hc : HandlerContext)
      → Responds w s (respond_result w gzip text kind headers (r, hc) s)
  unfolding respond_result respond_error replay
  result-Responds kind headers (err e) hc = (_, (IsResponse.header_first _ _ _ [], refl))
  result-Responds kind headers (ok resp) hc = respond-Responds kind resp _ hc

  body-Responds :
      (h : UnaryHandler) (ctx : Context) (headers : Headers) (r : Result RpcError Bytes)
      → Responds w s (serve_body w gzip text h ctx headers r s)
  unfolding serve_body write_error
  body-Responds h ctx headers (err e) = refused e _
  body-Responds h ctx headers (ok z) =
      result-Responds ctx.handler.kind headers (h ctx z).0 (h ctx z).1

  unary-Responds :
      (h : Option UnaryHandler) (ctx : Context) (headers : Headers) (is_gzip : Bool) (body : Bytes)
      → Responds w s (serve_unary w gzip text h ctx headers is_gzip body s)
  unfolding serve_unary write_error
  unary-Responds none ctx headers is_gzip body = refused _ _
  unary-Responds (some h) ctx headers is_gzip body = body-Responds h ctx headers _

  request-Responds :
      (h : StreamHandler) (ctx : Context) (headers : Headers) (r : Result RpcError Bytes)
      → Responds w s (serve_request w gzip text h ctx headers r s)
  unfolding serve_request
  request-Responds h ctx headers (err e) = failed_stream e _
  request-Responds h ctx headers (ok z) =
      let (hs, (p, (ps, same))) =
        run_handler-replay w gzip text ctx.handler.kind
          (accepts_gzip (values header_accept_encoding headers)) (h ctx z) ctx.handler s in
      (_, (IsResponse.status_first 200 hs p ps, same))

  counted-Responds :
      (h : StreamHandler) (ctx : Context) (headers : Headers) (body : Bytes) (r : Result RpcError ℕ)
      → Responds w s (serve_counted w gzip text h ctx headers body r s)
  unfolding serve_counted
  counted-Responds h ctx headers body (err e) = failed_stream e _
  counted-Responds h ctx headers body (ok n) =
      if-either (Responds w s) (not (n == 1)) (failed_stream _ ctx.handler)
        (request-Responds h ctx headers _)

  stream-Responds :
      (h : Option StreamHandler) (ctx : Context) (headers : Headers) (body : Bytes)
      → Responds w s (serve_stream w gzip text h ctx headers body s)
  unfolding serve_stream
  stream-Responds none ctx headers body = failed_stream _ _
  stream-Responds (some h) ctx headers body =
      counted-Responds h ctx headers body (count_frames body)

  checked-Responds :
      (r : Result Refusal Accepted) (req : Request) (reg : ServiceRegistry)
      → Responds w s (dispatch_checked w gzip text r req reg s)
  unfolding dispatch_checked serve
  checked-Responds (err r) req reg = refused r.error r.status
  checked-Responds (ok a) req reg =
      if-either (Responds w s) a.spec.server_stream
        (stream-Responds (reg.stream a.spec.name) (handler_context a req.headers) req.headers
          req.body)
        (unary-Responds (reg.unary a.spec.name) (handler_context a req.headers) req.headers
          a.is_gzip req.body)

  -- Whatever the handlers do and whatever the writes return, Dispatch leads a writer from its state
  -- by the calls of one whole response: a status and headers exactly once, both in front of the
  -- body, and one write or more.
  pub dispatch-Responds :
      (req : Request) (methods : List MethodSpec) (reg : ServiceRegistry)
      → Responds w s (dispatch w gzip text req methods reg s)
  unfolding dispatch
  dispatch-Responds req methods reg = checked-Responds (check req methods) req reg
