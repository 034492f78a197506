-- ===== src/Server/Dispatch/Writers.antt =====
-- Dispatch makes the same calls on every writer whose writes succeed.
use easy_rpc_go.Base.{
  ℕ, ◌≡◌, refl, sym, ap, ◌∙◌, Bool, true, false, not, List, [], ◌∷◌, Option, none, some, Result, ok,
  err, ◌==◌, Bool-cases, inl, inr,
}
use easy_rpc_go.Text.{Bytes}
use easy_rpc_go.Code.{Error, RpcError}
use easy_rpc_go.Headers.{Headers, values}
use easy_rpc_go.Frame.{Gzip}
use easy_rpc_go.Frame.Request.{count_frames}
use easy_rpc_go.Message.{Request}
use easy_rpc_go.Content.{ContentKind, accepts_gzip}
use easy_rpc_go.HandlerContext
use easy_rpc_go.HandlerContext.{HandlerContext}
use easy_rpc_go.Json.{JsonText}
use easy_rpc_go.Server.Writer.{ResponseWriter, Event, header_set, reliable}
use easy_rpc_go.Server.Calls.{
  MethodSpec, Context, ServiceRegistry, UnaryHandler, StreamHandler, Program, return, emit,
  set_header, set_trailer,
}
use easy_rpc_go.Server.Errors.{write_error, write_error_status, stream_fail}
use easy_rpc_go.Server.Stream.{
  header_accept_encoding, stream_headers, data_frame, apply_once, write, end_with, emit_frame, run,
  finish, run_handler, serve_request, serve_counted, serve_stream,
}
use easy_rpc_go.Server.Stream.Transcript.{transcript, told, frozen, run_handler-transcript}
use easy_rpc_go.Server.Replay.{replay, state, outcome, silent}
use easy_rpc_go.Server.Unary.{respond_error, respond, respond_result, serve_body, serve_unary}
use easy_rpc_go.Server.Dispatch.{
  Refusal, Accepted, check, handler_context, serve, dispatch_checked, dispatch,
}

module _ {S : Type 0} (w : ResponseWriter S)
    (good : (p : Bytes) (s : S) → (w.write_frame p s).0 ≡ none) where
  -- The writer goes from the state where the recorded calls lead it, with the same result.
  abbrev pub Plays : S → Option Error × S → Option Error × List Event → Type 0
  Plays s x r = x ≡ (r.0, replay w r.1 s)

  last_write : (p : Bytes) (s : S) → w.write_frame p s ≡ (none, (w.write_frame p s).1)
  last_write p s = ap (λ e. (e, (w.write_frame p s).1)) (good p s)

  module _ (gzip : Gzip) (text : JsonText) where
    module _ (kind : ContentKind) (wants_gzip : Bool) where
      speaks :
          (program : Program) (hc : HandlerContext) (s : S)
          → outcome w gzip text kind wants_gzip program
              (state w gzip text kind wants_gzip s hc false true)
            ≡ replay w (told gzip text kind wants_gzip (transcript program hc)) s
      unfolding run finish emit_frame apply_once write end_with transcript told replay
      speaks (return e) hc s = refl
      speaks (emit p true next) hc s = silent w gzip text kind wants_gzip (next _) hc _
      speaks (emit p false next) hc s =
          ap
            (λ e. outcome w gzip text kind wants_gzip (next e) (
              state w gzip text kind wants_gzip (w.write_frame (data_frame gzip wants_gzip p) s).1
                hc false true))
            (good (data_frame gzip wants_gzip p) s)
          ∙ speaks (next none) hc _
      speaks (set_header k v next) hc s = speaks next (HandlerContext.set_header k v hc) s
      speaks (set_trailer k v next) hc s = speaks next (HandlerContext.set_trailer k v hc) s

      opens :
          (program : Program) (hc : HandlerContext) (s : S)
          → outcome w gzip text kind wants_gzip program
              (state w gzip text kind wants_gzip s hc false false)
            ≡ replay w
                (header_set (stream_headers kind wants_gzip (frozen program hc.header))
                  ∷ told gzip text kind wants_gzip (transcript program hc))
                s
      unfolding run finish emit_frame apply_once write end_with transcript told replay frozen
          HandlerContext.set_header HandlerContext.set_trailer
      opens (return e) hc s = refl
      opens (emit p true next) hc s = silent w gzip text kind wants_gzip (next _) hc _
      opens (emit p false next) hc s =
          let s' = w.header (stream_headers kind wants_gzip hc.header) s in
          ap
            (λ e. outcome w gzip text kind wants_gzip (next e) (
              state w gzip text kind wants_gzip (w.write_frame (data_frame gzip wants_gzip p) s').1
                hc false true))
            (good (data_frame gzip wants_gzip p) s')
          ∙ speaks (next none) hc _
      opens (set_header k v next) hc s = opens next (HandlerContext.set_header k v hc) s
      opens (set_trailer k v next) hc s = opens next (HandlerContext.set_trailer k v hc) s

      run_handler_played :
          (program : Program) (hc : HandlerContext) (s : S)
          → run_handler w gzip text kind wants_gzip program hc s
            ≡ replay w (run_handler reliable gzip text kind wants_gzip program hc []) s
      unfolding run_handler replay
      run_handler_played program hc s =
          opens program hc (w.status 200 s)
          ∙ ap (λ events. replay w events s)
              (sym (run_handler-transcript gzip text kind wants_gzip program hc []))

    refused :
        (e : RpcError) (status : ℕ) (s : S)
        → Plays s
            (write_error_status w text e status s)
            (write_error_status reliable text e status [])
    unfolding write_error_status replay
    refused e status s = last_write _ _

    failed_stream :
        (e : RpcError) (hc : HandlerContext) (s : S)
        → Plays s (stream_fail w text e hc s) (stream_fail reliable text e hc [])
    unfolding stream_fail replay
    failed_stream e hc s = last_write _ _

    respond_played :
        (kind : ContentKind) (resp : Bytes) (z : Option Bytes) (hc : HandlerContext) (s : S)
        → Plays s
            (respond w gzip text kind resp z hc s)
            (respond reliable gzip text kind resp z hc [])
    unfolding respond replay
    respond_played kind resp none hc s = last_write _ _
    respond_played kind resp (some z) hc s = last_write _ _

    result_played :
        (ctx : Context) (headers : Headers) (r : Result Error Bytes) (hc : HandlerContext) (s : S)
        → Plays s
            (respond_result w gzip text ctx.handler.kind headers (r, hc) s)
            (respond_result reliable gzip text ctx.handler.kind headers (r, hc) [])
    unfolding respond_result respond_error replay
    result_played ctx headers (err e) hc s = last_write _ _
    result_played ctx headers (ok resp) hc s = respond_played ctx.handler.kind resp _ hc s

    body_played :
        (h : UnaryHandler) (ctx : Context) (headers : Headers) (r : Result RpcError Bytes) (s : S)
        → Plays s
            (serve_body w gzip text h ctx headers r s)
            (serve_body reliable gzip text h ctx headers r [])
    unfolding serve_body write_error
    body_played h ctx headers (err e) s = refused e _ s
    body_played h ctx headers (ok z) s = result_played ctx headers (h ctx z).0 (h ctx z).1 s

    unary_played :
        (h : Option UnaryHandler) (ctx : Context) (headers : Headers) (is_gzip : Bool)
        (body : Bytes) (s : S)
        → Plays s
            (serve_unary w gzip text h ctx headers is_gzip body s)
            (serve_unary reliable gzip text h ctx headers is_gzip body [])
    unfolding serve_unary write_error
    unary_played none ctx headers is_gzip body s = refused _ _ s
    unary_played (some h) ctx headers is_gzip body s = body_played h ctx headers _ s

    request_played :
        (h : StreamHandler) (ctx : Context) (headers : Headers) (r : Result RpcError Bytes) (s : S)
        → Plays s
            (serve_request w gzip text h ctx headers r s)
            (serve_request reliable gzip text h ctx headers r [])
    unfolding serve_request
    request_played h ctx headers (err e) s = failed_stream e ctx.handler s
    request_played h ctx headers (ok z) s =
        ap (λ t. (none, t))
          (run_handler_played ctx.handler.kind
            (accepts_gzip (values header_accept_encoding headers)) (h ctx z) ctx.handler s)

    counted_played :
        (h : StreamHandler) (ctx : Context) (headers : Headers) (body : Bytes)
        (r : Result RpcError ℕ) (s : S)
        → Plays s
            (serve_counted w gzip text h ctx headers body r s)
            (serve_counted reliable gzip text h ctx headers body r [])
    unfolding serve_counted
    counted_played h ctx headers body (err e) s = failed_stream e ctx.handler s
    counted_played h ctx headers body (ok n) s = elim (Bool-cases (not (n == 1))) [
      | inl wrong ↦ rw wrong (failed_stream _ ctx.handler s)
      | inr one ↦ rw one (request_played h ctx headers _ s)
    ]

    stream_played :
        (h : Option StreamHandler) (ctx : Context) (headers : Headers) (body : Bytes) (s : S)
        → Plays s
            (serve_stream w gzip text h ctx headers body s)
            (serve_stream reliable gzip text h ctx headers body [])
    unfolding serve_stream
    stream_played none ctx headers body s = failed_stream _ ctx.handler s
    stream_played (some h) ctx headers body s =
        counted_played h ctx headers body (count_frames body) s

    checked_played :
        (r : Result Refusal Accepted) (req : Request) (reg : ServiceRegistry) (s : S)
        → Plays s
            (dispatch_checked w gzip text r req reg s)
            (dispatch_checked reliable gzip text r req reg [])
    unfolding dispatch_checked serve
    checked_played (err r) req reg s = refused r.error r.status s
    checked_played (ok a) req reg s = elim (Bool-cases a.spec.server_stream) [
      | inl stream ↦ rw stream (
          stream_played (reg.stream a.spec.name) (handler_context a req.headers) req.headers
            req.body s)
      | inr unary ↦ rw unary (
          unary_played (reg.unary a.spec.name) (handler_context a req.headers) req.headers a.is_gzip
            req.body s)
    ]

    pub dispatch_played :
        (req : Request) (methods : List MethodSpec) (reg : ServiceRegistry) (s : S)
        → dispatch w gzip text req methods reg s ≡ (
          (dispatch reliable gzip text req methods reg []).0,
          replay w (dispatch reliable gzip text req methods reg []).1 s,
        )
    unfolding dispatch
    dispatch_played req methods reg s = checked_played (check req methods) req reg s
