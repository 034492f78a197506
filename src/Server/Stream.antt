-- ===== src/Server/Stream.antt =====
-- The server-stream branch of Dispatch (server.go): the `emit` that the handler gets, and what is
-- written around the handler's run.
pub mod Transcript
pub mod Delivery
use easy_rpc_go.Base.{
  ℕ, suc, Bool, true, false, ◌&&◌, not, List, [], ◌∷◌, ◌++◌, Option, none, some, Result, ok, err,
  length, leb, if◌then◌else◌, ◌==◌,
}
use easy_rpc_go.Base.Int.{ℤ, pos}
use easy_rpc_go.Text.{Bytes, codes}
use easy_rpc_go.Code.{Error, RpcError, rpc_error}
use easy_rpc_go.Headers.{Headers, merge_headers, values}
use easy_rpc_go.Frame.{Gzip, frame, frame_compressed}
use easy_rpc_go.Frame.Request.{count_frames, read_single_frame}
use easy_rpc_go.Content.{ContentKind, content_type_for, accepts_gzip}
use easy_rpc_go.HandlerContext
use easy_rpc_go.HandlerContext.{HandlerContext}
use easy_rpc_go.Json.{JsonText}
use easy_rpc_go.Wire.Structs.{EndStreamMessage, clean_end}
use easy_rpc_go.Wire.Codec.{encode_end_stream}
use easy_rpc_go.Server.Writer.{ResponseWriter}
use easy_rpc_go.Server.Calls.{
  Context, Program, return, emit, set_header, set_trailer, StreamHandler,
}
use easy_rpc_go.Server.Errors.{as_rpc_error, failure, stream_fail}

abbrev pub compress_min_bytes : ℕ
compress_min_bytes = 1024

abbrev pub header_accept_encoding : Bytes
header_accept_encoding = codes "connect-accept-encoding"

-- What the closures of the branch share: the sink, the handler's context, `ended` and
-- `headersApplied`.
pub record StreamState (S : Type 0) : Type 0 where
  pub sink : S
  pub context : HandlerContext
  pub ended : Bool
  pub headers_applied : Bool

-- The response headers of the branch, with those that the handler has set.
unfoldable pub stream_headers : ContentKind → Bool → Headers → Headers
stream_headers kind wants_gzip header =
    merge_headers
      ((codes "Content-Type", content_type_for true kind ∷ [])
        ∷ (if wants_gzip then (codes "Connect-Content-Encoding", codes "gzip" ∷ []) ∷ [] else []))
      header

-- The frame of a message: `if wantsGzip && len(p) >= CompressMinBytes`, `GzipCompress(p)` and
-- `FrameCompressed(z)`, else or if that fails `Frame(p, false)`.
unfoldable pub data_frame : Gzip → Bool → Bytes → Bytes
data_frame gzip wants_gzip p =
    if wants_gzip && leb compress_min_bytes (length p)
    then elim (gzip.compress p) [ ok z ↦ frame_compressed gzip z | err e ↦ frame p false ]
    else frame p false

-- The END frame of a message.
unfoldable pub end_frame : JsonText → EndStreamMessage → Bytes
end_frame text m = frame (encode_end_stream text m) true

-- The message that ends the stream for what the handler returned.
unfoldable pub final_message : Option Error → Headers → EndStreamMessage
final_message none trailers = record clean_end { metadata = trailers }
final_message (some e) trailers = failure (as_rpc_error e) trailers

module _ {S : Type 0} (w : ResponseWriter S) (gzip : Gzip) (text : JsonText) where
  module _ (kind : ContentKind) (wants_gzip : Bool) where
    -- `applyOnce`.
    unfoldable pub apply_once : StreamState S → StreamState S
    apply_once st = if st.headers_applied then st else record st {
      headers_applied = true;
      sink = w.header (stream_headers kind wants_gzip st.context.header) st.sink;
    }

    -- `w.WriteFrame` on the sink.
    unfoldable pub write : Bytes → StreamState S → Option Error × StreamState S
    write b st = let (e, s) = w.write_frame b st.sink in (e, record st { sink = s })

    unfoldable pub end_with : EndStreamMessage → StreamState S → Option Error × StreamState S
    unfolding write
    end_with m st = write (end_frame text m) (record st { ended = true })

    -- The closure `emit`.
    unfoldable pub emit_frame : Bytes → Bool → StreamState S → Option Error × StreamState S
    unfolding apply_once write end_with
    emit_frame p end st =
        if st.ended
        then (none, st)
        else let applied = apply_once st in
          if end
          then end_with (record clean_end { metadata = applied.context.trailer }) applied
          else write (data_frame gzip wants_gzip p) applied

    -- The handler's run: the error that it returns, and the state that it leaves.
    unfoldable pub run : Program → StreamState S → Option Error × StreamState S
    unfolding emit_frame
    run (return e) st = (e, st)
    run (emit p end next) st = let (e, st') = emit_frame p end st in run (next e) st'
    run (set_header k v next) st =
        run next (record st { context = HandlerContext.set_header k v st.context })
    run (set_trailer k v next) st =
        run next (record st { context = HandlerContext.set_trailer k v st.context })

    -- What stands behind the handler's return.
    unfoldable pub finish : Option Error × StreamState S → S
    unfolding apply_once end_with final_message
    finish (e, st) =
        let applied = apply_once st in
        if applied.ended
        then applied.sink
        else (end_with (final_message e applied.context.trailer) applied).1.sink

    unfoldable pub run_handler : Program → HandlerContext → S → S
    unfolding run finish
    run_handler program hc s = finish (
        run program
          (record { sink = w.status 200 s; context = hc; ended = false; headers_applied = false }))

  -- From the reading of the request message on.
  unfoldable pub serve_request :
      StreamHandler → Context → Headers → Result RpcError Bytes → S → Option Error × S
  unfolding run_handler
  serve_request h ctx headers (err e) s = stream_fail w text e ctx.handler s
  serve_request h ctx headers (ok req_body) s = (
    none,
    run_handler ctx.handler.kind (accepts_gzip (values header_accept_encoding headers))
        (h ctx req_body) ctx.handler s,
  )

  -- From the number of the body's frames on.
  unfoldable pub serve_counted :
      StreamHandler → Context → Headers → Bytes → Result RpcError ℕ → S → Option Error × S
  unfolding serve_request
  serve_counted h ctx headers body (err e) s = stream_fail w text e ctx.handler s
  serve_counted h ctx headers body (ok n) s =
      if not (n == 1)
      then stream_fail w text
          (rpc_error 12 (
            if n == 0
            then codes "missing request message"
            else codes "server-stream request must contain exactly one message"))
          ctx.handler s
      else serve_request h ctx headers (read_single_frame gzip body) s

  -- The branch from the look-up of the handler on.
  unfoldable pub serve_stream :
      Option StreamHandler → Context → Headers → Bytes → S → Option Error × S
  unfolding serve_counted
  serve_stream none ctx headers body s =
      stream_fail w text (rpc_error 12 (codes "method not implemented")) ctx.handler s
  serve_stream (some h) ctx headers body s = serve_counted h ctx headers body (count_frames body) s
