-- ===== src/Stubs/Delivery/Streams.antt =====
-- A server-stream call from a generated client to a generated service: what opens, and what the
-- client's `Recv` loop gets of it.
use easy_rpc_go.Base.{
  suc, ◌≤◌, ◌≡◌, refl, ap, ◌∙◌, false, true, List, [], ◌∷◌, ◌++◌, drop-append, length, map, All,
  some, ok,
}
use easy_rpc_go.Text.{Bytes}
use easy_rpc_go.HandlerContext.{HandlerContext}
use easy_rpc_go.Frame.{Gzip, default_max_message_bytes, frame}
use easy_rpc_go.Json.{JsonText}
use easy_rpc_go.Content.{ContentKind, proto, CallOption}
use easy_rpc_go.Wire.Messages.{IsPlainMessage}
use easy_rpc_go.Server.Writer.{reliable}
use easy_rpc_go.Server.Calls.{Context, Program, MethodSpec, ServiceRegistry, find_method}
use easy_rpc_go.Server.Stream.{end_frame, run_handler}
use easy_rpc_go.Server.Stream.Transcript.{transcript}
use easy_rpc_go.Server.Stream.Delivery.{body_of, Fits, delivered, farewell, collect-run_handler}
use easy_rpc_go.Server.Dispatch.{path_of, handler_context}
use easy_rpc_go.Server.Adapter.{to_request}
use easy_rpc_go.Client.Interceptors.{prepend}
use easy_rpc_go.Client.Stream.{HttpStream, new_stream, collect}
use easy_rpc_go.Stubs.{
  MessageCodec, encode_msg, decode_msg, StreamMethod, stream_handler, stream_request, apply_options,
  call_stream,
}
use easy_rpc_go.Stubs.Delivery.{connection}
use easy_rpc_go.Stubs.Delivery.Opening.{
  stream_call_headers, stream_call_headers_lem, stream_call_headers_read, accepted, smaller,
  all_fit, single, opened_run, dispatch_stream,
}

-- A path of the client leads to a stream method of the service.
pub record StreamRoute {I O : Type 0} (base : Bytes) (methods : List MethodSpec)
    (reg : ServiceRegistry) (path : Bytes) (request : MessageCodec I) (response : MessageCodec O)
    (method : StreamMethod I O) : Type 0 where
  pub spec : MethodSpec
  pub prefixed : prepend base path ≡ base ++ path
  pub found : find_method (path_of path) methods ≡ some spec
  pub stream : spec.server_stream ≡ true
  pub registered : reg.stream spec.name ≡ some (stream_handler request response method)

-- The context that Dispatch makes for such a call.
abbrev pub stream_call_context : MethodSpec → ContentKind → Context
stream_call_context spec kind =
    handler_context (record { spec = spec; kind = kind; is_gzip = false })
      (stream_call_headers kind)

-- What a stream that is not compressed delivers.
all_delivered : (gzip : Gzip) (ps : List Bytes) → map (delivered gzip false) ps ≡ ps
unfolding delivered
all_delivered gzip [] = refl
all_delivered gzip (p ∷ ps) = ap (λ qs. p ∷ qs) (all_delivered gzip ps)

module _ (recase : Bytes → Bytes) (gzip : Gzip) (text : JsonText) (version base : Bytes)
    (methods : List MethodSpec) (reg : ServiceRegistry) where
  module _ {I O : Type 0} (path : Bytes) (request : MessageCodec I) (response : MessageCodec O)
      (method : StreamMethod I O) (r : StreamRoute base methods reg path request response method)
      (kind : ContentKind) (message : I)
      (small : length (frame (encode_msg request message kind) false) ≤ default_max_message_bytes)
      (survives : decode_msg request (encode_msg request message kind) kind ≡ ok message) where
    -- The service's program for the message, and the stream that the client opens on it.
    abbrev program_of : Program
    program_of =
        method (stream_call_context r.spec kind) message (λ out. encode_msg response out kind)

    abbrev hc_of : HandlerContext
    hc_of = (stream_call_context r.spec kind).handler

    abbrev stream_of : HttpStream
    stream_of = new_stream (body_of (run_handler reliable gzip text kind false program_of hc_of []))

    handled :
        stream_handler request response method
          (stream_call_context r.spec kind)
          (encode_msg request message kind)
        ≡ program_of
    unfolding stream_handler handler_context
    handled = rw survives refl

    opens :
        {C : Type 0} (ctx : C)
        → (connection recase gzip text version base methods reg).open_stream ctx
            (stream_request request path message kind)
          ≡ ok stream_of
    unfolding connection stream_request to_request handler_context
    opens ctx =
        let p = encode_msg request message kind in
        let (one, single_one) = single gzip text p (smaller p small) in
        rw
          (
            r.prefixed,
            drop-append base path,
            stream_call_headers_lem kind,
            dispatch_stream gzip text reliable
                (record { url = path; headers = stream_call_headers kind; body = frame p false })
                methods reg [] (record { spec = r.spec; kind = kind; is_gzip = false })
                (stream_handler request response method) p
                (accepted kind path (frame p false) methods r.spec r.found r.stream small) r.stream
                r.registered one single_one,
            (stream_call_headers_read kind).5,
            handled,
          )
          (opened_run gzip text recase version kind false program_of hc_of)

    -- A stream method of the generated client, over NetHTTP and Dispatch, opens a stream on which a
    -- Recv loop gets the payloads that the service's method emits for the message that was sent, in
    -- their order, and, within one call more, io.EOF with the trailers or the method's error. The
    -- path leads to the method, the request's codec gives back what it encodes, request, payloads
    -- and last message keep the limit, and the last message is plain: ASCII texts, byte values,
    -- distinct metadata names. An error whose code is 0 or has no name arrives as code 2, but one
    -- of code 0 without details as io.EOF; a detail without a type or a value does not arrive.
    pub call_stream-served :
        {C : Type 0} (ctx : C) (opts : List CallOption)
        → apply_options opts proto ≡ kind
        → All (λ p. length p ≤ default_max_message_bytes) (transcript program_of hc_of).payloads
        → IsPlainMessage (transcript program_of hc_of).final
        → Fits (end_frame text (transcript program_of hc_of).final)
        → (s : HttpStream) × (call_stream request path
              (connection recase gzip text version base methods reg)
              ctx
              message
              opts
            ≡ ok s)
          × (collect gzip text (suc (length (transcript program_of hc_of).payloads)) s ≡ record {
            messages = (transcript program_of hc_of).payloads;
            error = some (farewell (transcript program_of hc_of).final).0;
            stream = record {
              body = [];
              ended = true;
              trailers = (farewell (transcript program_of hc_of).final).1;
            };
          })
    unfolding call_stream
    call_stream-served ctx opts chosen fits plain end_fits = (
      stream_of,
      ap
            (λ k.
              (connection recase gzip text version base methods reg).open_stream ctx
                (stream_request request path message k))
            chosen
          ∙ opens ctx,
      collect-run_handler gzip text kind false program_of hc_of (all_fit gzip _ fits) plain end_fits
          ∙ rw (all_delivered gzip (transcript program_of hc_of).payloads) refl,
    )
