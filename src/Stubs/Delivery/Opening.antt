-- ===== src/Stubs/Delivery/Opening.antt =====
-- A server-stream call up to its handler: the headers and the request message of a generated client
-- at the server, and the stream that the client opens on the run of the handler.
use easy_rpc_go.Base.{
  ◌≤◌, ◌≡◌, refl, sym, ap, ◌∙◌, arith, Bool, false, true, List, [], ◌∷◌, ◌++◌, append-nil, length,
  All, inl, inr, none, some, ok,
}
use easy_rpc_go.Text.{Bytes, codes, eq_text}
use easy_rpc_go.Headers.{Headers, get, values, set, go_headers}
use easy_rpc_go.HandlerContext.{HandlerContext}
use easy_rpc_go.Frame.{
  Gzip, default_max_message_bytes, put_uint32, frame_flags, frame, read_frame_decompressed,
}
use easy_rpc_go.Frame.RoundTrip.{read_frame_decompressed-frame}
use easy_rpc_go.Frame.Request.{count_frames, read_single_frame}
use easy_rpc_go.Frame.Request.Agreement.{count_frames-read_single_frame}
use easy_rpc_go.Json.{JsonText}
use easy_rpc_go.Content.{
  ContentKind, proto, json, content_type_for, content_kind_of, is_stream_content_type, accepts_gzip,
}
use easy_rpc_go.Message.{Request}
use easy_rpc_go.Server.Writer.{Event, status_set, header_set, written, reliable, ResponseWriter}
use easy_rpc_go.Server.Calls.{Program, MethodSpec, StreamHandler, ServiceRegistry, find_method}
use easy_rpc_go.Server.Stream.{
  header_accept_encoding, data_frame, run_handler, serve_stream, serve_counted, serve_request,
}
use easy_rpc_go.Server.Stream.Transcript.{run_handler-transcript}
use easy_rpc_go.Server.Stream.Delivery.{body_of, Fits}
use easy_rpc_go.Server.Dispatch.{
  Accepted, path_of, request_encoding, check, handler_context, serve, dispatch_checked, dispatch,
}
use easy_rpc_go.Server.Dispatch.Computed.{IsComputed-iff}
use easy_rpc_go.Client.Stream.{new_stream}
use easy_rpc_go.Client.Open.{stream_request_headers, opened}
use easy_rpc_go.Client.Unary.Errors.{response_of}
use easy_rpc_go.Client.Unary.Own.{carried}

-- The headers that the server gets of a stream call: those of the stub, of OpenStream and of the
-- adapter.
abbrev pub stream_call_headers : ContentKind → Headers
stream_call_headers kind =
    (codes "Content-Type", content_type_for true kind ∷ [])
    ∷ (codes "Connect-Accept-Encoding", codes "gzip" ∷ [])
    ∷ (codes ":method", codes "POST" ∷ [])
    ∷ []

pub stream_call_headers_lem :
    (kind : ContentKind)
    → set (codes ":method") (codes "POST") (
        go_headers
          (stream_request_headers ((codes "Content-Type", content_type_for true kind ∷ []) ∷ [])))
      ≡ stream_call_headers kind
unfolding set go_headers stream_request_headers content_type_for values
stream_call_headers_lem proto = refl
stream_call_headers_lem json = refl

-- What Dispatch reads of these headers: the key under which it looks for the encodings that the
-- client accepts is in lower case, so that it finds none.
pub stream_call_headers_read :
    (kind : ContentKind)
    → (get (codes "connect-protocol-version") (stream_call_headers kind) ≡ [])
      × (get (codes ":method") (stream_call_headers kind) ≡ codes "POST")
      × (content_kind_of (get (codes "Content-Type") (stream_call_headers kind)) ≡ some kind)
      × (is_stream_content_type (get (codes "Content-Type") (stream_call_headers kind)) ≡ true)
      × (request_encoding (stream_call_headers kind) ≡ [])
      × (accepts_gzip (values header_accept_encoding (stream_call_headers kind)) ≡ false)
unfolding get content_type_for content_kind_of is_stream_content_type request_encoding accepts_gzip
stream_call_headers_read proto = (refl, refl, refl, refl, refl, refl)
stream_call_headers_read json = (refl, refl, refl, refl, refl, refl)

pub accepted :
    (kind : ContentKind) (path body : Bytes) (methods : List MethodSpec) (spec : MethodSpec)
    → find_method (path_of path) methods ≡ some spec
    → spec.server_stream ≡ true
    → length body ≤ default_max_message_bytes
    → check (record { url = path; headers = stream_call_headers kind; body = body }) methods
      ≡ ok (record { spec = spec; kind = kind; is_gzip = false })
unfolding eq_text
accepted kind path body methods spec found stream small =
    let (version, post, codec, shape, encoding, _) = stream_call_headers_read kind in
    (IsComputed-iff _ methods _).1 (record {
      version = inl version;
      size = small;
      post = inr post;
      method = found;
      codec = codec;
      shape = shape ∙ sym stream;
      encoding = inl encoding;
      gzip = rw encoding refl;
    })

-- The response of a stream's writes.
body-response_of :
    (version : Bytes) (events : List Event) → (response_of version events).body ≡ body_of events
unfolding response_of body_of
body-response_of version [] = refl
body-response_of version (status_set c ∷ es) = body-response_of version es
body-response_of version (header_set h ∷ es) = body-response_of version es
body-response_of version (written p ∷ es) = ap (λ b. p ++ b) (body-response_of version es)

pub smaller :
    (p : Bytes)
    → length (frame p false) ≤ default_max_message_bytes
    → length p ≤ default_max_message_bytes
unfolding frame frame_flags put_uint32
smaller p h = omega arith

pub all_fit :
    (gzip : Gzip) (ps : List Bytes)
    → All (λ p. length p ≤ default_max_message_bytes) ps
    → All (λ p. Fits (data_frame gzip false p)) ps
unfolding data_frame frame frame_flags put_uint32
all_fit gzip [] a = tt
all_fit gzip (p ∷ ps) (h, a) = (omega arith, all_fit gzip ps a)

module _ (gzip : Gzip) (text : JsonText) where
  -- The request message of a stub arrives.
  pub single :
      (p : Bytes)
      → length p ≤ default_max_message_bytes
      → (count_frames (frame p false) ≡ ok 1) × (read_single_frame gzip (frame p false) ≡ ok p)
  single p h = (count_frames-read_single_frame gzip (frame p false) p).1 (
    false,
    ap (λ b. read_frame_decompressed gzip b) (sym (append-nil (frame p false)))
        ∙ read_frame_decompressed-frame gzip p [] false h,
  )

  pub opened_run :
      (recase : Bytes → Bytes) (version : Bytes) (kind : ContentKind) (wants_gzip : Bool)
      (program : Program) (hc : HandlerContext)
      → opened (
          carried recase
            (response_of version (run_handler reliable gzip text kind wants_gzip program hc [])))
        ≡ ok (new_stream (body_of (run_handler reliable gzip text kind wants_gzip program hc [])))
  unfolding opened response_of
  opened_run recase version kind wants_gzip program hc =
      rw
        (
          ap (λ events. (response_of version events).status)
              (run_handler-transcript gzip text kind wants_gzip program hc []),
          body-response_of version (run_handler reliable gzip text kind wants_gzip program hc []),
        )
        refl

  -- From the checks to the run of the handler.
  pub dispatch_stream :
      {S : Type 0} (w : ResponseWriter S) (req : Request) (methods : List MethodSpec)
      (reg : ServiceRegistry) (s : S) (a : Accepted) (h : StreamHandler) (body : Bytes)
      → check req methods ≡ ok a
      → a.spec.server_stream ≡ true
      → reg.stream a.spec.name ≡ some h
      → count_frames req.body ≡ ok 1
      → read_single_frame gzip req.body ≡ ok body
      → dispatch w gzip text req methods reg s ≡ (
        none,
        run_handler w gzip text a.kind
            (accepts_gzip (values header_accept_encoding req.headers))
            (h (handler_context a req.headers) body)
            (handler_context a req.headers).handler
            s,
      )
  unfolding dispatch dispatch_checked serve serve_stream serve_counted serve_request handler_context
  dispatch_stream w req methods reg s a h body passed stream found one single =
      rw (passed, stream, found, one, single) refl
