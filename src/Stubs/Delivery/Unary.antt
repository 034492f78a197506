-- ===== src/Stubs/Delivery/Unary.antt =====
-- A unary call from a generated client to a generated service, and all the way back.
use easy_rpc_go.Stubs.Delivery.{connection}
use easy_rpc_go.Stubs.Delivery.Arriving.{call_headers, call_headers_lem, accepted}
use easy_rpc_go.Base.{
  ℕ, ◌≤◌, ◌<◌, ◌≡◌, ◌≢◌, refl, ap, ◌∙◌, none, false, List, [], ◌++◌, drop-append, length, some,
  Result, ok, err,
}
use easy_rpc_go.Base.Int.{pos}
use easy_rpc_go.Text.{Bytes, codes, to_lower}
use easy_rpc_go.Code.{Error, rpc}
use easy_rpc_go.HandlerContext.{HandlerContext}
use easy_rpc_go.Frame.{Gzip, default_max_message_bytes}
use easy_rpc_go.Json.{JsonText}
use easy_rpc_go.Content.{ContentKind, proto, CallOption}
use easy_rpc_go.Wire.Details.{kept}
use easy_rpc_go.Server.Writer.{reliable}
use easy_rpc_go.Server.Calls.{Context, MethodSpec, ServiceRegistry, find_method}
use easy_rpc_go.Server.Errors.{as_rpc_error}
use easy_rpc_go.Server.Unary.{request_body}
use easy_rpc_go.Server.Dispatch.{path_of, handler_context, dispatch}
use easy_rpc_go.Server.Adapter.{to_request}
use easy_rpc_go.Client.Interceptors.{prepend}
use easy_rpc_go.Client.Unary.{to_response}
use easy_rpc_go.Client.Unary.Errors.{response_of, IsSendable}
use easy_rpc_go.Client.Unary.Own.{IsOwn, carried}
use easy_rpc_go.Client.Unary.Results.{Succeeds, to_response-dispatch_ok, error-dispatch_failed}
use easy_rpc_go.Stubs.{
  MessageCodec, encode_msg, decode_msg, UnaryMethod, unary_handler, encoded, received,
  unary_request, apply_options, call_unary,
}
use easy_rpc_go.Message.{Response}

module _ (recase : Bytes → Bytes) (gzip : Gzip) (text : JsonText) (version base : Bytes)
    (methods : List MethodSpec) (reg : ServiceRegistry) where
  -- The response to the stub's request.
  sent :
      {C I : Type 0} (request : MessageCodec I) (path : Bytes) (ctx : C) (message : I)
      (kind : ContentKind)
      → prepend base path ≡ base ++ path
      → (connection recase gzip text version base methods reg {C = C}).send ctx
          (unary_request request path message kind)
        ≡ ok (
            to_response gzip text (
              carried recase (
                response_of version
                  (dispatch reliable gzip text
                    (record {
                      url = path;
                      headers = call_headers kind;
                      body = encode_msg request message kind;
                    })
                    methods
                    reg
                    []).1)))
  unfolding connection unary_request to_request
  sent request path ctx message kind below =
      rw (below, drop-append base path, call_headers_lem kind) refl

-- A path of the client leads to a method of the service: the base URL stands in front of it, the
-- first method with the path is unary, and the registry has the method's handler under its name.
pub record Route {I O : Type 0} (base : Bytes) (methods : List MethodSpec) (reg : ServiceRegistry)
    (path : Bytes) (request : MessageCodec I) (response : MessageCodec O) (method : UnaryMethod I O)
    : Type 0 where
  pub spec : MethodSpec
  pub prefixed : prepend base path ≡ base ++ path
  pub found : find_method (path_of path) methods ≡ some spec
  pub unary : spec.server_stream ≡ false
  pub registered : reg.unary spec.name ≡ some (unary_handler request response method)

-- A response without an error is the message in its body.
pub received-ok :
    {O : Type 0} (response : MessageCodec O) (kind : ContentKind) (resp : Response) (out : O)
    → resp.error ≡ none
    → decode_msg response resp.body kind ≡ ok out
    → received response kind (ok resp) ≡ ok out
unfolding received
received-ok response kind resp out no_error back = rw no_error back

-- The context that Dispatch makes for such a call.
abbrev pub call_context : MethodSpec → ContentKind → Context
call_context spec kind =
    handler_context (record { spec = spec; kind = kind; is_gzip = false }) (call_headers kind)

module _ (recase : Bytes → Bytes) (keeps : (k : Bytes) → to_lower (recase k) ≡ to_lower k)
    (gzip : Gzip) (text : JsonText) (version base : Bytes) (methods : List MethodSpec)
    (reg : ServiceRegistry) where
  module _ {I O : Type 0} (path : Bytes) (request : MessageCodec I) (response : MessageCodec O)
      (method : UnaryMethod I O) (r : Route base methods reg path request response method) where
    handled :
        (kind : ContentKind) (message : I) (result : Result Error O) (hc : HandlerContext)
        → decode_msg request (encode_msg request message kind) kind ≡ ok message
        → method (call_context r.spec kind) message ≡ (result, hc)
        → unary_handler request response method
            (call_context r.spec kind)
            (encode_msg request message kind)
          ≡ encoded response kind (result, hc)
    unfolding unary_handler handler_context
    handled kind message result hc survives called = rw (survives, called) refl

    -- The response that the stub gets where the service returns a message.
    pub response-served :
        {C : Type 0} (ctx : C) (message : I) (kind : ContentKind) (out : O) (hc : HandlerContext)
        → length (encode_msg request message kind) ≤ default_max_message_bytes
        → decode_msg request (encode_msg request message kind) kind ≡ ok message
        → method (call_context r.spec kind) message ≡ (ok out, hc)
        → recase (codes "Content-Encoding") ≡ codes "Content-Encoding"
        → IsOwn hc
        → gzip.compress (encode_msg response out kind) ≢ ok []
        → (resp : Response) × ((connection recase gzip text version base methods reg).send ctx
              (unary_request request path message kind)
            ≡ ok resp)
          × Succeeds resp (encode_msg response out kind) hc
    unfolding request_body
    response-served ctx message kind out hc small survives called canonical o full = (
      _,
      sent recase gzip text version base methods reg request path ctx message kind r.prefixed,
      to_response-dispatch_ok recase keeps gzip text version
          (record {
            url = path;
            headers = call_headers kind;
            body = encode_msg request message kind;
          })
          methods reg _ (unary_handler request response method) (encode_msg request message kind)
          (encode_msg response out kind) hc
          (accepted kind path (encode_msg request message kind) methods r.spec r.found r.unary
            small)
          r.unary r.registered refl (handled kind message (ok out) hc survives called) canonical o
          full,
    )

    -- A method of the generated client, over NetHTTP and Dispatch, returns the very message that
    -- the service's method returns for the message that was sent, in either codec. The path leads
    -- to the method, both codecs give back what they encode, the request keeps the limit, the names
    -- of the handler's own headers and trailers are apart and none of the runtime's, the network
    -- changes header names in case alone and leaves Content-Encoding, and the gzip text of the
    -- response is not empty.
    pub call_unary-served :
        {C : Type 0} (ctx : C) (message : I) (opts : List CallOption) (kind : ContentKind) (out : O)
        (hc : HandlerContext)
        → apply_options opts proto ≡ kind
        → length (encode_msg request message kind) ≤ default_max_message_bytes
        → decode_msg request (encode_msg request message kind) kind ≡ ok message
        → method (call_context r.spec kind) message ≡ (ok out, hc)
        → decode_msg response (encode_msg response out kind) kind ≡ ok out
        → recase (codes "Content-Encoding") ≡ codes "Content-Encoding"
        → IsOwn hc
        → gzip.compress (encode_msg response out kind) ≢ ok []
        → call_unary request response path
            (connection recase gzip text version base methods reg)
            ctx
            message
            opts
          ≡ ok out
    unfolding call_unary
    call_unary-served ctx message opts kind out hc chosen small survives called returns canonical o
          full =
        let (resp, came, back) =
          response-served ctx message kind out hc small survives called canonical o full in
        let (_, no_error, body, _) = back in
        rw chosen (
          ap (received response kind) came
          ∙ received-ok response kind resp out no_error
              (ap (λ b. decode_msg response b kind) body ∙ returns))

    -- Where the service's method fails, the generated client's method returns that error as an RPC
    -- error with the same code, from 1 to 16, the same message, and the details whose type and
    -- value are not empty. The path leads to the method, the request's codec gives back what it
    -- encodes, the request keeps the limit, the error's texts are ASCII and its values bytes, the
    -- names of the handler's own headers and trailers are apart and none of the runtime's, and the
    -- network changes header names in case alone.
    pub call_unary-failed :
        {C : Type 0} (ctx : C) (message : I) (opts : List CallOption) (kind : ContentKind)
        (e : Error) (c : ℕ) (hc : HandlerContext)
        → apply_options opts proto ≡ kind
        → length (encode_msg request message kind) ≤ default_max_message_bytes
        → decode_msg request (encode_msg request message kind) kind ≡ ok message
        → method (call_context r.spec kind) message ≡ (err e, hc)
        → (as_rpc_error e).code ≡ pos c
        → 0 < c
        → c ≤ 16
        → IsSendable (as_rpc_error e)
        → IsOwn hc
        → call_unary request response path
            (connection recase gzip text version base methods reg)
            ctx
            message
            opts
          ≡ err (rpc (record (as_rpc_error e) { details = kept (as_rpc_error e).details }))
    unfolding call_unary received request_body
    call_unary-failed ctx message opts kind e c hc chosen small survives called known above below s
          o =
        rw
          (
            chosen,
            sent recase gzip text version base methods reg request path ctx message kind r.prefixed,
            error-dispatch_failed recase keeps gzip text version
                (record {
                  url = path;
                  headers = call_headers kind;
                  body = encode_msg request message kind;
                })
                methods reg _ (unary_handler request response method)
                (encode_msg request message kind) e c hc
                (accepted kind path (encode_msg request message kind) methods r.spec r.found r.unary
                  small)
                r.unary r.registered refl (handled kind message (err e) hc survives called) known
                above below s o,
          )
          refl
