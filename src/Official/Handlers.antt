-- ===== src/Official/Handlers.antt =====
-- The handlers of the official conformance server (cmd/conformance-official-server/main.go: Unary,
-- IdempotentUnary, ServerStream and the methods that are not supported).
use easy_rpc_go.Base.{
  Bool, true, false, List, [], ◌∷◌, Option, none, some, Result, ok, err, if◌then◌else◌,
}
use easy_rpc_go.Text.{Bytes, codes}
use easy_rpc_go.Code.{Error, rpc, rpc_error}
use easy_rpc_go.HandlerContext.{HandlerContext}
use easy_rpc_go.Server.Calls.{Context, Program, return, emit}
use easy_rpc_go.Conformance.{stopped}
use easy_rpc_go.Stubs.Official.{ConformanceService}
use easy_rpc_go.Stubs.Official.Messages.{
  ErrorMessage, UnaryOutcome, neither, response_data, error, UnaryResponseDefinition,
  StreamResponseDefinition, RequestInfo, ConformancePayload, UnaryRequest, UnaryResponse,
  IdempotentUnaryRequest, IdempotentUnaryResponse, ServerStreamRequest, ServerStreamResponse,
}
use easy_rpc_go.Official.{Runtime, request_info, to_rpc_error, apply_headers, call_headers}

abbrev pub payload_of : Bytes → Option RequestInfo → Option ConformancePayload
payload_of content info = some (record { content = content; request_info = info })

-- What `Unary` returns for the outcome that the definition names.
unfoldable pub unary_outcome : Runtime → RequestInfo → UnaryOutcome → Result Error UnaryResponse
unfolding to_rpc_error
unary_outcome rt info (error e) = err (rpc (to_rpc_error rt e (some info)))
unary_outcome rt info (response_data d) = ok (record { payload = payload_of d (some info) })
unary_outcome rt info neither = ok (record { payload = payload_of [] (some info) })

-- `Unary` from the definition on.
unfoldable pub unary_defined :
    Runtime
    → RequestInfo
    → Option UnaryResponseDefinition
    → HandlerContext
    → Result Error UnaryResponse × HandlerContext
unfolding unary_outcome apply_headers
unary_defined rt info none hc = (ok (record { payload = payload_of [] (some info) }), hc)
unary_defined rt info (some def) hc = (
  unary_outcome rt info def.response,
  apply_headers def.response_trailers true (apply_headers def.response_headers false hc),
)

unfoldable pub unary :
    Runtime → Context → UnaryRequest → Result Error UnaryResponse × HandlerContext
unfolding request_info unary_defined
unary rt ctx message =
    unary_defined rt (request_info rt ctx (rt.pack_unary message) [] []) message.response_definition
      ctx.handler

unfoldable pub idempotent_unary :
    Runtime
    → Context
    → IdempotentUnaryRequest
    → Result Error IdempotentUnaryResponse × HandlerContext
unfolding request_info
idempotent_unary rt ctx message = (
  ok (record {
    payload = payload_of [] (some (request_info rt ctx (rt.pack_idempotent message) [] []));
  }),
  ctx.handler,
)

module _ (encode : ServerStreamResponse → Bytes) (info : RequestInfo) where
  -- The loop over the data, and what stands behind it, by whether nothing was sent.
  unfoldable pub emit_data : Bool → List Bytes → (Bool → Program) → Program
  emit_data first [] rest = rest first
  emit_data first (d ∷ ds) rest =
      emit (encode (record { payload = payload_of d (if first then some info else none) })) false
        (λ e. stopped e (emit_data false ds rest))

-- The end of `ServerStream`: the error, with the echo if nothing was sent.
unfoldable pub stream_outcome : Runtime → RequestInfo → Option ErrorMessage → Bool → Program
unfolding to_rpc_error
stream_outcome rt info none first = return none
stream_outcome rt info (some e) first =
    return (some (rpc (to_rpc_error rt e (if first then some info else none))))

unfoldable pub stream_defined :
    Runtime
    → (ServerStreamResponse → Bytes)
    → RequestInfo
    → Option StreamResponseDefinition
    → Program
unfolding call_headers emit_data stream_outcome
stream_defined rt encode info none = return none
stream_defined rt encode info (some def) = call_headers def.response_headers false (
    call_headers def.response_trailers true
      (emit_data encode info true def.response_data (stream_outcome rt info def.error)))

unfoldable pub server_stream :
    Runtime → Context → ServerStreamRequest → (ServerStreamResponse → Bytes) → Program
unfolding request_info stream_defined
server_stream rt ctx message encode =
    stream_defined rt encode (request_info rt ctx (rt.pack_stream message) [] [])
      message.response_definition

-- `impl`, with the methods that are not supported.
unfoldable pub impl : Runtime → ConformanceService
unfolding unary idempotent_unary server_stream
impl rt = record {
  unary = unary rt;
  server_stream = server_stream rt;
  client_stream = λ ctx message.
      (err (rpc (rpc_error 12 (codes "client streaming is not supported"))), ctx.handler);
  bidi_stream = λ ctx message encode.
      return (some (rpc (rpc_error 12 (codes "bidi streaming is not supported"))));
  unimplemented = λ ctx message. (err (rpc (rpc_error 12 (codes "unimplemented"))), ctx.handler);
  idempotent_unary = idempotent_unary rt;
}
