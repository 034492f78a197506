-- ===== src/Stubs/Official.antt =====
-- The service connectrpc.conformance.v1.ConformanceService (service.easyrpc.go
-- in conformance/official/connectrpc/conformance/v1):
-- its methods, the interface that a server implements, its registry, and its client.
pub mod Messages
pub mod Client
use easy_rpc_go.Base.{Bool, true, false, List, [], ◌∷◌}
use easy_rpc_go.Text.{Bytes, codes}
use easy_rpc_go.Server.Calls.{MethodSpec, ServiceRegistry, new_service_registry}
use easy_rpc_go.Stubs.{
  MessageCodec, UnaryMethod, StreamMethod, unary_handler, stream_handler, unary, stream, assign_all,
}
use easy_rpc_go.Stubs.Official.Messages.{
  UnaryRequest, UnaryResponse, ServerStreamRequest, ServerStreamResponse, ClientStreamRequest,
  ClientStreamResponse, BidiStreamRequest, BidiStreamResponse, UnimplementedRequest,
  UnimplementedResponse, IdempotentUnaryRequest, IdempotentUnaryResponse,
}

abbrev pub service_name : Bytes
service_name = codes "connectrpc.conformance.v1.ConformanceService"

-- One line of `ConformanceService_Methods`; no method takes a stream.
abbrev pub method : Bytes → Bytes → Bool → MethodSpec
method name path server_stream = record {
  service = service_name;
  name = name;
  path = path;
  client_stream = false;
  server_stream = server_stream;
}

abbrev pub methods : List MethodSpec
methods =
    method (codes "Unary") (codes "/connectrpc.conformance.v1.ConformanceService/Unary") false
    ∷ method (codes "ServerStream")
        (codes "/connectrpc.conformance.v1.ConformanceService/ServerStream") true
    ∷ method (codes "ClientStream")
        (codes "/connectrpc.conformance.v1.ConformanceService/ClientStream") false
    ∷ method (codes "BidiStream") (codes "/connectrpc.conformance.v1.ConformanceService/BidiStream")
        true
    ∷ method (codes "Unimplemented")
        (codes "/connectrpc.conformance.v1.ConformanceService/Unimplemented") false
    ∷ method (codes "IdempotentUnary")
        (codes "/connectrpc.conformance.v1.ConformanceService/IdempotentUnary") false
    ∷ []

-- The runtime of protobuf for each message.
pub record Codecs : Type 0 where
  pub unary_request : MessageCodec UnaryRequest
  pub unary_response : MessageCodec UnaryResponse
  pub server_stream_request : MessageCodec ServerStreamRequest
  pub server_stream_response : MessageCodec ServerStreamResponse
  pub client_stream_request : MessageCodec ClientStreamRequest
  pub client_stream_response : MessageCodec ClientStreamResponse
  pub bidi_stream_request : MessageCodec BidiStreamRequest
  pub bidi_stream_response : MessageCodec BidiStreamResponse
  pub unimplemented_request : MessageCodec UnimplementedRequest
  pub unimplemented_response : MessageCodec UnimplementedResponse
  pub idempotent_unary_request : MessageCodec IdempotentUnaryRequest
  pub idempotent_unary_response : MessageCodec IdempotentUnaryResponse

-- `ConformanceServiceService`.
pub record ConformanceService : Type 0 where
  pub unary : UnaryMethod UnaryRequest UnaryResponse
  pub server_stream : StreamMethod ServerStreamRequest ServerStreamResponse
  pub client_stream : UnaryMethod ClientStreamRequest ClientStreamResponse
  pub bidi_stream : StreamMethod BidiStreamRequest BidiStreamResponse
  pub unimplemented : UnaryMethod UnimplementedRequest UnimplementedResponse
  pub idempotent_unary : UnaryMethod IdempotentUnaryRequest IdempotentUnaryResponse

-- `RegisterConformanceServiceService`.
unfoldable pub register : Codecs → ConformanceService → ServiceRegistry
unfolding unary_handler stream_handler new_service_registry
register codecs impl =
    assign_all
      (unary (codes "Unary") (unary_handler codecs.unary_request codecs.unary_response impl.unary)
        ∷ stream (codes "ServerStream") (
            stream_handler codecs.server_stream_request codecs.server_stream_response
              impl.server_stream)
        ∷ unary (codes "ClientStream") (
            unary_handler codecs.client_stream_request codecs.client_stream_response
              impl.client_stream)
        ∷ stream (codes "BidiStream")
            (stream_handler codecs.bidi_stream_request codecs.bidi_stream_response impl.bidi_stream)
        ∷ unary (codes "Unimplemented") (
            unary_handler codecs.unimplemented_request codecs.unimplemented_response
              impl.unimplemented)
        ∷ unary (codes "IdempotentUnary") (
            unary_handler codecs.idempotent_unary_request codecs.idempotent_unary_response
              impl.idempotent_unary)
        ∷ [])
      new_service_registry
