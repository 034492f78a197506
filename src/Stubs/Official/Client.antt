-- ===== src/Stubs/Official/Client.antt =====
-- The client of connectrpc.conformance.v1.ConformanceService (service.easyrpc.go
-- in conformance/official/connectrpc/conformance/v1):
-- each method sends its message to its path, over the transport that the client was made with.
use easy_rpc_go.Base.{List, Result}
use easy_rpc_go.Text.{codes}
use easy_rpc_go.Code.{Error}
use easy_rpc_go.Message.{Response}
use easy_rpc_go.Content.{CallOption}
use easy_rpc_go.Client.Interceptors.{Transport}
use easy_rpc_go.Stubs.{call_unary, call_stream}
use easy_rpc_go.Stubs.Official.{Codecs}
use easy_rpc_go.Stubs.Official.Messages.{
  UnaryRequest, UnaryResponse, ServerStreamRequest, ClientStreamRequest, ClientStreamResponse,
  BidiStreamRequest, UnimplementedRequest, UnimplementedResponse, IdempotentUnaryRequest,
  IdempotentUnaryResponse,
}

module _ {C S : Type 0} (codecs : Codecs) (rt : Transport C (Result Error Response) S) where
  unfoldable pub unary : C → UnaryRequest → List CallOption → Result Error UnaryResponse
  unfolding call_unary
  unary =
      call_unary codecs.unary_request codecs.unary_response
        (codes "/connectrpc.conformance.v1.ConformanceService/Unary") rt

  unfoldable pub server_stream : C → ServerStreamRequest → List CallOption → S
  unfolding call_stream
  server_stream =
      call_stream codecs.server_stream_request
        (codes "/connectrpc.conformance.v1.ConformanceService/ServerStream") rt

  unfoldable pub client_stream :
      C → ClientStreamRequest → List CallOption → Result Error ClientStreamResponse
  unfolding call_unary
  client_stream =
      call_unary codecs.client_stream_request codecs.client_stream_response
        (codes "/connectrpc.conformance.v1.ConformanceService/ClientStream") rt

  unfoldable pub bidi_stream : C → BidiStreamRequest → List CallOption → S
  unfolding call_stream
  bidi_stream =
      call_stream codecs.bidi_stream_request
        (codes "/connectrpc.conformance.v1.ConformanceService/BidiStream") rt

  unfoldable pub unimplemented :
      C → UnimplementedRequest → List CallOption → Result Error UnimplementedResponse
  unfolding call_unary
  unimplemented =
      call_unary codecs.unimplemented_request codecs.unimplemented_response
        (codes "/connectrpc.conformance.v1.ConformanceService/Unimplemented") rt

  unfoldable pub idempotent_unary :
      C → IdempotentUnaryRequest → List CallOption → Result Error IdempotentUnaryResponse
  unfolding call_unary
  idempotent_unary =
      call_unary codecs.idempotent_unary_request codecs.idempotent_unary_response
        (codes "/connectrpc.conformance.v1.ConformanceService/IdempotentUnary") rt
