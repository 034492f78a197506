-- ===== src/Stubs/Conformance/Client.antt =====
-- The client of easyrpc.conformance.v1.ConformanceService
-- (easyrpc/conformance/v1/conformance.easyrpc.go): each method sends its message to its path, over
-- the transport that the client was made with.
use easy_rpc_go.Base.{List, Result}
use easy_rpc_go.Text.{codes}
use easy_rpc_go.Code.{Error}
use easy_rpc_go.Message.{Response}
use easy_rpc_go.Content.{CallOption}
use easy_rpc_go.Client.Interceptors.{Transport}
use easy_rpc_go.Stubs.{call_unary, call_stream}
use easy_rpc_go.Stubs.Conformance.{Codecs}
use easy_rpc_go.Stubs.Conformance.Messages.{
  EchoRequest, EchoResponse, CountRequest, FailRequest, FailResponse, HealthRequest, HealthResponse,
  EchoBytesRequest, EchoBytesResponse, SleepRequest, SleepResponse, EmptyRequest, EmptyResponse,
  BigStreamRequest, StreamFailRequest, EchoMetaRequest, EchoMetaResponse, BigRequest, BigResponse,
  FailDetailsRequest, FailDetailsResponse, StreamFailDetailsRequest, EchoTrailerRequest,
  EchoTrailerResponse, CountTrailerRequest,
}

module _ {C S : Type 0} (codecs : Codecs) (rt : Transport C (Result Error Response) S) where
  unfoldable pub health : C → HealthRequest → List CallOption → Result Error HealthResponse
  unfolding call_unary
  health =
      call_unary codecs.health_request codecs.health_response
        (codes "/easyrpc.conformance.v1.ConformanceService/Health") rt

  unfoldable pub echo : C → EchoRequest → List CallOption → Result Error EchoResponse
  unfolding call_unary
  echo =
      call_unary codecs.echo_request codecs.echo_response
        (codes "/easyrpc.conformance.v1.ConformanceService/Echo") rt

  unfoldable pub count : C → CountRequest → List CallOption → S
  unfolding call_stream
  count =
      call_stream codecs.count_request (codes "/easyrpc.conformance.v1.ConformanceService/Count") rt

  unfoldable pub fail : C → FailRequest → List CallOption → Result Error FailResponse
  unfolding call_unary
  fail =
      call_unary codecs.fail_request codecs.fail_response
        (codes "/easyrpc.conformance.v1.ConformanceService/Fail") rt

  unfoldable pub stream_fail : C → StreamFailRequest → List CallOption → S
  unfolding call_stream
  stream_fail =
      call_stream codecs.stream_fail_request
        (codes "/easyrpc.conformance.v1.ConformanceService/StreamFail") rt

  unfoldable pub echo_meta : C → EchoMetaRequest → List CallOption → Result Error EchoMetaResponse
  unfolding call_unary
  echo_meta =
      call_unary codecs.echo_meta_request codecs.echo_meta_response
        (codes "/easyrpc.conformance.v1.ConformanceService/EchoMeta") rt

  unfoldable pub big : C → BigRequest → List CallOption → Result Error BigResponse
  unfolding call_unary
  big =
      call_unary codecs.big_request codecs.big_response
        (codes "/easyrpc.conformance.v1.ConformanceService/Big") rt

  unfoldable pub fail_details :
      C → FailDetailsRequest → List CallOption → Result Error FailDetailsResponse
  unfolding call_unary
  fail_details =
      call_unary codecs.fail_details_request codecs.fail_details_response
        (codes "/easyrpc.conformance.v1.ConformanceService/FailDetails") rt

  unfoldable pub stream_fail_details : C → StreamFailDetailsRequest → List CallOption → S
  unfolding call_stream
  stream_fail_details =
      call_stream codecs.stream_fail_details_request
        (codes "/easyrpc.conformance.v1.ConformanceService/StreamFailDetails") rt

  unfoldable pub echo_trailer :
      C → EchoTrailerRequest → List CallOption → Result Error EchoTrailerResponse
  unfolding call_unary
  echo_trailer =
      call_unary codecs.echo_trailer_request codecs.echo_trailer_response
        (codes "/easyrpc.conformance.v1.ConformanceService/EchoTrailer") rt

  unfoldable pub count_trailer : C → CountTrailerRequest → List CallOption → S
  unfolding call_stream
  count_trailer =
      call_stream codecs.count_trailer_request
        (codes "/easyrpc.conformance.v1.ConformanceService/CountTrailer") rt

  unfoldable pub echo_bytes :
      C → EchoBytesRequest → List CallOption → Result Error EchoBytesResponse
  unfolding call_unary
  echo_bytes =
      call_unary codecs.echo_bytes_request codecs.echo_bytes_response
        (codes "/easyrpc.conformance.v1.ConformanceService/EchoBytes") rt

  unfoldable pub sleep : C → SleepRequest → List CallOption → Result Error SleepResponse
  unfolding call_unary
  sleep =
      call_unary codecs.sleep_request codecs.sleep_response
        (codes "/easyrpc.conformance.v1.ConformanceService/Sleep") rt

  unfoldable pub empty : C → EmptyRequest → List CallOption → Result Error EmptyResponse
  unfolding call_unary
  empty =
      call_unary codecs.empty_request codecs.empty_response
        (codes "/easyrpc.conformance.v1.ConformanceService/Empty") rt

  unfoldable pub big_stream : C → BigStreamRequest → List CallOption → S
  unfolding call_stream
  big_stream =
      call_stream codecs.big_stream_request
        (codes "/easyrpc.conformance.v1.ConformanceService/BigStream") rt
