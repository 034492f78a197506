-- ===== src/Stubs/Conformance.antt =====
-- The service easyrpc.conformance.v1.ConformanceService
-- (easyrpc/conformance/v1/conformance.easyrpc.go): its methods, the interface that a server
-- implements, its registry, and its client.
pub mod Messages
pub mod Client
use easy_rpc_go.Base.{Bool, true, false, List, [], ◌∷◌}
use easy_rpc_go.Text.{Bytes, codes}
use easy_rpc_go.Server.Calls.{MethodSpec, ServiceRegistry, new_service_registry}
use easy_rpc_go.Stubs.{
  MessageCodec, UnaryMethod, StreamMethod, unary_handler, stream_handler, unary, stream, assign_all,
}
use easy_rpc_go.Stubs.Conformance.Messages.{
  EchoRequest, EchoResponse, CountRequest, CountResponse, FailRequest, FailResponse, HealthRequest,
  HealthResponse, EchoBytesRequest, EchoBytesResponse, SleepRequest, SleepResponse, EmptyRequest,
  EmptyResponse, BigStreamRequest, BigStreamResponse, StreamFailRequest, StreamFailResponse,
  EchoMetaRequest, EchoMetaResponse, BigRequest, BigResponse, FailDetailsRequest,
  FailDetailsResponse, StreamFailDetailsRequest, StreamFailDetailsResponse, EchoTrailerRequest,
  EchoTrailerResponse, CountTrailerRequest, CountTrailerResponse,
}

abbrev pub service_name : Bytes
service_name = codes "easyrpc.conformance.v1.ConformanceService"

-- One line of `ConformanceService_Methods`; no method takes a stream.
abbrev pub method : Bytes → Bytes → Bool → MethodSpec
method name path server_stream = record {
  service = service_name;
  name = name;
  path = path;
  client_stream = false;
  server_stream = server_stream;
}

abbrev pub methods : List MethodSpec
methods =
    method (codes "Health") (codes "/easyrpc.conformance.v1.ConformanceService/Health") false
    ∷ method (codes "Echo") (codes "/easyrpc.conformance.v1.ConformanceService/Echo") false
    ∷ method (codes "Count") (codes "/easyrpc.conformance.v1.ConformanceService/Count") true
    ∷ method (codes "Fail") (codes "/easyrpc.conformance.v1.ConformanceService/Fail") false
    ∷ method (codes "StreamFail") (codes "/easyrpc.conformance.v1.ConformanceService/StreamFail")
        true
    ∷ method (codes "EchoMeta") (codes "/easyrpc.conformance.v1.ConformanceService/EchoMeta") false
    ∷ method (codes "Big") (codes "/easyrpc.conformance.v1.ConformanceService/Big") false
    ∷ method (codes "FailDetails") (codes "/easyrpc.conformance.v1.ConformanceService/FailDetails")
        false
    ∷ method (codes "StreamFailDetails")
        (codes "/easyrpc.conformance.v1.ConformanceService/StreamFailDetails") true
    ∷ method (codes "EchoTrailer") (codes "/easyrpc.conformance.v1.ConformanceService/EchoTrailer")
        false
    ∷ method (codes "CountTrailer")
        (codes "/easyrpc.conformance.v1.ConformanceService/CountTrailer") true
    ∷ method (codes "EchoBytes") (codes "/easyrpc.conformance.v1.ConformanceService/EchoBytes")
        false
    ∷ method (codes "Sleep") (codes "/easyrpc.conformance.v1.ConformanceService/Sleep") false
    ∷ method (codes "Empty") (codes "/easyrpc.conformance.v1.ConformanceService/Empty") false
    ∷ method (codes "BigStream") (codes "/easyrpc.conformance.v1.ConformanceService/BigStream") true
    ∷ []

-- The runtime of protobuf for each message.
pub record Codecs : Type 0 where
  pub echo_request : MessageCodec EchoRequest
  pub echo_response : MessageCodec EchoResponse
  pub count_request : MessageCodec CountRequest
  pub count_response : MessageCodec CountResponse
  pub fail_request : MessageCodec FailRequest
  pub fail_response : MessageCodec FailResponse
  pub health_request : MessageCodec HealthRequest
  pub health_response : MessageCodec HealthResponse
  pub echo_bytes_request : MessageCodec EchoBytesRequest
  pub echo_bytes_response : MessageCodec EchoBytesResponse
  pub sleep_request : MessageCodec SleepRequest
  pub sleep_response : MessageCodec SleepResponse
  pub empty_request : MessageCodec EmptyRequest
  pub empty_response : MessageCodec EmptyResponse
  pub big_stream_request : MessageCodec BigStreamRequest
  pub big_stream_response : MessageCodec BigStreamResponse
  pub stream_fail_request : MessageCodec StreamFailRequest
  pub stream_fail_response : MessageCodec StreamFailResponse
  pub echo_meta_request : MessageCodec EchoMetaRequest
  pub echo_meta_response : MessageCodec EchoMetaResponse
  pub big_request : MessageCodec BigRequest
  pub big_response : MessageCodec BigResponse
  pub fail_details_request : MessageCodec FailDetailsRequest
  pub fail_details_response : MessageCodec FailDetailsResponse
  pub stream_fail_details_request : MessageCodec StreamFailDetailsRequest
  pub stream_fail_details_response : MessageCodec StreamFailDetailsResponse
  pub echo_trailer_request : MessageCodec EchoTrailerRequest
  pub echo_trailer_response : MessageCodec EchoTrailerResponse
  pub count_trailer_request : MessageCodec CountTrailerRequest
  pub count_trailer_response : MessageCodec CountTrailerResponse

-- `ConformanceServiceService`.
pub record ConformanceService : Type 0 where
  pub health : UnaryMethod HealthRequest HealthResponse
  pub echo : UnaryMethod EchoRequest EchoResponse
  pub count : StreamMethod CountRequest CountResponse
  pub fail : UnaryMethod FailRequest FailResponse
  pub stream_fail : StreamMethod StreamFailRequest StreamFailResponse
  pub echo_meta : UnaryMethod EchoMetaRequest EchoMetaResponse
  pub big : UnaryMethod BigRequest BigResponse
  pub fail_details : UnaryMethod FailDetailsRequest FailDetailsResponse
  pub stream_fail_details : StreamMethod StreamFailDetailsRequest StreamFailDetailsResponse
  pub echo_trailer : UnaryMethod EchoTrailerRequest EchoTrailerResponse
  pub count_trailer : StreamMethod CountTrailerRequest CountTrailerResponse
  pub echo_bytes : UnaryMethod EchoBytesRequest EchoBytesResponse
  pub sleep : UnaryMethod SleepRequest SleepResponse
  pub empty : UnaryMethod EmptyRequest EmptyResponse
  pub big_stream : StreamMethod BigStreamRequest BigStreamResponse

-- `RegisterConformanceServiceService`.
unfoldable pub register : Codecs → ConformanceService → ServiceRegistry
unfolding unary_handler stream_handler new_service_registry
register codecs impl =
    assign_all
      (unary (codes "Health")
          (unary_handler codecs.health_request codecs.health_response impl.health)
        ∷ unary (codes "Echo") (unary_handler codecs.echo_request codecs.echo_response impl.echo)
        ∷ stream (codes "Count")
            (stream_handler codecs.count_request codecs.count_response impl.count)
        ∷ unary (codes "Fail") (unary_handler codecs.fail_request codecs.fail_response impl.fail)
        ∷ stream (codes "StreamFail")
            (stream_handler codecs.stream_fail_request codecs.stream_fail_response impl.stream_fail)
        ∷ unary (codes "EchoMeta")
            (unary_handler codecs.echo_meta_request codecs.echo_meta_response impl.echo_meta)
        ∷ unary (codes "Big") (unary_handler codecs.big_request codecs.big_response impl.big)
        ∷ unary (codes "FailDetails") (
            unary_handler codecs.fail_details_request codecs.fail_details_response
              impl.fail_details)
        ∷ stream (codes "StreamFailDetails") (
            stream_handler codecs.stream_fail_details_request codecs.stream_fail_details_response
              impl.stream_fail_details)
        ∷ unary (codes "EchoTrailer") (
            unary_handler codecs.echo_trailer_request codecs.echo_trailer_response
              impl.echo_trailer)
        ∷ stream (codes "CountTrailer") (
            stream_handler codecs.count_trailer_request codecs.count_trailer_response
              impl.count_trailer)
        ∷ unary (codes "EchoBytes")
            (unary_handler codecs.echo_bytes_request codecs.echo_bytes_response impl.echo_bytes)
        ∷ unary (codes "Sleep")
            (unary_handler codecs.sleep_request codecs.sleep_response impl.sleep)
        ∷ unary (codes "Empty")
            (unary_handler codecs.empty_request codecs.empty_response impl.empty)
        ∷ stream (codes "BigStream")
            (stream_handler codecs.big_stream_request codecs.big_stream_response impl.big_stream)
        ∷ [])
      new_service_registry
