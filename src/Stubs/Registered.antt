-- ===== src/Stubs/Registered.antt =====
-- The generated services as a server registers them: the path of each method, through the look-up of
-- Dispatch and the registry, leads to that method of the service.
use easy_rpc_go.Base.{◌≡◌, refl, true, false, List, ◌∷◌, ◌++◌, none, some}
use easy_rpc_go.Text.{Bytes, codes, before}
use easy_rpc_go.Server.Calls.{MethodSpec, ServiceRegistry, UnaryHandler, StreamHandler, find_method}
use easy_rpc_go.Server.Dispatch.{path_of}
use easy_rpc_go.Stubs.{unary_handler, stream_handler}
use easy_rpc_go.Stubs.Conformance
use easy_rpc_go.Stubs.Official

-- The path of a method of a service leads to a handler for one response, and to no other.
abbrev pub UnaryServed : Bytes → List MethodSpec → ServiceRegistry → Bytes → UnaryHandler → Type 0
UnaryServed service methods reg name h =
    (m : MethodSpec) × (find_method (path_of (b'/' ∷ (service ++ b'/' ∷ name))) methods ≡ some m)
    × (m.server_stream ≡ false)
    × (reg.unary m.name ≡ some h)
    × (reg.stream m.name ≡ none)

-- The same of a handler for a stream.
abbrev pub StreamServed : Bytes → List MethodSpec → ServiceRegistry → Bytes → StreamHandler → Type 0
StreamServed service methods reg name h =
    (m : MethodSpec) × (find_method (path_of (b'/' ∷ (service ++ b'/' ∷ name))) methods ≡ some m)
    × (m.server_stream ≡ true)
    × (reg.stream m.name ≡ some h)
    × (reg.unary m.name ≡ none)

-- What a client relies on of the fifteen methods of the conformance service.
abbrev pub IsConformanceServed :
    Conformance.Codecs → Conformance.ConformanceService → List MethodSpec → ServiceRegistry → Type 0
IsConformanceServed codecs service methods reg =
    UnaryServed (codes "easyrpc.conformance.v1.ConformanceService") methods reg (codes "Health")
      (unary_handler codecs.health_request codecs.health_response service.health)
    × UnaryServed (codes "easyrpc.conformance.v1.ConformanceService") methods reg (codes "Echo")
        (unary_handler codecs.echo_request codecs.echo_response service.echo)
    × StreamServed (codes "easyrpc.conformance.v1.ConformanceService") methods reg (codes "Count")
        (stream_handler codecs.count_request codecs.count_response service.count)
    × UnaryServed (codes "easyrpc.conformance.v1.ConformanceService") methods reg (codes "Fail")
        (unary_handler codecs.fail_request codecs.fail_response service.fail)
    × StreamServed (codes "easyrpc.conformance.v1.ConformanceService") methods reg
        (codes "StreamFail")
        (stream_handler codecs.stream_fail_request codecs.stream_fail_response service.stream_fail)
    × UnaryServed (codes "easyrpc.conformance.v1.ConformanceService") methods reg (codes "EchoMeta")
        (unary_handler codecs.echo_meta_request codecs.echo_meta_response service.echo_meta)
    × UnaryServed (codes "easyrpc.conformance.v1.ConformanceService") methods reg (codes "Big")
        (unary_handler codecs.big_request codecs.big_response service.big)
    × UnaryServed (codes "easyrpc.conformance.v1.ConformanceService") methods reg
        (codes "FailDetails")
        (unary_handler codecs.fail_details_request codecs.fail_details_response
          service.fail_details)
    × StreamServed (codes "easyrpc.conformance.v1.ConformanceService") methods reg
        (codes "StreamFailDetails")
        (stream_handler codecs.stream_fail_details_request codecs.stream_fail_details_response
          service.stream_fail_details)
    × UnaryServed (codes "easyrpc.conformance.v1.ConformanceService") methods reg
        (codes "EchoTrailer")
        (unary_handler codecs.echo_trailer_request codecs.echo_trailer_response
          service.echo_trailer)
    × StreamServed (codes "easyrpc.conformance.v1.ConformanceService") methods reg
        (codes "CountTrailer")
        (stream_handler codecs.count_trailer_request codecs.count_trailer_response
          service.count_trailer)
    × UnaryServed (codes "easyrpc.conformance.v1.ConformanceService") methods reg
        (codes "EchoBytes")
        (unary_handler codecs.echo_bytes_request codecs.echo_bytes_response service.echo_bytes)
    × UnaryServed (codes "easyrpc.conformance.v1.ConformanceService") methods reg (codes "Sleep")
        (unary_handler codecs.sleep_request codecs.sleep_response service.sleep)
    × UnaryServed (codes "easyrpc.conformance.v1.ConformanceService") methods reg (codes "Empty")
        (unary_handler codecs.empty_request codecs.empty_response service.empty)
    × StreamServed (codes "easyrpc.conformance.v1.ConformanceService") methods reg
        (codes "BigStream")
        (stream_handler codecs.big_stream_request codecs.big_stream_response service.big_stream)

-- What a client relies on of the six methods of the official service.
abbrev pub IsOfficialServed :
    Official.Codecs → Official.ConformanceService → List MethodSpec → ServiceRegistry → Type 0
IsOfficialServed codecs service methods reg =
    UnaryServed (codes "connectrpc.conformance.v1.ConformanceService") methods reg (codes "Unary")
      (unary_handler codecs.unary_request codecs.unary_response service.unary)
    × StreamServed (codes "connectrpc.conformance.v1.ConformanceService") methods reg
        (codes "ServerStream")
        (stream_handler codecs.server_stream_request codecs.server_stream_response
          service.server_stream)
    × UnaryServed (codes "connectrpc.conformance.v1.ConformanceService") methods reg
        (codes "ClientStream")
        (unary_handler codecs.client_stream_request codecs.client_stream_response
          service.client_stream)
    × StreamServed (codes "connectrpc.conformance.v1.ConformanceService") methods reg
        (codes "BidiStream")
        (stream_handler codecs.bidi_stream_request codecs.bidi_stream_response service.bidi_stream)
    × UnaryServed (codes "connectrpc.conformance.v1.ConformanceService") methods reg
        (codes "Unimplemented")
        (unary_handler codecs.unimplemented_request codecs.unimplemented_response
          service.unimplemented)
    × UnaryServed (codes "connectrpc.conformance.v1.ConformanceService") methods reg
        (codes "IdempotentUnary")
        (unary_handler codecs.idempotent_unary_request codecs.idempotent_unary_response
          service.idempotent_unary)

-- Each of the twenty-one methods of the two generated services is served under its path,
-- /service/Method, by that method of the service with the codecs of its own messages, in its own
-- shape and in no other, whatever the services and the codecs are.
pub registered :
    (codecs : Conformance.Codecs) (service : Conformance.ConformanceService)
    (official_codecs : Official.Codecs) (official : Official.ConformanceService)
    → IsConformanceServed codecs service Conformance.methods (Conformance.register codecs service)
      × IsOfficialServed official_codecs official Official.methods
          (Official.register official_codecs official)
unfolding Conformance.register Official.register find_method path_of before
registered codecs service official_codecs official = (
  (
    (_, refl, refl, refl, refl),
    (_, refl, refl, refl, refl),
    (_, refl, refl, refl, refl),
    (_, refl, refl, refl, refl),
    (_, refl, refl, refl, refl),
    (_, refl, refl, refl, refl),
    (_, refl, refl, refl, refl),
    (_, refl, refl, refl, refl),
    (_, refl, refl, refl, refl),
    (_, refl, refl, refl, refl),
    (_, refl, refl, refl, refl),
    (_, refl, refl, refl, refl),
    (_, refl, refl, refl, refl),
    (_, refl, refl, refl, refl),
    (_, refl, refl, refl, refl),
  ),
  (
    (_, refl, refl, refl, refl),
    (_, refl, refl, refl, refl),
    (_, refl, refl, refl, refl),
    (_, refl, refl, refl, refl),
    (_, refl, refl, refl, refl),
    (_, refl, refl, refl, refl),
  ),
)
