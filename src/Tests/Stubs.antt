-- ===== src/Tests/Stubs.antt =====
-- Calls of the generated client of the conformance service, and the registries of both services.
use easy_rpc_go.Base.{◌≡◌, refl, arith, true, false, [], ◌∷◌, some, ok, err}
use easy_rpc_go.Base.Int.{pos}
use easy_rpc_go.Text.{codes, before}
use easy_rpc_go.Code.{eof, rpc}
use easy_rpc_go.Conformance.Client.Endings.{ends_with-IsPlainMessage, ends_with-Fits}
use easy_rpc_go.Frame.{frame, put_uint32, frame_flags}
use easy_rpc_go.Json.Codec.{json_text}
use easy_rpc_go.Content.{proto, content_kind_of, is_stream_content_type}
use easy_rpc_go.Headers.{get}
use easy_rpc_go.HandlerContext
use easy_rpc_go.HandlerContext.{HandlerContext, new_handler_context}
use easy_rpc_go.Message.{Request}
use easy_rpc_go.Wire.Details.{kept}
use easy_rpc_go.Wire.Marshal.{sort_entries}
use easy_rpc_go.Server.Calls.{find_method}
use easy_rpc_go.Server.Unary.{request_body}
use easy_rpc_go.Server.Errors.{as_rpc_error}
use easy_rpc_go.Server.Writer.{reliable}
use easy_rpc_go.Server.Dispatch.{
  path_of, handler_context, negotiate, check_encoding, request_encoding, is_other, check, dispatch,
}
use easy_rpc_go.Server.Stream.{final_message}
use easy_rpc_go.Server.Stream.Transcript.{transcript}
use easy_rpc_go.Server.Stream.Delivery.{farewell}
use easy_rpc_go.Client.Stream.{HttpStream, collect}
use easy_rpc_go.Client.Unary.{to_response}
use easy_rpc_go.Client.Unary.Errors.{response_of}
use easy_rpc_go.Client.Unary.Own.{carried}
use easy_rpc_go.Client.Unary.Results.{Succeeds, to_response-dispatch_ok}
use easy_rpc_go.Stubs.{proto_bytes, encode_msg, decode_msg, unary_handler, call_unary, call_stream}
use easy_rpc_go.Stubs.Delivery.{connection}
use easy_rpc_go.Client.Unary.Errors.{response_of}
use easy_rpc_go.Text.{canonical_header_key}
use easy_rpc_go.Text.Laws.{to_lower-canonical}
use easy_rpc_go.Stubs.Delivery.Unary.{call_context, call_unary-served, call_unary-failed}
use easy_rpc_go.Stubs.Delivery.Streams.{call_stream-served}
use easy_rpc_go.Stubs.Registered.{IsConformanceServed, IsOfficialServed, registered}
use easy_rpc_go.Stubs.Conformance.{method, methods, register}
use easy_rpc_go.Stubs.Official
use easy_rpc_go.Official.Handlers as Handlers
use easy_rpc_go.Conformance
use easy_rpc_go.Conformance.Service.{impl}
use easy_rpc_go.Conformance.Client.Setup.{limited, host, registry}
use easy_rpc_go.Conformance.Client.Unary.{fresh_IsOwn}
use easy_rpc_go.Conformance.Client.Routes.{echo-Route, fail_details-Route, count-StreamRoute}
use easy_rpc_go.Tests.Official.{runtime, official_codecs}
use easy_rpc_go.Tests.Samples.{stored}
use easy_rpc_go.Tests.Run.{codecs, address, fires, full}

call_unary-served_example :
    call_unary codecs.echo_request codecs.echo_response
      (codes "/easyrpc.conformance.v1.ConformanceService/Echo")
      (connection canonical_header_key stored json_text
        (codes "HTTP/1.1")
        (host address)
        methods
        (registry codecs fires))
      tt
      (record { input = codes "hi" })
      []
    ≡ ok (record { output = codes "echo:hi" })
unfolding encode_msg decode_msg proto_bytes impl Conformance.echo canonical_header_key
call_unary-served_example =
    call_unary-served canonical_header_key to_lower-canonical stored json_text (codes "HTTP/1.1")
      (host address) methods (registry codecs fires)
      (codes "/easyrpc.conformance.v1.ConformanceService/Echo") codecs.echo_request
      codecs.echo_response (impl fires).echo (echo-Route address codecs fires) tt
      (record { input = codes "hi" }) [] proto (record { output = codes "echo:hi" })
      (call_context (echo-Route address codecs fires).spec proto).handler refl (omega arith) refl
      refl refl refl (fresh_IsOwn (echo-Route address codecs fires).spec) (full (codes "echo:hi"))

call_unary-failed_example :
    call_unary codecs.fail_details_request codecs.fail_details_response
      (codes "/easyrpc.conformance.v1.ConformanceService/FailDetails")
      (connection canonical_header_key stored json_text
        (codes "HTTP/1.1")
        (host address)
        methods
        (registry codecs fires))
      tt
      limited
      []
    ≡ err (
        rpc (record {
          code = pos 8;
          message = codes "limited";
          details =
              record {
                kind = codes "type.googleapis.com/google.rpc.RetryInfo";
                value = codes "retry:5s";
              }
              ∷ [];
        }))
unfolding encode_msg decode_msg proto_bytes impl Conformance.fail_details as_rpc_error kept
call_unary-failed_example =
    call_unary-failed canonical_header_key to_lower-canonical stored json_text (codes "HTTP/1.1")
      (host address) methods (registry codecs fires)
      (codes "/easyrpc.conformance.v1.ConformanceService/FailDetails") codecs.fail_details_request
      codecs.fail_details_response (impl fires).fail_details
      (fail_details-Route address codecs fires) tt limited [] proto
      (rpc (record {
        code = pos 8;
        message = codes "limited";
        details =
            record {
              kind = codes "type.googleapis.com/google.rpc.RetryInfo";
              value = codes "retry:5s";
            }
            ∷ [];
      }))
      8 (call_context (fail_details-Route address codecs fires).spec proto).handler refl
      (omega arith) refl refl refl (omega arith) (omega arith)
      (record {
        code = omega arith;
        message = omega arith;
        kinds = omega arith;
        values = omega arith;
      })
      (fresh_IsOwn (fail_details-Route address codecs fires).spec)

call_stream-served_example :
    (s : HttpStream) × (call_stream codecs.count_request
        (codes "/easyrpc.conformance.v1.ConformanceService/Count")
        (connection canonical_header_key stored json_text
          (codes "HTTP/1.1")
          (host address)
          methods
          (registry codecs fires))
        tt
        (record { count = pos 2 })
        []
      ≡ ok s)
    × (collect stored json_text 3 s ≡ record {
      messages = (0 ∷ []) ∷ (1 ∷ []) ∷ [];
      error = some eof;
      stream = record { body = []; ended = true; trailers = [] };
    })
unfolding encode_msg decode_msg proto_bytes impl Conformance.count Conformance.emit_each transcript
    final_message handler_context new_handler_context farewell frame frame_flags put_uint32
    sort_entries
call_stream-served_example =
    call_stream-served canonical_header_key stored json_text (codes "HTTP/1.1") (host address)
      methods (registry codecs fires) (codes "/easyrpc.conformance.v1.ConformanceService/Count")
      codecs.count_request codecs.count_response (impl fires).count
      (count-StreamRoute address codecs fires) proto (record { count = pos 2 }) (omega arith) refl
      tt [] refl (omega arith) ends_with-IsPlainMessage ends_with-Fits

abbrev echo_call : Request
echo_call = record {
  url = codes "/easyrpc.conformance.v1.ConformanceService/EchoTrailer";
  headers =
      (codes "Content-Type", codes "application/proto" ∷ [])
      ∷ (codes ":method", codes "POST" ∷ [])
      ∷ [];
  body = codes "x";
}

to_response-dispatch_ok_example :
    Succeeds
      (to_response stored json_text (
        carried canonical_header_key (
          response_of
            (codes "HTTP/1.1")
            (dispatch reliable stored json_text echo_call methods (registry codecs fires) []).1)))
      (codes "trailer:x")
      (record (new_handler_context echo_call.headers) {
        kind = proto;
        trailer = (codes "x-trl", codes "unary-x" ∷ []) ∷ [];
      })
unfolding check register find_method path_of before unary_handler encode_msg decode_msg proto_bytes
    impl Conformance.echo_trailer HandlerContext.set_trailer handler_context new_handler_context
    negotiate check_encoding request_encoding get is_other content_kind_of is_stream_content_type
    request_body
to_response-dispatch_ok_example =
    to_response-dispatch_ok canonical_header_key to_lower-canonical stored json_text
      (codes "HTTP/1.1") echo_call methods (registry codecs fires)
      (record {
        spec =
            method (codes "EchoTrailer")
              (codes "/easyrpc.conformance.v1.ConformanceService/EchoTrailer") false;
        kind = proto;
        is_gzip = false;
      })
      (unary_handler codecs.echo_trailer_request codecs.echo_trailer_response
        (impl fires).echo_trailer)
      (codes "x") (codes "trailer:x")
      (record (new_handler_context echo_call.headers) {
        kind = proto;
        trailer = (codes "x-trl", codes "unary-x" ∷ []) ∷ [];
      })
      refl refl refl refl refl refl
      (record {
        headers_apart = tt;
        kept = tt;
        content_type = tt;
        content_encoding = tt;
        connect_code = tt;
        proto = tt;
        trailers_apart = (tt, tt);
      })
      (full (codes "trailer:x"))

registered_example :
    IsConformanceServed codecs (impl fires) methods (registry codecs fires)
    × IsOfficialServed official_codecs
        (Handlers.impl runtime)
        Official.methods
        (Official.register official_codecs (Handlers.impl runtime))
registered_example = registered codecs (impl fires) official_codecs (Handlers.impl runtime)
