-- ===== src/Tests/Calls.antt =====
-- Calls from the handler to the client.
use easy_rpc_go.Base.{
  none, Option, List, length, ltb, if◌then◌else◌, ◌≡◌, ◌++◌, refl, arith, All, true, false, [], ◌∷◌,
  some, ok, err, ◌↔◌,
}
use easy_rpc_go.Base.Int.{pos}
use easy_rpc_go.Text.{codes, before}
use easy_rpc_go.Headers.{get}
use easy_rpc_go.Frame.{frame, put_uint32}
use easy_rpc_go.Json.Tokens.{is_unsafe}
use easy_rpc_go.Wire.Marshal.{error_json, metadata_member, entry_members, sort_entries}
use easy_rpc_go.Server.Calls.{find_method}
use easy_rpc_go.Code.{
  connect_from_status, Error, closed_pipe, RpcError, rpc, rpc_error, code_to_string,
  code_from_string,
}
use easy_rpc_go.HandlerContext
use easy_rpc_go.HandlerContext.{HandlerContext, new_handler_context}
use easy_rpc_go.Content.{proto, content_kind_of, is_stream_content_type}
use easy_rpc_go.Json.Codec.{json_text, print_text}
use easy_rpc_go.Wire.Messages.{IsPlainMessage}
use easy_rpc_go.Server.Writer.{reliable}
use easy_rpc_go.Server.Stream.{data_frame, end_frame, run_handler, final_message}
use easy_rpc_go.Server.Stream.Transcript.{transcript}
use easy_rpc_go.Server.Stream.Delivery.{Fits, body_of, delivered, farewell, collect-run_handler}
use easy_rpc_go.Server.Dispatch.{
  Accepted, Refusal, is_other, negotiate, check_encoding, request_encoding, check, dispatch,
}
use easy_rpc_go.Client.Stream.{HttpStream, new_stream, collect}
use easy_rpc_go.Server.Errors.{as_rpc_error, write_error_status}
use easy_rpc_go.Server.Dispatch.Checks.{IsAccepted, check_iff}
use easy_rpc_go.Server.Dispatch.Responses.{Responds, dispatch-Responds}
use easy_rpc_go.Server.Adapter.{NetEvent, NetRequest, serve_net_http}
use easy_rpc_go.Server.Adapter.{to_request}
use easy_rpc_go.Server.Adapter.Delivered.{net_response, canonical, net_response-serve_net_http}
use easy_rpc_go.Client.Unary.Errors.{response_of}
use easy_rpc_go.Server.Adapter.Once.{IsNetResponse, serve_net_http-IsNetResponse}
use easy_rpc_go.Server.StreamWriter.{
  new_stream_writer, payload, ending, end_payload, all_called, framed, all_called-framed,
}
use easy_rpc_go.Client.Open.{opened}
use easy_rpc_go.Client.Open.Refused.{opened-dispatch_refused}
use easy_rpc_go.Client.Unary.{to_response}
use easy_rpc_go.Client.Unary.Errors.{response_of, error-write_error_status}
use easy_rpc_go.Client.Unary.Refusals.{error-dispatch_refused}
use easy_rpc_go.Wire.Details.{kept}
use easy_rpc_go.Wire.Codec.{encode_end_stream, encode_error_json}
use easy_rpc_go.Tests.Samples.{
  stored, overflow, program, watch, watch_request, lost_request, registry,
}

abbrev accepted : Accepted
accepted = record { spec = watch; kind = proto; is_gzip = false }

abbrev not_found : Refusal
not_found = record { error = rpc_error 12 (codes "unimplemented"); status = 404 }

abbrev context : HandlerContext
context = new_handler_context []

final_plain : IsPlainMessage (transcript program context).final
unfolding transcript final_message new_handler_context HandlerContext.set_trailer
    HandlerContext.set_header as_rpc_error
final_plain = record {
  message = omega arith;
  kinds = tt;
  values = tt;
  names = (omega arith, tt);
  texts = ((omega arith, tt), tt);
  distinct = (tt, tt);
}

final-Fits : Fits (end_frame json_text (transcript program context).final)
unfolding transcript final_message new_handler_context HandlerContext.set_trailer
    HandlerContext.set_header as_rpc_error end_frame frame put_uint32 encode_end_stream print_text
    is_unsafe error_json metadata_member entry_members sort_entries
final-Fits = omega arith

payloads-Fits : All (λ p. Fits (data_frame stored false p)) (transcript program context).payloads
unfolding transcript data_frame frame put_uint32
payloads-Fits = omega arith

collect-run_handler_example :
    collect stored json_text 3
      (new_stream (body_of (run_handler reliable stored json_text proto false program context [])))
    ≡ record {
      messages = codes "one" ∷ codes "two" ∷ [];
      error = some (rpc overflow);
      stream = record { body = []; ended = true; trailers = [] };
    }
unfolding transcript delivered farewell as_rpc_error code_from_string kept code_to_string
collect-run_handler_example =
    collect-run_handler stored json_text proto false program context payloads-Fits final_plain
      final-Fits

check_iff_example :
    (check watch_request (watch ∷ []) ≡ ok accepted)
    ↔ IsAccepted watch_request (watch ∷ []) accepted
check_iff_example = check_iff watch_request (watch ∷ []) accepted

dispatch-Responds_example :
    Responds reliable [] (dispatch reliable stored json_text watch_request (watch ∷ []) registry [])
dispatch-Responds_example =
    dispatch-Responds reliable stored json_text [] watch_request (watch ∷ []) registry

abbrev net_request : NetRequest
net_request = record {
  method = codes "POST";
  path = codes "/demo.Session/Watch";
  headers = (codes "Content-Type", codes "application/connect+proto" ∷ []) ∷ [];
  body = 0 ∷ 0 ∷ 0 ∷ 0 ∷ 1 ∷ 65 ∷ [];
}

-- The second write to the peer fails.
abbrev fails_late : List NetEvent → Option Error
fails_late log = if ltb 4 (length log) then some closed_pipe else none

serve_net_http-IsNetResponse_example :
    IsNetResponse
      (serve_net_http fails_late true stored json_text (watch ∷ []) registry net_request)
serve_net_http-IsNetResponse_example =
    serve_net_http-IsNetResponse fails_late true stored json_text (watch ∷ []) registry net_request

lost : check lost_request (watch ∷ []) ≡ err not_found
unfolding check is_other get find_method before
lost = refl

error-dispatch_refused_example :
    (to_response stored json_text (
      response_of
        (codes "HTTP/1.1")
        (dispatch reliable stored json_text lost_request (watch ∷ []) registry []).1)).error
    ≡ some (rpc_error 12 (codes "unimplemented"))
error-dispatch_refused_example =
    error-dispatch_refused stored json_text lost_request (watch ∷ []) registry (codes "HTTP/1.1")
      not_found lost (omega arith)

abbrev teapot : RpcError
teapot = record {
  code = pos 99;
  message = codes "teapot";
  details = record { kind = codes "T"; value = 1 ∷ 200 ∷ [] } ∷ [];
}

error-write_error_status_example :
    (to_response stored json_text (
      response_of (codes "HTTP/1.1") (write_error_status reliable json_text teapot 418 []).1)).error
    ≡ some teapot
unfolding kept
error-write_error_status_example =
    error-write_error_status stored json_text teapot 418 (codes "HTTP/1.1")
      (record {
        code = omega arith;
        message = omega arith;
        kinds = (omega arith, tt);
        values = ((omega arith, (omega arith, tt)), tt);
      })
      (omega arith)

watch_passes : check watch_request (watch ∷ []) ≡ ok accepted
unfolding check is_other get find_method before negotiate content_kind_of is_stream_content_type
    check_encoding request_encoding
watch_passes = refl

all_called-framed_example :
    (all_called
      (λ log. none)
      json_text
      (payload (codes "one") ∷ ending (pos 0) [] ∷ payload (codes "late") ∷ [])
      (new_stream_writer [])).sink
    ≡ frame (codes "one") false ∷ frame [] true ∷ []
unfolding framed end_payload
all_called-framed_example =
    all_called-framed (λ log. none) json_text
      (payload (codes "one") ∷ ending (pos 0) [] ∷ payload (codes "late") ∷ []) []

opened-dispatch_refused_example :
    opened (
      response_of
        (codes "HTTP/1.1")
        (dispatch reliable stored json_text lost_request (watch ∷ []) registry []).1)
    ≡ err (
        rpc (record {
          code = pos 5;
          message = encode_error_json json_text (pos 12) (codes "unimplemented") [];
          details = [];
        }))
unfolding connect_from_status
opened-dispatch_refused_example =
    opened-dispatch_refused stored json_text lost_request (watch ∷ []) registry (codes "HTTP/1.1")
      not_found lost

-- One whole frame, and what comes of a second.
abbrev cut_off : HttpStream
cut_off = new_stream (frame (codes "one") false ++ (0 ∷ 0 ∷ []))

net_response-serve_net_http_example :
    net_response
      (codes "HTTP/1.1")
      []
      (serve_net_http (λ log. none) true stored json_text (watch ∷ []) registry net_request)
    ≡ canonical (
        response_of
          (codes "HTTP/1.1")
          (dispatch reliable stored json_text (to_request net_request) (watch ∷ []) registry []).1)
net_response-serve_net_http_example =
    net_response-serve_net_http true stored json_text (watch ∷ []) registry net_request
      (codes "HTTP/1.1")
