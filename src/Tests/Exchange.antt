-- ===== src/Tests/Exchange.antt =====
-- A call of the generated client that Dispatch refuses, over the adapter to net/http.
use easy_rpc_go.Base.{◌≡◌, refl, arith, true, [], ◌∷◌, ok, err}
use easy_rpc_go.Base.Int.{pos}
use easy_rpc_go.Text.{codes, before}
use easy_rpc_go.Json.Codec.{json_text}
use easy_rpc_go.Headers.{get}
use easy_rpc_go.Message.{Request}
use easy_rpc_go.Server.Calls.{find_method}
use easy_rpc_go.Server.Dispatch.{path_of, is_other, check, dispatch}
use easy_rpc_go.Client.Unary.Errors.{response_of}
use easy_rpc_go.Stubs.Delivery.{arriving, exchange}
use easy_rpc_go.Stubs.Delivery.Adapter.{answer, net_request, exchange-serve_net_http}
use easy_rpc_go.Base.{none, ◌++◌}
use easy_rpc_go.Headers.{Headers}
use easy_rpc_go.Headers.Lookup.{CaseDistinct}
use easy_rpc_go.Code.{rpc_error}
use easy_rpc_go.Wire.Codec.{encode_error_json}
use easy_rpc_go.Client.Unary.Errors.{response_of}
use easy_rpc_go.Text.{canonical_header_key, to_lower}
use easy_rpc_go.Server.Errors.{write_error_status}
use easy_rpc_go.Server.Dispatch.{dispatch_checked}
use easy_rpc_go.Server.Adapter.{to_request, serve_net_http}
use easy_rpc_go.Server.Adapter.Delivered.{net_response}
use easy_rpc_go.Stubs.Conformance.{methods}
use easy_rpc_go.Conformance.Client.Setup.{registry}
use easy_rpc_go.Tests.Samples.{stored}
use easy_rpc_go.Tests.Run.{codecs, fires}
use easy_rpc_go.Client.Unary.Own.{apart}
use easy_rpc_go.Text.{eq_text}
use easy_rpc_go.Text.Decimal.{itoa}
use easy_rpc_go.Headers.{set, go_headers}

abbrev lost_call : Request
lost_call = record {
  url = codes "http://127.0.0.1:18888/easyrpc.conformance.v1.ConformanceService/Lost";
  headers = (codes "Content-Type", codes "application/proto" ∷ []) ∷ [];
  body = [];
}

abbrev lost_headers : Headers
lost_headers =
    (codes "Content-Type", codes "application/json" ∷ [])
    ∷ (codes "Connect-Code", codes "12" ∷ [])
    ∷ (codes "Connect-Error", codes "unimplemented" ∷ [])
    ∷ []

lost_refused :
    check (arriving (codes "http://127.0.0.1:18888") lost_call) methods
    ≡ err (record { error = rpc_error 12 (codes "unimplemented"); status = 404 })
unfolding check find_method path_of before to_request is_other get set go_headers
lost_refused = refl

-- What Dispatch answers.
lost_answer :
    answer stored json_text
      (codes "HTTP/1.1")
      (codes "http://127.0.0.1:18888")
      methods
      (registry codecs fires)
      lost_call
    ≡ record {
      status = 404;
      headers = lost_headers;
      body = encode_error_json json_text (pos 12) (codes "unimplemented") [] ++ [];
      proto = codes "HTTP/1.1";
    }
unfolding dispatch dispatch_checked write_error_status response_of itoa
lost_answer = rw lost_refused refl

lost_apart : CaseDistinct lost_headers
unfolding to_lower eq_text
lost_apart = ((apart _ _ refl, (apart _ _ refl, tt)), ((apart _ _ refl, tt), (tt, tt)))

exchange-serve_net_http_example :
    exchange canonical_header_key stored json_text
      (codes "HTTP/1.1")
      (codes "http://127.0.0.1:18888")
      methods
      (registry codecs fires)
      lost_call
    ≡ ok (
        net_response (codes "HTTP/1.1") [] (
          serve_net_http
            (λ log. none)
            true
            stored
            json_text
            methods
            (registry codecs fires)
            (net_request (codes "http://127.0.0.1:18888") lost_call)))
exchange-serve_net_http_example =
    exchange-serve_net_http stored json_text (codes "HTTP/1.1") (codes "http://127.0.0.1:18888")
      methods (registry codecs fires) true lost_call (rw lost_answer (omega arith))
      (rw lost_answer lost_apart) (rw lost_answer (λ e. cc e, (λ e. cc e, (λ e. cc e, tt))))
