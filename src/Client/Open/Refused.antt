-- ===== src/Client/Open/Refused.antt =====
-- What a client gets when the server refuses a request for a stream.
use easy_rpc_go.Base.{◌≤◌, ◌≡◌, refl, ap, ◌∙◌, append-nil, arith, true, List, [], err, leb}
use easy_rpc_go.Base.Int.{pos}
use easy_rpc_go.Text.{Bytes}
use easy_rpc_go.Code.{rpc, connect_from_status}
use easy_rpc_go.Frame.{Gzip}
use easy_rpc_go.Json.{JsonText}
use easy_rpc_go.Wire.Codec.{encode_error_json}
use easy_rpc_go.Message.{Request}
use easy_rpc_go.Server.Writer.{reliable}
use easy_rpc_go.Server.Calls.{MethodSpec, ServiceRegistry}
use easy_rpc_go.Server.Errors.{write_error_status}
use easy_rpc_go.Server.Dispatch.{Refusal, check, dispatch_checked, dispatch}
use easy_rpc_go.Client.Unary.Errors.{response_of}
use easy_rpc_go.Client.Unary.Refusals.{status_of_refusal}
use easy_rpc_go.Client.Open.{opened}

open_refusal :
    (text : JsonText) (r : Refusal) (proto : Bytes)
    → 300 ≤ r.status
    → opened (response_of proto (write_error_status reliable text r.error r.status []).1)
      ≡ err (
          rpc (record {
            code = pos (connect_from_status r.status);
            message = encode_error_json text r.error.code r.error.message r.error.details;
            details = [];
          }))
unfolding opened response_of write_error_status
open_refusal text r proto h =
    let large : leb 300 r.status ≡ true = ground arith in
    rw (large, append-nil (encode_error_json text r.error.code r.error.message r.error.details))
      refl

-- A client that opens a stream and whose request Dispatch refuses gets an error with the code that
-- its HTTP status leads back to, and with the JSON text of the error as its message.
pub opened-dispatch_refused :
    (gzip : Gzip) (text : JsonText) (req : Request) (methods : List MethodSpec)
    (reg : ServiceRegistry) (proto : Bytes) (r : Refusal)
    → check req methods ≡ err r
    → opened (response_of proto (dispatch reliable gzip text req methods reg []).1)
      ≡ err (
          rpc (record {
            code = pos (connect_from_status r.status);
            message = encode_error_json text r.error.code r.error.message r.error.details;
            details = [];
          }))
unfolding dispatch dispatch_checked
opened-dispatch_refused gzip text req methods reg proto r e =
    ap (λ c. opened (response_of proto (dispatch_checked reliable gzip text c req reg []).1)) e
    ∙ open_refusal text r proto (status_of_refusal req methods r e)
