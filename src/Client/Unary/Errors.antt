-- ===== src/Client/Unary/Errors.antt =====
-- What a client gets of the error responses that the server writes.
use easy_rpc_go.Base.{
  ℕ, ◌≤◌, ◌≡◌, ◌≢◌, append-nil, refl, arith, true, false, List, [], ◌∷◌, ◌++◌, some, leb, All,
  IsByte, Bool-cases, inl, inr,
}
use easy_rpc_go.Base.Int.{ℤ, pos}
use easy_rpc_go.Text.{Bytes, codes, eq_text, is_empty}
use easy_rpc_go.Text.Decimal.{itoa, IsInt64, atoi-itoa, itoa-ne-nil}
use easy_rpc_go.Code.{ErrorDetail, RpcError, code_to_string, code_from_string}
use easy_rpc_go.Headers.{Headers, values, set, go_headers, demux_trailers}
use easy_rpc_go.Frame.{Gzip}
use easy_rpc_go.Json.{JsonText, IsPlain}
use easy_rpc_go.Wire.Codec.{encode_error_json}
use easy_rpc_go.Wire.Details.{kept}
use easy_rpc_go.Wire.Arrival.{decode_error_json-encode_error_json}
use easy_rpc_go.Message.{status_from_header}
use easy_rpc_go.Server.Writer.{Event, status_set, header_set, written, reliable}
use easy_rpc_go.Server.Errors.{write_error_status}
use easy_rpc_go.Client.Unary.{
  HttpResponse, response_body, with_details, response_error, to_response,
}

-- The response that a server's writes make: the last status, the last headers, all the bytes.
unfoldable pub response_of : Bytes → List Event → HttpResponse
response_of proto [] = record { status = 200; headers = []; body = []; proto = proto }
response_of proto (status_set code ∷ events) = record (response_of proto events) { status = code }
response_of proto (header_set h ∷ events) = record (response_of proto events) { headers = h }
response_of proto (written p ∷ events) = record (response_of proto events) {
  body = p ++ (response_of proto events).body;
}

-- The headers of an error response, and what the client makes of them.
abbrev error_headers : ℤ → Bytes → Headers
error_headers code message =
    (codes "Content-Type", codes "application/json" ∷ [])
    ∷ (codes "Connect-Code", itoa code ∷ [])
    ∷ (codes "Connect-Error", message ∷ [])
    ∷ []

abbrev client_headers : ℤ → Bytes → Bytes → Headers
client_headers code message proto =
    (demux_trailers (set (codes "proto") proto (go_headers (error_headers code message)))).0

arrived_headers :
    (code : ℤ) (message proto : Bytes)
    → client_headers code message proto
      ≡ error_headers code message ++ (codes "proto", proto ∷ []) ∷ []
unfolding demux_trailers set go_headers
arrived_headers code message proto = refl

is_empty-ne-nil : (s : Bytes) → s ≢ [] → is_empty s ≡ false
is_empty-ne-nil [] h = absurd (h refl)
is_empty-ne-nil (c ∷ s) h = refl

status_arrives :
    (code : ℤ) (message proto : Bytes)
    → IsInt64 code
    → status_from_header (client_headers code message proto)
      ≡ some (record { code = code; message = message; details = [] })
unfolding status_from_header
status_arrives code message proto h =
    rw
      (
        arrived_headers code message proto,
        is_empty-ne-nil (itoa code) (itoa-ne-nil code),
        atoi-itoa code h,
      )
      refl

-- An error in the headers takes the details of a body that says the same.
with_details_same :
    (code c : ℤ) (message : Bytes) (ds : List ErrorDetail)
    → with_details (record { code = code; message = message; details = [] }) (c, message, ds)
      ≡ record { code = code; message = message; details = ds }
unfolding with_details
with_details_same code c message [] = refl
with_details_same code c message (d ∷ ds) = elim (Bool-cases (is_empty message)) [
  | inl e ↦ rw e refl
  | inr e ↦ rw e refl
]

-- Headers without `Content-Encoding` leave the body.
body_arrives :
    (gzip : Gzip) (code : ℤ) (message body : Bytes)
    → response_body gzip (error_headers code message) body ≡ body
unfolding response_body eq_text values
body_arrives gzip code message body = refl

large : (status : ℕ) → 300 ≤ status → leb 300 status ≡ true
large status h = ground arith

-- What makes an error one that the header can carry and the body too.
pub record IsSendable (e : RpcError) : Type 0 where
  pub code : IsInt64 e.code
  pub message : IsPlain e.message
  pub kinds : All (λ d. IsPlain d.kind) e.details
  pub values : All (λ d. All IsByte d.value) e.details

-- Whatever error the server writes with a status from 300 on, the client of a unary call gets that
-- very code and message, also where the code has no name, and the details whose type and value are
-- not empty. The code is an int64, the texts are ASCII and the values bytes.
pub error-write_error_status :
    (gzip : Gzip) (text : JsonText) (e : RpcError) (status : ℕ) (proto : Bytes)
    → IsSendable e
    → 300 ≤ status
    → (to_response gzip text
        (response_of proto (write_error_status reliable text e status []).1)).error
      ≡ some (record { code = e.code; message = e.message; details = kept e.details })
unfolding to_response response_of write_error_status response_error
error-write_error_status gzip text e status proto h big =
    rw
      (
        large status big,
        append-nil (encode_error_json text e.code e.message e.details),
        body_arrives gzip e.code e.message (encode_error_json text e.code e.message e.details),
        response_error,
        status_arrives e.code e.message proto h.code,
        decode_error_json-encode_error_json text e.code e.message e.details h.message h.kinds
            h.values,
        with_details_same e.code (pos (code_from_string (code_to_string e.code))) e.message
            (kept e.details),
      )
      refl
