-- ===== src/Client/Unary.antt =====
-- Unary calls (bridge_nethttp.go: Send). The exchange with the server, `http.NewRequest…` and
-- `client.Do` with the reading of the body, is a parameter.
pub mod Errors
pub mod Refusals
pub mod Own
pub mod Arrival
pub mod Results
use easy_rpc_go.Base.{
  ℕ, Bool, true, false, ◌&&◌, not, List, [], ◌∷◌, ◌++◌, Option, none, some, Result, ok, err, leb,
  if◌then◌else◌, is_empty as is_empty_list,
}
use easy_rpc_go.Base.Int.{ℤ, pos, is_zero}
use easy_rpc_go.Text.{Bytes, codes, eq_text, is_empty}
use easy_rpc_go.Code.{Error, ErrorDetail, RpcError, connect_from_status}
use easy_rpc_go.Headers.{Headers, values, first_or, assign, set, go_headers, demux_trailers}
use easy_rpc_go.Frame.{Gzip}
use easy_rpc_go.Json.{JsonText}
use easy_rpc_go.Wire.Codec.{decode_error_json, no_details}
use easy_rpc_go.Message.{Request, Response, status_from_header}

-- What the exchange returns of an `http.Response`.
pub record HttpResponse : Type 0 where
  pub status : ℕ
  pub headers : Headers
  pub body : Bytes
  pub proto : Bytes

-- `http.Header.Get` of a key in its canonical form.
abbrev pub first_value : Bytes → Headers → Bytes
first_value k h = first_or (values k h) []

-- The headers of the request.
unfoldable pub request_headers : Headers → Headers
request_headers headers =
    let h = go_headers headers in
    let typed =
      if is_empty (first_value (codes "Content-Type") h)
      then set (codes "Content-Type") (codes "application/proto") h
      else h in
    set (codes "Accept-Encoding") (codes "gzip") typed

abbrev inflated : Result Bytes Bytes → Bytes → Bytes
inflated (ok z) body = z
inflated (err e) body = body

-- The body, decompressed if it says that it is gzip and if that works.
unfoldable pub response_body : Gzip → Headers → Bytes → Bytes
response_body gzip headers body =
    if eq_text (first_value (codes "Content-Encoding") headers) (codes "gzip")
      && not (is_empty_list body)
    then inflated (gzip.decompress body) body
    else body

-- An error from the headers, with the details of the body, if it has any.
unfoldable pub with_details : RpcError → ℤ × Bytes × List ErrorDetail → RpcError
with_details e (c, m, ds) =
    if no_details ds
    then e
    else record e { details = ds; message = if is_empty e.message then m else e.message }

-- An error from the body, or else from the status.
unfoldable pub body_error : ℕ → Bytes → ℤ × Bytes × List ErrorDetail → RpcError
body_error status body (c, m, ds) =
    if not (is_zero c)
    then record { code = c; message = m; details = ds }
    else record { code = pos (connect_from_status status); message = body; details = [] }

abbrev response_error_of : Option RpcError → ℕ → Bytes → ℤ × Bytes × List ErrorDetail → RpcError
response_error_of (some e) status body parts = with_details e parts
response_error_of none status body parts = body_error status body parts

module _ (gzip : Gzip) (text : JsonText) where
  -- The error of a response with a status from 300 on.
  unfoldable pub response_error : ℕ → Headers → Bytes → RpcError
  unfolding with_details body_error
  response_error status headers body =
      response_error_of (status_from_header headers) status body (decode_error_json text body)

  -- What `Send` makes of the exchange's response.
  unfoldable pub to_response : HttpResponse → Response
  unfolding response_body response_error
  to_response r =
      let body = response_body gzip r.headers r.body in
      let (headers, trailers) =
        demux_trailers (set (codes "proto") r.proto (go_headers r.headers)) in
      record {
        status = r.status;
        headers = headers;
        body = body;
        trailers = trailers;
        error = if leb 300 r.status then some (response_error r.status headers body) else none;
      }

  unfoldable pub send : (Request → Result Error HttpResponse) → Request → Result Error Response
  unfolding request_headers to_response
  send exchange req = elim (exchange (record req { headers = request_headers req.headers })) [
    | ok r ↦ ok (to_response r)
    | err e ↦ err e
  ]
