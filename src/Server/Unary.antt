-- ===== src/Server/Unary.antt =====
-- The unary branch of Dispatch (server.go): the handler runs to its result before anything is
-- written. A writer's calls keep the order that the branch has.
use easy_rpc_go.Base.{
  Bool, false, ◌&&◌, not, [], ◌∷◌, ◌++◌, Option, none, some, Result, ok, err, length, leb,
  if◌then◌else◌, is_empty as is_empty_list,
}
use easy_rpc_go.Text.{Bytes, codes}
use easy_rpc_go.Code.{Error, RpcError, rpc_error, http_status}
use easy_rpc_go.Headers.{Headers, merge_headers, mux_trailers, values}
use easy_rpc_go.Frame.{Gzip}
use easy_rpc_go.Content.{ContentKind, content_type_for, accepts_gzip}
use easy_rpc_go.HandlerContext.{HandlerContext}
use easy_rpc_go.Json.{JsonText}
use easy_rpc_go.Wire.Codec.{encode_error_json}
use easy_rpc_go.Server.Writer.{ResponseWriter}
use easy_rpc_go.Server.Calls.{Context, UnaryHandler}
use easy_rpc_go.Server.Errors.{as_rpc_error, write_error}
use easy_rpc_go.Server.Stream.{compress_min_bytes, header_accept_encoding}

-- `MuxTrailers(mergeHeaders(base, hc.ResponseHeaders()), hc.Trailers())`.
unfoldable pub unary_headers : Headers → HandlerContext → Headers
unary_headers base hc = mux_trailers (merge_headers base hc.header) hc.trailer

-- `GzipCompress(resp)`, where the branch compresses and that succeeds.
unfoldable pub compressed_response : Gzip → Headers → Bytes → Option Bytes
compressed_response gzip headers resp =
    if accepts_gzip (values header_accept_encoding headers) && leb compress_min_bytes (length resp)
    then elim (gzip.compress resp) [ ok z ↦ some z | err e ↦ none ]
    else none

-- The body that the handler gets.
unfoldable pub request_body : Gzip → Bool → Bytes → Result RpcError Bytes
request_body gzip is_gzip body =
    if is_gzip && not (is_empty_list body)
    then elim (gzip.decompress body) [
      | ok z ↦ ok z
      | err e ↦ err (rpc_error 13 (codes "corrupt request gzip: " ++ e))
    ]
    else ok body

module _ {S : Type 0} (w : ResponseWriter S) (gzip : Gzip) (text : JsonText) where
  -- What stands behind a handler's error.
  unfoldable pub respond_error : Error → HandlerContext → S → Option Error × S
  respond_error e hc s =
      let re = as_rpc_error e in
      w.write_frame (encode_error_json text re.code re.message re.details) (
        w.status (http_status re.code) (
          w.header (unary_headers ((codes "Content-Type", codes "application/json" ∷ []) ∷ []) hc)
            s))

  -- What stands behind a handler's response, with what gzip made of it.
  unfoldable pub respond :
      ContentKind → Bytes → Option Bytes → HandlerContext → S → Option Error × S
  respond kind resp (some z) hc s = w.write_frame z (
      w.status 200 (
        w.header
          (unary_headers
            ((codes "Content-Type", content_type_for false kind ∷ [])
              ∷ (codes "Content-Encoding", codes "gzip" ∷ [])
              ∷ [])
            hc)
          s))
  respond kind resp none hc s = w.write_frame resp (
      w.header (unary_headers ((codes "Content-Type", content_type_for false kind ∷ []) ∷ []) hc)
        (w.status 200 s))

  unfoldable pub respond_result :
      ContentKind → Headers → Result Error Bytes × HandlerContext → S → Option Error × S
  unfolding respond respond_error
  respond_result kind headers (err e, hc) s = respond_error e hc s
  respond_result kind headers (ok resp, hc) s =
      respond kind resp (compressed_response gzip headers resp) hc s

  -- From the body that the handler gets on.
  unfoldable pub serve_body :
      UnaryHandler → Context → Headers → Result RpcError Bytes → S → Option Error × S
  unfolding respond_result
  serve_body h ctx headers (err e) s = write_error w text e s
  serve_body h ctx headers (ok z) s = respond_result ctx.handler.kind headers (h ctx z) s

  -- The branch from the look-up of the handler on; `is_gzip` is `reqEnc == EncodingGzip`.
  unfoldable pub serve_unary :
      Option UnaryHandler → Context → Headers → Bool → Bytes → S → Option Error × S
  unfolding serve_body
  serve_unary none ctx headers is_gzip body s =
      write_error w text (rpc_error 5 (codes "method not found")) s
  serve_unary (some h) ctx headers is_gzip body s =
      serve_body h ctx headers (request_body gzip is_gzip body) s
