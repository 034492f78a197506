-- ===== src/Client/Unary/Arrival.antt =====
-- What a client gets of the result of a unary handler, over a hop that changes the names of headers
-- in case alone, as net/http does.
use easy_rpc_go.Base.{
  ℕ, ◌≤◌, ◌<◌, ◌≡◌, ◌≢◌, refl, sym, ap, ◌∙◌, append-nil, arith, true, false, [], ◌∷◌, ◌++◌, map,
  none, some, ok, leb,
}
use easy_rpc_go.Base.Int.{ℤ, pos}
use easy_rpc_go.Text.{Bytes, codes, eq_text, to_lower, has_prefix}
use easy_rpc_go.Text.Laws.{eq_text_iff, eq_text_refl}
use easy_rpc_go.Code.{Error, RpcError, http_status}
use easy_rpc_go.Headers.{Headers, get, lookup, values, set, go_headers, demux_trailers}
use easy_rpc_go.Headers.Trailers.{recased, lower_entry, mux_entry}
use easy_rpc_go.Headers.Hop.{IsTidy, muxed, arrived, values-arrived, get-arrived}
use easy_rpc_go.HandlerContext.{HandlerContext}
use easy_rpc_go.Frame.{Gzip}
use easy_rpc_go.Json.{JsonText}
use easy_rpc_go.Content.{ContentKind, content_type_for}
use easy_rpc_go.Message.{Response, status_from_header}
use easy_rpc_go.Server.Writer.{reliable}
use easy_rpc_go.Server.Errors.{as_rpc_error}
use easy_rpc_go.Code.Laws.{http_status_bounds}
use easy_rpc_go.Code.Names.{code_from_string-code_to_string}
use easy_rpc_go.Wire.Details.{kept}
use easy_rpc_go.Wire.Codec.{encode_error_json}
use easy_rpc_go.Wire.Arrival.{decode_error_json-encode_error_json}
use easy_rpc_go.Server.Unary.{unary_headers, respond, respond_error}
use easy_rpc_go.Client.Unary.{response_body, response_error, body_error, to_response}
use easy_rpc_go.Client.Unary.Errors.{response_of, IsSendable}
use easy_rpc_go.Client.Unary.Own.{
  IsOwn, typed, zipped, names_apart, typed-IsTidy, zipped-IsTidy, carried,
}

module _ (recase : Bytes → Bytes) (keeps : (k : Bytes) → to_lower (recase k) ≡ to_lower k) where
  -- What a client makes of a response without an error.
  abbrev pub success : Headers → HandlerContext → Bytes → Bytes → Response
  success base hc proto body = record {
    status = 200;
    headers = map (recased recase) (base ++ hc.header) ++ (codes "proto", proto ∷ []) ∷ [];
    body = body;
    trailers = map lower_entry hc.trailer;
    error = none;
  }

  module _ (gzip : Gzip) (text : JsonText) (proto : Bytes) where
    not_encoded :
        (h : Headers) (body : Bytes)
        → values (codes "Content-Encoding") h ≡ []
        → response_body gzip h body ≡ body
    unfolding response_body eq_text
    not_encoded h body e = rw e refl

    plain_body :
        (content_type : Bytes) (hc : HandlerContext) (body : Bytes)
        → IsOwn hc
        → response_body gzip (map (recased recase) (unary_headers (typed content_type) hc)) body
          ≡ body
    unfolding unary_headers has_prefix to_lower
    plain_body content_type hc body o = not_encoded _ body (
        values-arrived recase keeps (codes "Content-Encoding") (typed content_type) hc.header
          hc.trailer (typed-IsTidy content_type hc o) refl (names_apart.2, o.content_encoding))

    headers_arrived :
        (base : Headers) (hc : HandlerContext)
        → IsTidy base hc.header hc.trailer
        → demux_trailers
            (set (codes "proto") proto (go_headers (map (recased recase) (unary_headers base hc))))
          ≡ (
            map (recased recase) (base ++ hc.header) ++ (codes "proto", proto ∷ []) ∷ [],
            map lower_entry hc.trailer,
          )
    unfolding unary_headers
    headers_arrived base hc t = arrived recase keeps base hc.header hc.trailer proto t

    pub respond_plain :
        (kind : ContentKind) (resp : Bytes) (hc : HandlerContext)
        → IsOwn hc
        → to_response gzip text
            (carried recase (response_of proto (respond reliable gzip text kind resp none hc []).1))
          ≡ success (typed (content_type_for false kind)) hc proto resp
    unfolding to_response response_of respond
    respond_plain kind resp hc o =
        rw
          (
            append-nil resp,
            plain_body (content_type_for false kind) hc resp o,
            headers_arrived (typed (content_type_for false kind)) hc
                (typed-IsTidy (content_type_for false kind) hc o),
          )
          refl

    inflated_body :
        (h : Headers) (resp z : Bytes)
        → values (codes "Content-Encoding") h ≡ codes "gzip" ∷ []
        → gzip.compress resp ≡ ok z
        → gzip.compress resp ≢ ok []
        → response_body gzip h z ≡ resp
    unfolding response_body eq_text
    inflated_body h resp [] e made full = absurd (full made)
    inflated_body h resp (c ∷ z) e made full =
        rw (e, gzip.decompress-compress resp (c ∷ z) made) refl

    zipped_values :
        (content_type : Bytes) (rest : Headers)
        → recase (codes "Content-Encoding") ≡ codes "Content-Encoding"
        → values (codes "Content-Encoding") (map (recased recase) (zipped content_type ++ rest))
          ≡ codes "gzip" ∷ []
    unfolding values lookup
    zipped_values content_type rest canonical = ground (
      arith,
      canonical,
      eq_text_refl (codes "Content-Encoding"),
      eq_text_iff (recase (codes "Content-Type")) (codes "Content-Encoding"),
      recased_type,
    )
      where
        recased_type : recase (codes "Content-Type") ≢ codes "Content-Encoding"
        recased_type e = names_apart.2 (sym (keeps (codes "Content-Type")) ∙ ap to_lower e)

    zipped_body :
        (content_type resp z : Bytes) (hc : HandlerContext)
        → recase (codes "Content-Encoding") ≡ codes "Content-Encoding"
        → IsOwn hc
        → gzip.compress resp ≡ ok z
        → gzip.compress resp ≢ ok []
        → response_body gzip (map (recased recase) (unary_headers (zipped content_type) hc)) z
          ≡ resp
    unfolding unary_headers
    zipped_body content_type resp z hc canonical o made full =
        inflated_body _ resp z
          (ap (λ h. values (codes "Content-Encoding") (map (recased recase) h))
              (muxed (zipped content_type) hc.header hc.trailer (zipped-IsTidy content_type hc o))
            ∙ zipped_values content_type (hc.header ++ map mux_entry hc.trailer) canonical)
          made full

    pub respond-zipped :
        (kind : ContentKind) (resp z : Bytes) (hc : HandlerContext)
        → recase (codes "Content-Encoding") ≡ codes "Content-Encoding"
        → IsOwn hc
        → gzip.compress resp ≡ ok z
        → gzip.compress resp ≢ ok []
        → to_response gzip text (
            carried recase
              (response_of proto (respond reliable gzip text kind resp (some z) hc []).1))
          ≡ success (zipped (content_type_for false kind)) hc proto resp
    unfolding to_response response_of respond
    respond-zipped kind resp z hc canonical o made full =
        rw
          (
            append-nil z,
            zipped_body (content_type_for false kind) resp z hc canonical o made full,
            headers_arrived (zipped (content_type_for false kind)) hc
                (zipped-IsTidy (content_type_for false kind) hc o),
          )
          refl

    -- Headers without a code leave the error to the body.
    body_read :
        (re : RpcError) (c status : ℕ) (h : Headers)
        → get (codes "connect-code") h ≡ []
        → re.code ≡ pos c
        → 0 < c
        → c ≤ 16
        → IsSendable re
        → response_error gzip text status h (encode_error_json text re.code re.message re.details)
          ≡ record re { details = kept re.details }
    unfolding response_error body_error status_from_header
    body_read re c status h absent known above below s =
        rw
          (
            absent,
            decode_error_json-encode_error_json text re.code re.message re.details s.message s.kinds
                s.values,
            known,
            code_from_string-code_to_string c (omega arith),
          )
          (ground arith)

    large : (code : ℤ) → leb 300 (http_status code) ≡ true
    large code = ground (arith, http_status_bounds code)

    -- An error with one of the sixteen codes of errors, which the server sends as it is.
    pub error-respond_error :
        (e : Error) (c : ℕ) (hc : HandlerContext)
        → IsOwn hc
        → (as_rpc_error e).code ≡ pos c
        → 0 < c
        → c ≤ 16
        → IsSendable (as_rpc_error e)
        → (to_response gzip text
            (carried recase (response_of proto (respond_error reliable gzip text e hc []).1))).error
          ≡ some (record (as_rpc_error e) { details = kept (as_rpc_error e).details })
    unfolding to_response response_of respond_error
    error-respond_error e c hc o known above below s =
        let re = as_rpc_error e in
        rw
          (
            large re.code,
            append-nil (encode_error_json text re.code re.message re.details),
            plain_body (codes "application/json") hc
                (encode_error_json text re.code re.message re.details) o,
            headers_arrived (typed (codes "application/json")) hc
                (typed-IsTidy (codes "application/json") hc o),
            body_read re c (http_status re.code)
                (map (recased recase) (typed (codes "application/json") ++ hc.header)
                  ++ (codes "proto", proto ∷ []) ∷ [])
                (get-arrived recase keeps (codes "connect-code")
                  (typed (codes "application/json") ++ hc.header) proto
                  (names_apart.3, o.connect_code) names_apart.4)
                known above below s,
          )
          refl
