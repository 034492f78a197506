-- ===== src/Conformance/Client/Outcomes.antt =====
-- The checks of the conformance client for an error with details and for unary trailers, against
-- the conformance server.
use easy_rpc_go.Base.{ℕ, ◌≡◌, ◌≢◌, refl, ap, ◌∙◌, arith, Bool, [], ◌∷◌, ok}
use easy_rpc_go.Base.Int.{ℤ, pos}
use easy_rpc_go.Text.{Bytes, codes, to_lower, eq_text}
use easy_rpc_go.Code.{rpc}
use easy_rpc_go.Headers.{values}
use easy_rpc_go.HandlerContext
use easy_rpc_go.HandlerContext.{HandlerContext, new_handler_context}
use easy_rpc_go.Frame.{Gzip}
use easy_rpc_go.Json.Codec.{json_text}
use easy_rpc_go.Content.{proto}
use easy_rpc_go.Message.{Request, Response}
use easy_rpc_go.Server.Calls.{Context, MethodSpec}
use easy_rpc_go.Server.Dispatch.{handler_context}
use easy_rpc_go.Client.Interceptors.{base_url_transport}
use easy_rpc_go.Client.Unary.Own.{IsOwn}
use easy_rpc_go.Stubs.{decode_msg}
use easy_rpc_go.Stubs.Delivery.{connection}
use easy_rpc_go.Stubs.Delivery.Unary.{call_context, response-served, received-ok, call_unary-failed}
use easy_rpc_go.Stubs.Conformance.{Codecs, methods}
use easy_rpc_go.Stubs.Conformance.Client as Stub
use easy_rpc_go.Wire.Details.{kept}
use easy_rpc_go.Server.Errors.{as_rpc_error}
use easy_rpc_go.Conformance
use easy_rpc_go.Conformance.Service.{impl}
use easy_rpc_go.Conformance.Client.{
  BaseTransport, transport_of, last_trailers, base_send, base_open_stream, prepended,
}
use easy_rpc_go.Conformance.Client.Checks
use easy_rpc_go.Conformance.Client.Routes.{fail_details-Route, echo_trailer-Route}
use easy_rpc_go.Conformance.Client.Setup.{Arrives, limited, host, registry, client}
use easy_rpc_go.Conformance.Client.Unary.{fresh_IsOwn}

apart_IsOwn :
    (spec : MethodSpec)
    → IsOwn (record (call_context spec proto).handler {
      trailer = (codes "x-trl", codes "unary-x" ∷ []) ∷ [];
    })
unfolding handler_context new_handler_context
apart_IsOwn spec = record {
  headers_apart = tt;
  kept = tt;
  content_type = tt;
  content_encoding = tt;
  connect_code = tt;
  proto = tt;
  trailers_apart = (tt, tt);
}

-- What a Send leaves behind that gets a response.
base_send-ok :
    {C S : Type 0} (b : BaseTransport C S) (ctx : C) (req : Request) (resp : Response)
    → b.rt.send ctx (record req { url = prepended b req.url }) ≡ ok resp
    → base_send b ctx req ≡ (ok resp, record b { trails = resp.trailers })
unfolding base_send
base_send-ok b ctx req resp came = rw came refl

module _ (recase : Bytes → Bytes) (keeps : (k : Bytes) → to_lower (recase k) ≡ to_lower k)
    (canonical : recase (codes "Content-Encoding") ≡ codes "Content-Encoding") (gzip : Gzip)
    (full : (s : Bytes) → gzip.compress s ≢ ok []) (version address : Bytes) (codecs : Codecs)
    (timer_first : Context → ℤ → Bool) where
  module _ {C : Type 0} (fuel : ℕ) (ctx : C) where
    pub check_fail_details-passes :
        Arrives codecs.fail_details_request limited
        → Checks.check_fail_details gzip json_text codecs fuel ctx
            (client recase gzip version address codecs timer_first)
          ≡ ok tt
    unfolding Checks.check_fail_details Stub.fail_details transport_of connection base_url_transport
        base_send base_open_stream prepended impl Conformance.fail_details Checks.is_limited eq_text
        kept as_rpc_error
    check_fail_details-passes there =
        rw
          (call_unary-failed recase keeps gzip json_text version (host address) methods
            (registry codecs timer_first)
            (codes "/easyrpc.conformance.v1.ConformanceService/FailDetails")
            codecs.fail_details_request codecs.fail_details_response (impl timer_first).fail_details
            (fail_details-Route address codecs timer_first) ctx limited [] proto
            (rpc (record {
              code = pos 8;
              message = codes "limited";
              details =
                  record {
                    kind = codes "type.googleapis.com/google.rpc.RetryInfo";
                    value = codes "retry:5s";
                  }
                  ∷ [];
            }))
            8 (call_context (fail_details-Route address codecs timer_first).spec proto).handler refl
            (omega (arith, there.short)) there.same refl refl (omega arith) (omega arith)
            (record {
              code = omega arith;
              message = omega arith;
              kinds = omega arith;
              values = omega arith;
            })
            (fresh_IsOwn (fail_details-Route address codecs timer_first).spec))
          refl

    pub check_echo_trailer-passes :
        Arrives codecs.echo_trailer_request (record { input = codes "x" })
        → Arrives codecs.echo_trailer_response (record { output = codes "trailer:x" })
        → Checks.check_echo_trailer gzip json_text codecs fuel ctx
            (client recase gzip version address codecs timer_first)
          ≡ ok tt
    unfolding Checks.check_echo_trailer Checks.check_sent connection base_url_transport prepended
        impl Conformance.echo_trailer HandlerContext.set_trailer last_trailers values eq_text
        to_lower handler_context new_handler_context
    check_echo_trailer-passes there back =
        let (resp, came, arrived) =
          response-served recase keeps gzip json_text version (host address) methods
            (registry codecs timer_first)
            (codes "/easyrpc.conformance.v1.ConformanceService/EchoTrailer")
            codecs.echo_trailer_request codecs.echo_trailer_response (impl timer_first).echo_trailer
            (echo_trailer-Route address codecs timer_first) ctx (record { input = codes "x" }) proto
            (record { output = codes "trailer:x" })
            (record (call_context (echo_trailer-Route address codecs timer_first).spec
              proto).handler { trailer = (codes "x-trl", codes "unary-x" ∷ []) ∷ [] })
            (omega (arith, there.short)) there.same refl canonical
            (apart_IsOwn (echo_trailer-Route address codecs timer_first).spec) (full _) in
        let (_, no_error, body, trailers) = arrived in
        ap
          (Checks.check_sent gzip json_text codecs fuel ctx
            (client recase gzip version address codecs timer_first))
          (base_send-ok (client recase gzip version address codecs timer_first) ctx _ resp came)
        ∙ rw
            (
              received-ok codecs.echo_trailer_response proto resp
                  (record { output = codes "trailer:x" }) no_error
                  (ap (λ b. decode_msg codecs.echo_trailer_response b proto) body ∙ back.same),
              trailers,
            )
            refl
