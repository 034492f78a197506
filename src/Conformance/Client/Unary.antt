-- ===== src/Conformance/Client/Unary.antt =====
-- The unary checks of the conformance client against the conformance server.
use easy_rpc_go.Base.{ℕ, ◌≡◌, ◌≢◌, refl, arith, Bool, true, [], ok}
use easy_rpc_go.Base.Int.{ℤ, pos}
use easy_rpc_go.Text.{Bytes, codes, to_lower, eq_text}
use easy_rpc_go.HandlerContext.{new_handler_context}
use easy_rpc_go.Frame.{Gzip}
use easy_rpc_go.Json.Codec.{json_text}
use easy_rpc_go.Content.{proto}
use easy_rpc_go.Server.Calls.{Context, MethodSpec}
use easy_rpc_go.Server.Dispatch.{handler_context}
use easy_rpc_go.Client.Interceptors.{base_url_transport}
use easy_rpc_go.Client.Unary.Own.{IsOwn}
use easy_rpc_go.Stubs.{MessageCodec, UnaryMethod, call_unary, encode_msg}
use easy_rpc_go.Stubs.Delivery.{connection}
use easy_rpc_go.Stubs.Delivery.Unary.{Route, call_context, call_unary-served}
use easy_rpc_go.Stubs.Conformance.{Codecs, method, methods}
use easy_rpc_go.Stubs.Conformance.Client as Stub
use easy_rpc_go.Conformance
use easy_rpc_go.Conformance.Service.{impl}
use easy_rpc_go.Conformance.Client.{transport_of, base_send, base_open_stream, prepended}
use easy_rpc_go.Conformance.Client.Checks
use easy_rpc_go.Conformance.Client.Routes.{echo-Route, echo_bytes-Route, empty-Route, sleep-Route}
use easy_rpc_go.Conformance.Client.Setup.{Arrives, sample, host, registry, client}

-- A context that its handler leaves alone.
pub fresh_IsOwn : (spec : MethodSpec) → IsOwn (call_context spec proto).handler
unfolding handler_context new_handler_context
fresh_IsOwn spec = record {
  headers_apart = tt;
  kept = tt;
  content_type = tt;
  content_encoding = tt;
  connect_code = tt;
  proto = tt;
  trailers_apart = tt;
}

module _ (recase : Bytes → Bytes) (keeps : (k : Bytes) → to_lower (recase k) ≡ to_lower k)
    (canonical : recase (codes "Content-Encoding") ≡ codes "Content-Encoding") (gzip : Gzip)
    (full : (s : Bytes) → gzip.compress s ≢ ok []) (version address : Bytes) (codecs : Codecs)
    (timer_first : Context → ℤ → Bool) where
  -- A call of a method that leaves the context alone.
  passes :
      {C I O : Type 0} (ctx : C) (path : Bytes) (request : MessageCodec I)
      (response : MessageCodec O) (method : UnaryMethod I O)
      (r : Route (host address) methods (registry codecs timer_first) path request response method)
      (message : I) (out : O)
      → Arrives request message
      → Arrives response out
      → method (call_context r.spec proto) message ≡ (ok out, (call_context r.spec proto).handler)
      → call_unary request response path
          (connection recase gzip json_text version
            (host address)
            methods
            (registry codecs timer_first))
          ctx
          message
          []
        ≡ ok out
  passes ctx path request response method r message out there back called =
      call_unary-served recase keeps gzip json_text version (host address) methods
        (registry codecs timer_first) path request response method r ctx message [] proto out
        (call_context r.spec proto).handler refl (omega (arith, there.short)) there.same called
        back.same canonical (fresh_IsOwn r.spec) (full (encode_msg response out proto))

  module _ {C : Type 0} (fuel : ℕ) (ctx : C) where
    pub check_echo-passes :
        Arrives codecs.echo_request (record { input = codes "hi" })
        → Arrives codecs.echo_response (record { output = codes "echo:hi" })
        → Checks.check_echo gzip json_text codecs fuel ctx
            (client recase gzip version address codecs timer_first)
          ≡ ok tt
    unfolding Checks.check_echo Stub.echo transport_of connection base_url_transport base_send
        base_open_stream prepended impl eq_text Conformance.echo
    check_echo-passes there back =
        rw
          (passes ctx (codes "/easyrpc.conformance.v1.ConformanceService/Echo") codecs.echo_request
            codecs.echo_response (impl timer_first).echo (echo-Route address codecs timer_first)
            (record { input = codes "hi" }) (record { output = codes "echo:hi" }) there back refl)
          refl

    pub check_shapes-passes :
        Arrives codecs.echo_bytes_request (record { bytes = sample })
        → Arrives codecs.echo_bytes_response (record { bytes = sample })
        → Arrives codecs.empty_request (record {})
        → Arrives codecs.empty_response (record {})
        → Arrives codecs.sleep_request (record { millis = pos 0 })
        → Arrives codecs.sleep_response (record { is_ok = true })
        → ((c : Context) → timer_first c (pos 0) ≡ true)
        → Checks.check_shapes gzip json_text codecs fuel ctx
            (client recase gzip version address codecs timer_first)
          ≡ ok tt
    unfolding Checks.check_shapes Stub.echo_bytes Stub.empty Stub.sleep transport_of connection
        base_url_transport base_send base_open_stream prepended impl Conformance.sleep
    check_shapes-passes bytes bytes' nothing nothing' slept slept' fires =
        rw
          (
            passes ctx (codes "/easyrpc.conformance.v1.ConformanceService/EchoBytes")
                codecs.echo_bytes_request codecs.echo_bytes_response (impl timer_first).echo_bytes
                (echo_bytes-Route address codecs timer_first) (record { bytes = sample })
                (record { bytes = sample }) bytes bytes' refl,
            passes ctx (codes "/easyrpc.conformance.v1.ConformanceService/Empty")
                codecs.empty_request codecs.empty_response (impl timer_first).empty
                (empty-Route address codecs timer_first) (record {}) (record {}) nothing nothing'
                refl,
            passes ctx (codes "/easyrpc.conformance.v1.ConformanceService/Sleep")
                codecs.sleep_request codecs.sleep_response (impl timer_first).sleep
                (sleep-Route address codecs timer_first) (record { millis = pos 0 })
                (record { is_ok = true }) slept slept'
                (rw (fires (call_context (sleep-Route address codecs timer_first).spec proto))
                  refl),
          )
          refl
