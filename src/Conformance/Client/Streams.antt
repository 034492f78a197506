-- ===== src/Conformance/Client/Streams.antt =====
-- The stream checks of the conformance client against the conformance server.
use easy_rpc_go.Base.{ℕ, ◌≤◌, ◌<◌, ◌≡◌, refl, arith, Bool, [], ◌∷◌, ok}
use easy_rpc_go.Base.Int.{ℤ, pos}
use easy_rpc_go.Text.{Bytes, codes, eq_text}
use easy_rpc_go.Code.{code_to_string, code_from_string}
use easy_rpc_go.Headers.{values}
use easy_rpc_go.HandlerContext
use easy_rpc_go.HandlerContext.{HandlerContext, new_handler_context}
use easy_rpc_go.Frame.{Gzip}
use easy_rpc_go.Json.Codec.{json_text}
use easy_rpc_go.Content.{proto}
use easy_rpc_go.Wire.Details.{kept}
use easy_rpc_go.Wire.Marshal.{sort_entries}
use easy_rpc_go.Server.Calls.{Context}
use easy_rpc_go.Server.Dispatch.{handler_context}
use easy_rpc_go.Server.Errors.{as_rpc_error}
use easy_rpc_go.Server.Stream.{final_message}
use easy_rpc_go.Server.Stream.Transcript.{transcript}
use easy_rpc_go.Server.Stream.Delivery.{farewell}
use easy_rpc_go.Client.Interceptors.{base_url_transport}
use easy_rpc_go.Client.Stream.{trailers_of}
use easy_rpc_go.Stubs.{encode_msg, decode_msg}
use easy_rpc_go.Stubs.Delivery.{connection}
use easy_rpc_go.Stubs.Conformance.{Codecs, methods}
use easy_rpc_go.Stubs.Conformance.Client as Stub
use easy_rpc_go.Stubs.Conformance.Messages.{StreamFailDetailsResponse}
use easy_rpc_go.Conformance
use easy_rpc_go.Conformance.Service.{impl}
use easy_rpc_go.Conformance.Client.{transport_of, base_send, base_open_stream, prepended}
use easy_rpc_go.Conformance.Client.Checks
use easy_rpc_go.Conformance.Client.Routes.{
  count-StreamRoute, stream_fail_details-StreamRoute, big_stream-StreamRoute,
  count_trailer-StreamRoute,
}
use easy_rpc_go.Conformance.Client.Setup.{Arrives, boom, host, registry, client}
use easy_rpc_go.Conformance.Client.Loops.{loop-served}
use easy_rpc_go.Conformance.Client.Endings.{
  ends_with, ends_with-IsPlainMessage, ends_with-Fits, trailed, trailed-IsPlainMessage,
  trailed-Fits, boomed, boomed-IsPlainMessage, boomed-Fits,
}

module _ (recase : Bytes → Bytes) (gzip : Gzip) (version address : Bytes) (codecs : Codecs)
    (timer_first : Context → ℤ → Bool) where
  module _ {C : Type 0} (fuel : ℕ) (ctx : C) (enough : 4 ≤ fuel) where
    pub check_count-passes :
        Arrives codecs.count_request (record { count = pos 3 })
        → ((i : ℕ) → i < 3 → Arrives codecs.count_response (record { index = pos i }))
        → Checks.check_count gzip json_text codecs fuel ctx
            (client recase gzip version address codecs timer_first)
          ≡ ok tt
    unfolding Checks.check_count Stub.count transport_of connection base_url_transport base_send
        base_open_stream prepended impl Conformance.count Conformance.emit_each transcript
        final_message farewell decode_msg handler_context new_handler_context
    check_count-passes there back =
        let (s, opened, loop) =
          loop-served recase gzip json_text version (host address) methods
            (registry codecs timer_first) (codes "/easyrpc.conformance.v1.ConformanceService/Count")
            codecs.count_request codecs.count_response (impl timer_first).count
            (count-StreamRoute address codecs timer_first) (record { count = pos 3 }) there {J = ℤ}
            ctx
            (record {
              payloads =
                  encode_msg codecs.count_response (record { index = pos 0 }) proto
                  ∷ encode_msg codecs.count_response (record { index = pos 1 }) proto
                  ∷ encode_msg codecs.count_response (record { index = pos 2 }) proto
                  ∷ [];
              final = ends_with [];
            })
            refl
            (
              omega (arith, (back 0 (omega arith)).short),
              (
                omega (arith, (back 1 (omega arith)).short),
                (omega (arith, (back 2 (omega arith)).short), tt),
              ),
            )
            ends_with-IsPlainMessage ends_with-Fits in
        rw
          (
            opened,
            loop _ _ fuel (omega (arith, enough)),
            (back 0 (omega arith)).same,
            (back 1 (omega arith)).same,
            (back 2 (omega arith)).same,
          )
          refl

    pub check_stream_fail_details-passes :
        Arrives codecs.stream_fail_details_request (boom)
        → ((i : ℕ) → i < 2 → Arrives codecs.stream_fail_details_response (record { index = pos i }))
        → Checks.check_stream_fail_details gzip json_text codecs fuel ctx
            (client recase gzip version address codecs timer_first)
          ≡ ok tt
    unfolding Checks.check_stream_fail_details Stub.stream_fail_details transport_of connection
        base_url_transport base_send base_open_stream prepended impl Conformance.stream_fail_details
        Conformance.emit_each transcript final_message farewell decode_msg handler_context
        new_handler_context Conformance.stream_fail_with as_rpc_error Checks.at_boom eq_text kept
        code_to_string code_from_string
    check_stream_fail_details-passes there back =
        let (s, opened, loop) =
          loop-served recase gzip json_text version (host address) methods
            (registry codecs timer_first)
            (codes "/easyrpc.conformance.v1.ConformanceService/StreamFailDetails")
            codecs.stream_fail_details_request codecs.stream_fail_details_response
            (impl timer_first).stream_fail_details
            (stream_fail_details-StreamRoute address codecs timer_first) (boom) there
            {J = StreamFailDetailsResponse} ctx
            (record {
              payloads =
                  encode_msg codecs.stream_fail_details_response (record { index = pos 0 }) proto
                  ∷ encode_msg codecs.stream_fail_details_response (record { index = pos 1 }) proto
                  ∷ [];
              final = boomed;
            })
            refl
            (
              omega (arith, (back 0 (omega arith)).short),
              (omega (arith, (back 1 (omega arith)).short), tt),
            )
            boomed-IsPlainMessage boomed-Fits in
        rw
          (
            opened,
            loop _ _ fuel (omega (arith, enough)),
            (back 0 (omega arith)).same,
            (back 1 (omega arith)).same,
          )
          refl

    pub check_big_stream-passes :
        Arrives codecs.big_stream_request (record { count = pos 3; size = pos 2048 })
        → ((i : ℕ)
            → i < 3
            → Arrives codecs.big_stream_response (record { index = pos i; size = pos 2048 }))
        → Checks.check_big_stream gzip json_text codecs fuel ctx
            (client recase gzip version address codecs timer_first)
          ≡ ok tt
    unfolding Checks.check_big_stream Stub.big_stream transport_of connection base_url_transport
        base_send base_open_stream prepended impl Conformance.big_stream Conformance.emit_each
        transcript final_message farewell decode_msg handler_context new_handler_context
    check_big_stream-passes there back =
        let (s, opened, loop) =
          loop-served recase gzip json_text version (host address) methods
            (registry codecs timer_first)
            (codes "/easyrpc.conformance.v1.ConformanceService/BigStream") codecs.big_stream_request
            codecs.big_stream_response (impl timer_first).big_stream
            (big_stream-StreamRoute address codecs timer_first)
            (record { count = pos 3; size = pos 2048 }) there {J = Unit {0}} ctx
            (record {
              payloads =
                  encode_msg codecs.big_stream_response (record { index = pos 0; size = pos 2048 })
                    proto
                  ∷ encode_msg codecs.big_stream_response
                      (record { index = pos 1; size = pos 2048 }) proto
                  ∷ encode_msg codecs.big_stream_response
                      (record { index = pos 2; size = pos 2048 }) proto
                  ∷ [];
              final = ends_with [];
            })
            refl
            (
              omega (arith, (back 0 (omega arith)).short),
              (
                omega (arith, (back 1 (omega arith)).short),
                (omega (arith, (back 2 (omega arith)).short), tt),
              ),
            )
            ends_with-IsPlainMessage ends_with-Fits in
        rw (opened, loop _ _ fuel (omega (arith, enough))) refl

    pub check_count_trailer-passes :
        Arrives codecs.count_trailer_request (record { count = pos 2 })
        → ((i : ℕ) → i < 2 → Arrives codecs.count_trailer_response (record { index = pos i }))
        → Checks.check_count_trailer gzip json_text codecs fuel ctx
            (client recase gzip version address codecs timer_first)
          ≡ ok tt
    unfolding Checks.check_count_trailer Stub.count_trailer transport_of connection
        base_url_transport base_send base_open_stream prepended impl Conformance.count_trailer
        Conformance.emit_each transcript final_message farewell decode_msg handler_context
        new_handler_context HandlerContext.set_trailer sort_entries trailers_of values eq_text
    check_count_trailer-passes there back =
        let (s, opened, loop) =
          loop-served recase gzip json_text version (host address) methods
            (registry codecs timer_first)
            (codes "/easyrpc.conformance.v1.ConformanceService/CountTrailer")
            codecs.count_trailer_request codecs.count_trailer_response
            (impl timer_first).count_trailer (count_trailer-StreamRoute address codecs timer_first)
            (record { count = pos 2 }) there {J = Unit {0}} ctx
            (record {
              payloads =
                  encode_msg codecs.count_trailer_response (record { index = pos 0 }) proto
                  ∷ encode_msg codecs.count_trailer_response (record { index = pos 1 }) proto
                  ∷ [];
              final = ends_with trailed;
            })
            refl
            (
              omega (arith, (back 0 (omega arith)).short),
              (omega (arith, (back 1 (omega arith)).short), tt),
            )
            trailed-IsPlainMessage trailed-Fits in
        rw (opened, loop _ _ fuel (omega (arith, enough))) refl
