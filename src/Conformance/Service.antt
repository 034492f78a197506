-- ===== src/Conformance/Service.antt =====
-- The conformance server as a whole (cmd/conformance-server/main.go: impl, addr, main): the service
-- with its handlers, registered and served. What `Sleep` waits for is a parameter: whether its
-- timer fires before the context ends.
use easy_rpc_go.Base.{Bool, true, List, ◌∷◌, ◌++◌, Option, Result, ok, err, if◌then◌else◌}
use easy_rpc_go.Base.Int.{ℤ, pos}
use easy_rpc_go.Text.{Bytes, codes, is_empty}
use easy_rpc_go.Code.{Error}
use easy_rpc_go.Frame.{Gzip}
use easy_rpc_go.Json.{JsonText}
use easy_rpc_go.Server.Calls.{Context, headers_from_context}
use easy_rpc_go.Server.Adapter.{NetEvent, NetRequest, serve_net_http}
use easy_rpc_go.Stubs.Conformance.{Codecs, ConformanceService, methods, register}
use easy_rpc_go.Conformance

abbrev pub mapped : {A B : Type 0} → (A → B) → Result Error A → Result Error B
mapped f (ok a) = ok (f a)
mapped f (err e) = err e

-- `impl`.
unfoldable pub impl : (Context → ℤ → Bool) → ConformanceService
unfolding headers_from_context Conformance.echo Conformance.count Conformance.fail
    Conformance.stream_fail_handler Conformance.echo_meta Conformance.fail_details
    Conformance.stream_fail_details Conformance.echo_trailer Conformance.count_trailer
    Conformance.sleep Conformance.big_stream
impl timer_first = record {
  health = λ ctx message. (ok (record { is_ok = true; name = codes "conformance" }), ctx.handler);
  echo = λ ctx message. (ok (record { output = Conformance.echo message.input }), ctx.handler);
  count = λ ctx message encode.
      Conformance.count (λ i. encode (record { index = pos i })) message.count;
  fail = λ ctx message.
      (mapped (λ b. record { is_ok = b }) (Conformance.fail message.message), ctx.handler);
  stream_fail = λ ctx message encode.
      Conformance.stream_fail_handler (λ i. encode (record { index = pos i })) message.emit_before
        message.code message.message;
  echo_meta = λ ctx message. (
    ok (record { input = message.input; meta = Conformance.echo_meta (headers_from_context ctx) }),
    ctx.handler,
  );
  big = λ ctx message. (ok (record { size = message.size }), ctx.handler);
  fail_details = λ ctx message. (
    mapped (λ b. record { is_ok = b })
        (Conformance.fail_details message.code message.message message.detail_type
          message.detail_text),
    ctx.handler,
  );
  stream_fail_details = λ ctx message encode.
      Conformance.stream_fail_details (λ i. encode (record { index = pos i })) message.emit_before
        message.code message.message message.detail_type message.detail_text;
  echo_trailer = λ ctx message.
      let (output, hc) = Conformance.echo_trailer message.input ctx.handler in
      (ok (record { output = output }), hc);
  count_trailer = λ ctx message encode.
      Conformance.count_trailer (λ i. encode (record { index = pos i })) message.count;
  echo_bytes = λ ctx message. (ok (record { bytes = message.bytes }), ctx.handler);
  sleep = λ ctx message. (
    mapped (λ b. record { is_ok = b }) (Conformance.sleep (timer_first ctx message.millis)),
    ctx.handler,
  );
  empty = λ ctx message. (ok (record {}), ctx.handler);
  big_stream = λ ctx message encode.
      Conformance.big_stream (λ i. encode (record { index = pos i; size = message.size }))
        message.count;
}

-- `addr`, from the two variables of the environment.
unfoldable pub addr : Bytes → Bytes → Bytes
addr bind port =
    (if is_empty bind then codes "0.0.0.0" else bind)
    ++ (b':' ∷ (if is_empty port then codes "18888" else port))

-- The handler that `main` gives to the server of net/http.
unfoldable pub served :
    (List NetEvent → Option Error)
    → Bool
    → Gzip
    → JsonText
    → Codecs
    → (Context → ℤ → Bool)
    → NetRequest
    → List NetEvent
unfolding serve_net_http register impl
served fails flushes gzip text codecs timer_first =
    serve_net_http fails flushes gzip text methods (register codecs (impl timer_first))
