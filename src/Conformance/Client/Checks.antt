-- ===== src/Conformance/Client/Checks.antt =====
-- The checks of the conformance client, each with the calls that it makes, and main, which runs
-- them in their order (cmd/conformance-client/main.go). Only `EchoTrailer` is followed by a look at
-- what its Send left in the transport, so that the transport is threaded there alone.
use easy_rpc_go.Base.{ℕ, Bool, false, ◌&&◌, List, [], ◌∷◌, Result, ok, err, length, ◌==◌}
use easy_rpc_go.Base.Int.{ℤ, pos, negsuc}
use easy_rpc_go.Text.{Bytes, codes, eq_text}
use easy_rpc_go.Code.{Error, eof, unexpected_eof, closed_pipe, rpc, other, ErrorDetail}
use easy_rpc_go.Headers.{values}
use easy_rpc_go.Frame.{Gzip}
use easy_rpc_go.Json.{JsonText}
use easy_rpc_go.Content.{proto}
use easy_rpc_go.Client.Stream.{HttpStream, trailers_of}
use easy_rpc_go.Message.{Response}
use easy_rpc_go.Stubs.{unary_request, received}
use easy_rpc_go.Stubs.Conformance.{Codecs}
use easy_rpc_go.Stubs.Conformance.Client as Stub
use easy_rpc_go.Stubs.Conformance.Messages.{CountResponse}
use easy_rpc_go.Conformance.Client.{
  BaseTransport, base_send, transport_of, last_trailers, Checked, ◌>>=◌, ◌>>◌, require, or_fail,
  at_eof, read_all,
}

abbrev pub is_int : ℕ → ℤ → Bool
is_int k (pos n) = n == k
is_int k (negsuc n) = false

-- `len(idx) != 3 || idx[0] != 0 || …`, negated.
abbrev pub counts_to_three : List ℤ → Bool
counts_to_three (a ∷ b ∷ c ∷ []) = is_int 0 a && is_int 1 b && is_int 2 c
counts_to_three _ = false

abbrev pub one_detail : (ErrorDetail → Bool) → List ErrorDetail → Bool
one_detail test (d ∷ []) = test d
one_detail test _ = false

-- `len(got) != 1 || got[0] != text`, negated.
abbrev pub is_only : Bytes → List Bytes → Bool
is_only text (v ∷ []) = eq_text v text
is_only text _ = false

abbrev pub is_retry_info : ErrorDetail → Bool
is_retry_info d =
    eq_text d.kind (codes "type.googleapis.com/google.rpc.RetryInfo")
    && eq_text d.value (codes "retry:5s")

-- The error that FailDetails has to end with.
unfoldable pub is_limited : Error → Bool
unfolding eq_text
is_limited (rpc e) = is_int 8 e.code && one_detail is_retry_info e.details
is_limited eof = false
is_limited unexpected_eof = false
is_limited closed_pipe = false
is_limited (other s) = false

-- How the stream of StreamFailDetails has to end.
unfoldable pub at_boom : Error → Checked (Unit {0})
unfolding eq_text
at_boom eof = err (codes "SFD_NO_ERROR")
at_boom (rpc e) =
    require (is_int 13 e.code && one_detail (λ d. eq_text d.value (codes "sd")) e.details)
      (codes "SFD_WRONG_ERR")
at_boom unexpected_eof = err (codes "SFD_WRONG_ERR")
at_boom closed_pipe = err (codes "SFD_WRONG_ERR")
at_boom (other s) = err (codes "SFD_WRONG_ERR")

-- A call that has to fail.
abbrev pub expect_error :
    {A : Type 0} → Result Error A → Bytes → (Error → Checked (Unit {0})) → Checked (Unit {0})
expect_error (ok a) text test = err text
expect_error (err e) text test = test e

-- A payload that is decoded, and one whose decoding may fail unseen.
abbrev pub index_of : Result Error CountResponse → Checked ℤ
index_of (ok r) = ok r.index
index_of (err e) = err (codes "COUNT_DECODE_FAIL")

abbrev pub unseen : Bytes → Checked (Unit {0})
unseen p = ok tt

module _ {C : Type 0} (gzip : Gzip) (text : JsonText) (codecs : Codecs) (fuel : ℕ) (ctx : C)
    (b : BaseTransport C (Result Error HttpStream)) where
  unfoldable pub check_echo : Checked (Unit {0})
  unfolding Stub.echo transport_of eq_text
  check_echo = do
    out ←
        or_fail (Stub.echo codecs (transport_of b) ctx (record { input = codes "hi" }) [])
          (codes "ECHO_FAIL")
    require (eq_text out.output (codes "echo:hi")) (codes "ECHO_WRONG")

  unfoldable pub check_count : Checked (Unit {0})
  unfolding Stub.count transport_of read_all
  check_count = do
    stream ←
        or_fail (Stub.count codecs (transport_of b) ctx (record { count = pos 3 }) [])
          (codes "COUNT_OPEN_FAIL")
    (idx, s) ←
        read_all gzip text (λ p. index_of (codecs.count_response.unmarshal p))
          (at_eof (codes "COUNT_RECV_FAIL")) fuel stream
    require (counts_to_three idx) (codes "COUNT_WRONG")

  unfoldable pub check_fail_details : Checked (Unit {0})
  unfolding Stub.fail_details transport_of is_limited
  check_fail_details =
      expect_error
        (Stub.fail_details codecs (transport_of b) ctx
          (record {
            code = pos 8;
            message = codes "limited";
            detail_type = codes "type.googleapis.com/google.rpc.RetryInfo";
            detail_text = codes "retry:5s";
          })
          [])
        (codes "FAILDETAILS_NO_ERROR") (λ e. require (is_limited e) (codes "FAILDETAILS_WRONG"))

  unfoldable pub check_stream_fail_details : Checked (Unit {0})
  unfolding Stub.stream_fail_details transport_of read_all at_boom
  check_stream_fail_details = do
    stream ←
        or_fail
          (Stub.stream_fail_details codecs (transport_of b) ctx
            (record {
              emit_before = pos 2;
              code = pos 13;
              message = codes "boom";
              detail_type = codes "t/stream";
              detail_text = codes "sd";
            })
            [])
          (codes "SFD_OPEN_FAIL")
    (idx, s) ←
        read_all gzip text
          (λ p. or_fail (codecs.stream_fail_details_response.unmarshal p) (codes "SFD_DECODE_FAIL"))
          at_boom fuel stream
    require (length idx == 2) (codes "SFD_WRONG_FRAMES")

  -- The extended shapes, up to the stream.
  unfoldable pub check_shapes : Checked (Unit {0})
  unfolding Stub.echo_bytes Stub.empty Stub.sleep transport_of
  check_shapes = do
    bytes ←
        or_fail
          (Stub.echo_bytes codecs (transport_of b) ctx
            (record { bytes = 0 ∷ 1 ∷ 2 ∷ 0xff ∷ 0xfe ∷ 0x80 ∷ [] }) [])
          (codes "ECHOBYTES_FAIL")
    nothing ← or_fail (Stub.empty codecs (transport_of b) ctx (record {}) []) (codes "EMPTY_FAIL")
    slept ←
        or_fail (Stub.sleep codecs (transport_of b) ctx (record { millis = pos 0 }) [])
          (codes "SLEEP_FAIL")
    ok tt

  unfoldable pub check_big_stream : Checked (Unit {0})
  unfolding Stub.big_stream transport_of read_all
  check_big_stream = do
    stream ←
        or_fail
          (Stub.big_stream codecs (transport_of b) ctx (record { count = pos 3; size = pos 2048 })
            [])
          (codes "BIGSTREAM_FAIL")
    (idx, s) ← read_all gzip text unseen (at_eof (codes "BIGSTREAM_RECV_FAIL")) fuel stream
    require (length idx == 3) (codes "BIGSTREAM_WRONG")

  -- EchoTrailer: what its method does with the result of its Send, and what that left behind.
  unfoldable pub check_sent :
      Result Error Response × BaseTransport C (Result Error HttpStream) → Checked (Unit {0})
  unfolding received last_trailers eq_text values
  check_sent (res, b') = do
    et ← or_fail (received codecs.echo_trailer_response proto res) (codes "ECHOTRAILER_FAIL")
    require (eq_text et.output (codes "trailer:x")) (codes "ECHOTRAILER_WRONG")
    require (is_only (codes "unary-x") (values (codes "x-trl") (last_trailers b')))
        (codes "ECHOTRAILER_TRAILER_WRONG")

  unfoldable pub check_echo_trailer : Checked (Unit {0})
  unfolding unary_request base_send check_sent
  check_echo_trailer = check_sent (
      base_send b ctx (
        unary_request codecs.echo_trailer_request
          (codes "/easyrpc.conformance.v1.ConformanceService/EchoTrailer")
          (record { input = codes "x" }) proto))

  unfoldable pub check_count_trailer : Checked (Unit {0})
  unfolding Stub.count_trailer transport_of read_all trailers_of eq_text values
  check_count_trailer = do
    stream ←
        or_fail (Stub.count_trailer codecs (transport_of b) ctx (record { count = pos 2 }) [])
          (codes "COUNTRAILER_FAIL")
    (idx, s) ← read_all gzip text unseen (at_eof (codes "COUNTRAILER_RECV_FAIL")) fuel stream
    require (length idx == 2) (codes "COUNTRAILER_WRONG")
    require (is_only (codes "done") (values (codes "x-ctrailer") (trailers_of s)))
        (codes "COUNTRAILER_TRAILER_WRONG")

  -- `main` from the client on; the text is the one that it prints at its end.
  unfoldable pub main : Checked Bytes
  unfolding check_echo check_count check_fail_details check_stream_fail_details check_shapes
      check_big_stream check_echo_trailer check_count_trailer
  main = do
    check_echo
    check_count
    check_fail_details
    check_stream_fail_details
    check_shapes
    check_big_stream
    check_echo_trailer
    check_count_trailer
    ok (codes "GO_CLIENT_OK")
