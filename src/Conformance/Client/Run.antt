-- ===== src/Conformance/Client/Run.antt =====
-- The whole run of the conformance client against the conformance server.
use easy_rpc_go.Base.{ℕ, Bool, ◌≤◌, ◌≡◌, ◌≢◌, refl, true, [], ok}
use easy_rpc_go.Base.Int.{ℤ, pos}
use easy_rpc_go.Text.{Bytes, codes, to_lower}
use easy_rpc_go.Frame.{Gzip}
use easy_rpc_go.Json.Codec.{json_text}
use easy_rpc_go.Server.Calls.{Context}
use easy_rpc_go.Stubs.Conformance.{Codecs}
use easy_rpc_go.Conformance.Client.Checks
use easy_rpc_go.Conformance.Client.Setup.{RunArrives, client}
use easy_rpc_go.Conformance.Client.Unary.{check_echo-passes, check_shapes-passes}
use easy_rpc_go.Conformance.Client.Outcomes.{check_fail_details-passes, check_echo_trailer-passes}
use easy_rpc_go.Conformance.Client.Streams.{
  check_count-passes, check_stream_fail_details-passes, check_big_stream-passes,
  check_count_trailer-passes,
}

module _ (recase : Bytes → Bytes) (gzip : Gzip) (version address : Bytes) (codecs : Codecs)
    (timer_first : Context → ℤ → Bool) where
  -- Against the conformance server, whose service the generated registry serves through Dispatch,
  -- the conformance client runs through all its checks, of unary calls, streams, errors with
  -- details and trailers, and ends with GO_CLIENT_OK, on four rounds of fuel or more. The codecs of
  -- protobuf carry the messages of the run, in at most 1000 bytes each; the network changes header
  -- names in case alone and leaves Content-Encoding; a gzip text is never empty; and the timer of
  -- Sleep fires for 0 milliseconds.
  pub main-passes :
      {C : Type 0} (fuel : ℕ) (ctx : C)
      → ((k : Bytes) → to_lower (recase k) ≡ to_lower k)
      → recase (codes "Content-Encoding") ≡ codes "Content-Encoding"
      → ((s : Bytes) → gzip.compress s ≢ ok [])
      → ((c : Context) → timer_first c (pos 0) ≡ true)
      → RunArrives codecs
      → 4 ≤ fuel
      → Checks.main gzip json_text codecs fuel ctx
          (client recase gzip version address codecs timer_first)
        ≡ ok (codes "GO_CLIENT_OK")
  unfolding Checks.main
  main-passes fuel ctx keeps canonical full fires a enough =
      rw
        (
          check_echo-passes recase keeps canonical gzip full version address codecs timer_first fuel
              ctx a.echo a.echoed,
          check_count-passes recase gzip version address codecs timer_first fuel ctx enough a.count
              a.counted,
          check_fail_details-passes recase keeps canonical gzip full version address codecs
              timer_first fuel ctx a.limited,
          check_stream_fail_details-passes recase gzip version address codecs timer_first fuel ctx
              enough a.boom a.boom_counted,
          check_shapes-passes recase keeps canonical gzip full version address codecs timer_first
              fuel ctx a.bytes a.bytes_back a.empty a.empty_back a.sleep a.slept fires,
          check_big_stream-passes recase gzip version address codecs timer_first fuel ctx enough
              a.big a.big_counted,
          check_echo_trailer-passes recase keeps canonical gzip full version address codecs
              timer_first fuel ctx a.trailer a.trailed,
          check_count_trailer-passes recase gzip version address codecs timer_first fuel ctx enough
              a.count_trailer a.count_trailed,
        )
        refl
