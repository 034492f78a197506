-- ===== src/Conformance/Client/Setup.antt =====
-- The conformance client connected to the conformance server, and the messages of its run.
use easy_rpc_go.Base.{ℕ, Bool, ◌≤◌, ◌<◌, ◌≡◌, [], ◌∷◌, Result, ok, length, true}
use easy_rpc_go.Base.Int.{ℤ, pos}
use easy_rpc_go.Text.{Bytes, codes, trim_right}
use easy_rpc_go.Code.{Error}
use easy_rpc_go.Frame.{Gzip}
use easy_rpc_go.Json.Codec.{json_text}
use easy_rpc_go.Content.{proto}
use easy_rpc_go.Server.Calls.{Context, ServiceRegistry}
use easy_rpc_go.Client.Stream.{HttpStream}
use easy_rpc_go.Stubs.{MessageCodec, encode_msg, decode_msg}
use easy_rpc_go.Stubs.Delivery.{net_http}
use easy_rpc_go.Stubs.Conformance.{Codecs, methods, register}
use easy_rpc_go.Stubs.Conformance.Messages.{FailDetailsRequest, StreamFailDetailsRequest}
use easy_rpc_go.Conformance.Service.{impl}
use easy_rpc_go.Conformance.Client.{BaseTransport, is_slash}

-- A message that the runtime of protobuf encodes in at most 1000 bytes and decodes again.
pub record Arrives {M : Type 0} (c : MessageCodec M) (m : M) : Type 0 where
  pub same : decode_msg c (encode_msg c m proto) proto ≡ ok m
  pub short : length (encode_msg c m proto) ≤ 1000

abbrev pub sample : Bytes
sample = 0 ∷ 1 ∷ 2 ∷ 0xff ∷ 0xfe ∷ 0x80 ∷ []

abbrev pub limited : FailDetailsRequest
limited = record {
  code = pos 8;
  message = codes "limited";
  detail_type = codes "type.googleapis.com/google.rpc.RetryInfo";
  detail_text = codes "retry:5s";
}

abbrev pub boom : StreamFailDetailsRequest
boom = record {
  emit_before = pos 2;
  code = pos 13;
  message = codes "boom";
  detail_type = codes "t/stream";
  detail_text = codes "sd";
}

-- The messages that the client and the server send each other.
pub record RunArrives (codecs : Codecs) : Type 0 where
  pub echo : Arrives codecs.echo_request (record { input = codes "hi" })
  pub echoed : Arrives codecs.echo_response (record { output = codes "echo:hi" })
  pub count : Arrives codecs.count_request (record { count = pos 3 })
  pub counted : (i : ℕ) → i < 3 → Arrives codecs.count_response (record { index = pos i })
  pub limited : Arrives codecs.fail_details_request limited
  pub boom : Arrives codecs.stream_fail_details_request boom
  pub boom_counted :
      (i : ℕ) → i < 2 → Arrives codecs.stream_fail_details_response (record { index = pos i })
  pub bytes : Arrives codecs.echo_bytes_request (record { bytes = sample })
  pub bytes_back : Arrives codecs.echo_bytes_response (record { bytes = sample })
  pub empty : Arrives codecs.empty_request (record {})
  pub empty_back : Arrives codecs.empty_response (record {})
  pub sleep : Arrives codecs.sleep_request (record { millis = pos 0 })
  pub slept : Arrives codecs.sleep_response (record { is_ok = true })
  pub big : Arrives codecs.big_stream_request (record { count = pos 3; size = pos 2048 })
  pub big_counted :
      (i : ℕ)
      → i < 3
      → Arrives codecs.big_stream_response (record { index = pos i; size = pos 2048 })
  pub trailer : Arrives codecs.echo_trailer_request (record { input = codes "x" })
  pub trailed : Arrives codecs.echo_trailer_response (record { output = codes "trailer:x" })
  pub count_trailer : Arrives codecs.count_trailer_request (record { count = pos 2 })
  pub count_trailed :
      (i : ℕ) → i < 2 → Arrives codecs.count_trailer_response (record { index = pos i })

abbrev pub host : Bytes → Bytes
host address = trim_right is_slash address

abbrev pub registry : Codecs → (Context → ℤ → Bool) → ServiceRegistry
registry codecs timer_first = register codecs (impl timer_first)

-- The client's transport at its start, over NetHTTP and the server at the address.
abbrev pub client :
    {C : Type 0}
    → (Bytes → Bytes)
    → Gzip
    → Bytes
    → Bytes
    → Codecs
    → (Context → ℤ → Bool)
    → BaseTransport C (Result Error HttpStream)
client recase gzip version address codecs timer_first = record {
  rt = net_http recase gzip json_text version (host address) methods (registry codecs timer_first);
  base = address;
  trails = [];
}
