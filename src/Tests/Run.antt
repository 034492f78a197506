-- ===== src/Tests/Run.antt =====
-- A run of the conformance client, with codecs that stand for the runtimes of protobuf.
use easy_rpc_go.Base.{◌≡◌, ◌≢◌, refl, arith, Bool, true, [], ◌∷◌, Result, ok, err}
use easy_rpc_go.Base.Int.{ℤ, pos, negsuc}
use easy_rpc_go.Text.Laws.{to_lower-canonical}
use easy_rpc_go.Text.{canonical_header_key, Bytes, codes}
use easy_rpc_go.Code.{Error, other}
use easy_rpc_go.Json.Codec.{json_text}
use easy_rpc_go.Server.Calls.{Context}
use easy_rpc_go.Stubs.{MessageCodec, proto_bytes, encode_msg, decode_msg}
use easy_rpc_go.Stubs.Conformance.{Codecs}
use easy_rpc_go.Conformance.Client.Checks
use easy_rpc_go.Conformance.Client.Setup.{RunArrives, limited, boom, client}
use easy_rpc_go.Conformance.Client.Run.{main-passes}
use easy_rpc_go.Tests.Samples.{store, stored}

-- A message of which the bytes are one field, one of which they are a number, and one that is
-- always the same.
abbrev pub texts : {M : Type 0} → (M → Bytes) → (Bytes → M) → MessageCodec M
texts field make = record {
  marshal = λ m. ok (field m);
  unmarshal = λ b. ok (make b);
  marshal_json = λ m. ok (field m);
  unmarshal_json = λ b. ok (make b);
}

abbrev pub number_bytes : ℤ → Bytes
number_bytes (pos n) = n ∷ []
number_bytes (negsuc n) = []

abbrev pub bytes_number : {M : Type 0} → (ℤ → M) → Bytes → Result Error M
bytes_number make (n ∷ []) = ok (make (pos n))
bytes_number make _ = err (other (codes "proto: cannot parse"))

abbrev pub numbers : {M : Type 0} → (M → ℤ) → (ℤ → M) → MessageCodec M
numbers field make = record {
  marshal = λ m. ok (number_bytes (field m));
  unmarshal = bytes_number make;
  marshal_json = λ m. ok (number_bytes (field m));
  unmarshal_json = bytes_number make;
}

abbrev pub always : {M : Type 0} → M → MessageCodec M
always m = record {
  marshal = λ m. ok [];
  unmarshal = λ b. ok m;
  marshal_json = λ m. ok [];
  unmarshal_json = λ b. ok m;
}

abbrev pub codecs : Codecs
codecs = record {
  echo_request = texts (λ m. m.input) (λ b. record { input = b });
  echo_response = texts (λ m. m.output) (λ b. record { output = b });
  count_request = numbers (λ m. m.count) (λ n. record { count = n });
  count_response = numbers (λ m. m.index) (λ n. record { index = n });
  fail_request = texts (λ m. m.message) (λ b. record { message = b });
  fail_response = always (record { is_ok = true });
  health_request = always (record {});
  health_response = always (record { is_ok = true; name = codes "conformance" });
  echo_bytes_request = texts (λ m. m.bytes) (λ b. record { bytes = b });
  echo_bytes_response = texts (λ m. m.bytes) (λ b. record { bytes = b });
  sleep_request = numbers (λ m. m.millis) (λ n. record { millis = n });
  sleep_response = always (record { is_ok = true });
  empty_request = always (record {});
  empty_response = always (record {});
  big_stream_request = numbers (λ m. m.count) (λ n. record { count = n; size = pos 2048 });
  big_stream_response = numbers (λ m. m.index) (λ n. record { index = n; size = pos 2048 });
  stream_fail_request =
      texts (λ m. m.message) (λ b. record { emit_before = pos 0; code = pos 13; message = b });
  stream_fail_response = numbers (λ m. m.index) (λ n. record { index = n });
  echo_meta_request = texts (λ m. m.input) (λ b. record { input = b });
  echo_meta_response = texts (λ m. m.input) (λ b. record { input = b; meta = [] });
  big_request = numbers (λ m. m.size) (λ n. record { size = n });
  big_response = numbers (λ m. m.size) (λ n. record { size = n });
  fail_details_request = always limited;
  fail_details_response = always (record { is_ok = true });
  stream_fail_details_request = always boom;
  stream_fail_details_response = numbers (λ m. m.index) (λ n. record { index = n });
  echo_trailer_request = texts (λ m. m.input) (λ b. record { input = b });
  echo_trailer_response = texts (λ m. m.output) (λ b. record { output = b });
  count_trailer_request = numbers (λ m. m.count) (λ n. record { count = n });
  count_trailer_response = numbers (λ m. m.index) (λ n. record { index = n });
}

-- Its messages arrive.
run : RunArrives codecs
unfolding encode_msg decode_msg proto_bytes
run = record {
  echo = record { same = refl; short = omega arith };
  echoed = record { same = refl; short = omega arith };
  count = record { same = refl; short = omega arith };
  counted = λ i h. record { same = refl; short = omega arith };
  limited = record { same = refl; short = omega arith };
  boom = record { same = refl; short = omega arith };
  boom_counted = λ i h. record { same = refl; short = omega arith };
  bytes = record { same = refl; short = omega arith };
  bytes_back = record { same = refl; short = omega arith };
  empty = record { same = refl; short = omega arith };
  empty_back = record { same = refl; short = omega arith };
  sleep = record { same = refl; short = omega arith };
  slept = record { same = refl; short = omega arith };
  big = record { same = refl; short = omega arith };
  big_counted = λ i h. record { same = refl; short = omega arith };
  trailer = record { same = refl; short = omega arith };
  trailed = record { same = refl; short = omega arith };
  count_trailer = record { same = refl; short = omega arith };
  count_trailed = λ i h. record { same = refl; short = omega arith };
}

pub full : (s : Bytes) → store s ≢ ok []
full s e = cc e

abbrev pub address : Bytes
address = codes "http://127.0.0.1:18888/"

abbrev pub fires : Context → ℤ → Bool
fires c n = true

main-passes_example :
    Checks.main stored json_text codecs 4 tt
      (client canonical_header_key stored (codes "HTTP/1.1") address codecs fires)
    ≡ ok (codes "GO_CLIENT_OK")
unfolding canonical_header_key
main-passes_example =
    main-passes canonical_header_key stored (codes "HTTP/1.1") address codecs fires 4 tt
      to_lower-canonical refl full (λ c. refl) run (omega arith)
