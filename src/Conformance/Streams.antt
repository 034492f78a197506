-- ===== src/Conformance/Streams.antt =====
-- The transcripts of the stream handlers.
use easy_rpc_go.Base.{ℕ, zero, suc, ◌+◌, ◌≡◌, refl, ap, ◌∙◌, List, [], ◌∷◌, ◌++◌, append-nil, map}
use easy_rpc_go.Base.Int.{ℤ}
use easy_rpc_go.Text.{Bytes}
use easy_rpc_go.HandlerContext.{HandlerContext}
use easy_rpc_go.Server.Calls.{Program}
use easy_rpc_go.Server.Errors.{as_rpc_error}
use easy_rpc_go.Server.Stream.{final_message}
use easy_rpc_go.Server.Stream.Transcript.{Transcript, transcript}
use easy_rpc_go.Conformance.{times, emit_each, stream_fail_with, stream_fail_details}

-- The numbers from `i` on.
abbrev pub from : ℕ → ℕ → List ℕ
from i zero = []
from i (suc n) = i ∷ from (i + 1) n

transcript-emit_each :
    (encode : ℕ → Bytes) (i n : ℕ) (rest : Program) (hc : HandlerContext)
    → transcript (emit_each encode i n rest) hc ≡ record {
      payloads = map encode (from i n) ++ (transcript rest hc).payloads;
      final = (transcript rest hc).final;
    }
unfolding transcript emit_each
transcript-emit_each encode i zero rest hc = refl
transcript-emit_each encode i (suc n) rest hc =
    ap (λ (t : Transcript). record t { payloads = encode i ∷ t.payloads })
      (transcript-emit_each encode (i + 1) n rest hc)

-- The handler StreamFailDetails of the conformance server emits as many messages as the request
-- says, none for a negative number, numbered from 0, and ends the stream with the request's code,
-- message and one detail, and the trailers of its context.
pub transcript-stream_fail_details :
    (encode : ℕ → Bytes) (emit_before code : ℤ) (message detail_type detail_text : Bytes)
    (hc : HandlerContext)
    → transcript (stream_fail_details encode emit_before code message detail_type detail_text) hc
      ≡ record {
        payloads = map encode (from 0 (times emit_before));
        final = record {
          code = code;
          message = message;
          details = record { kind = detail_type; value = detail_text } ∷ [];
          metadata = hc.trailer;
        };
      }
unfolding stream_fail_details stream_fail_with transcript final_message as_rpc_error
transcript-stream_fail_details encode emit_before code message detail_type detail_text hc =
    transcript-emit_each encode 0 (times emit_before) _ hc ∙ rw (append-nil _) refl
