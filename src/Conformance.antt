-- ===== src/Conformance.antt =====
-- The handlers of the conformance server (cmd/conformance-server/main.go), over decoded requests.
-- The encoding of a response is a parameter, since protobuf is; int32 fields are integers. A
-- handler that is a stream is the program of its emits.
pub mod Streams
pub mod Service
pub mod Client
use easy_rpc_go.Base.{
  ℕ, zero, suc, ◌+◌, Bool, true, false, List, [], ◌∷◌, ◌++◌, Option, none, some, Result, ok, err,
  if◌then◌else◌,
}
use easy_rpc_go.Base.Int.{ℤ, pos, negsuc, is_positive}
use easy_rpc_go.Text.{Bytes, codes, is_empty}
use easy_rpc_go.Code.{Error, rpc, ErrorDetail, rpc_error}
use easy_rpc_go.Headers.{Headers, get}
use easy_rpc_go.HandlerContext
use easy_rpc_go.HandlerContext.{HandlerContext}
use easy_rpc_go.Server.Calls.{Program, return, emit, set_trailer}

-- How often `for i := int32(0); i < n; i++` runs.
abbrev pub times : ℤ → ℕ
times (pos n) = n
times (negsuc n) = 0

abbrev pub stopped : Option Error → Program → Program
stopped none rest = rest
stopped (some e) rest = return (some e)

-- The loop from `i` on, for the rounds that are left: an error of emit ends the handler.
unfoldable pub emit_each : (ℕ → Bytes) → ℕ → ℕ → Program → Program
emit_each encode i zero rest = rest
emit_each encode i (suc left) rest =
    emit (encode i) false (λ e. stopped e (emit_each encode (i + 1) left rest))

-- Three rounds, unless the request has a positive count.
abbrev pub or_three : ℤ → ℕ
or_three count = if is_positive count then times count else 3

unfoldable pub count : (ℕ → Bytes) → ℤ → Program
unfolding emit_each
count encode n = emit_each encode 0 (or_three n) (return none)

unfoldable pub stream_fail_with : (ℕ → Bytes) → ℤ → ℤ → Bytes → List ErrorDetail → Program
unfolding emit_each
stream_fail_with encode emit_before code message details =
    emit_each encode 0 (times emit_before)
      (return (some (rpc (record { code = code; message = message; details = details }))))

-- `StreamFail` and `StreamFailDetails`.
unfoldable pub stream_fail_handler : (ℕ → Bytes) → ℤ → ℤ → Bytes → Program
unfolding stream_fail_with
stream_fail_handler encode emit_before code message =
    stream_fail_with encode emit_before code message []

unfoldable pub stream_fail_details : (ℕ → Bytes) → ℤ → ℤ → Bytes → Bytes → Bytes → Program
unfolding stream_fail_with
stream_fail_details encode emit_before code message detail_type detail_text =
    stream_fail_with encode emit_before code message
      (record { kind = detail_type; value = detail_text } ∷ [])

unfoldable pub big_stream : (ℕ → Bytes) → ℤ → Program
unfolding emit_each
big_stream encode n = emit_each encode 0 (or_three n) (return none)

unfoldable pub count_trailer : (ℕ → Bytes) → ℤ → Program
unfolding emit_each
count_trailer encode n =
    set_trailer (codes "x-ctrailer") (codes "done") (emit_each encode 0 (or_three n) (return none))

-- The unary handlers that decide something: the field of the response, or an error.
unfoldable pub fail : Bytes → Result Error Bool
fail message = if is_empty message then ok true else err (rpc (rpc_error 3 message))

unfoldable pub fail_details : ℤ → Bytes → Bytes → Bytes → Result Error Bool
fail_details code message detail_type detail_text = err (
    rpc (record {
      code = code;
      message = message;
      details = record { kind = detail_type; value = detail_text } ∷ [];
    }))

unfoldable pub echo : Bytes → Bytes
echo input = codes "echo:" ++ input

unfoldable pub echo_trailer : Bytes → HandlerContext → Bytes × HandlerContext
echo_trailer input hc = (
  codes "trailer:" ++ input,
  HandlerContext.set_trailer (codes "x-trl") (codes "unary-" ++ input) hc,
)

-- The response map of `EchoMeta`.
unfoldable pub echo_meta : Headers → List (Bytes × Bytes)
echo_meta h = picked (codes "x-test") ++ picked (codes "authorization")
  where
    picked : Bytes → List (Bytes × Bytes)
    picked k = if is_empty (get k h) then [] else (k, get k h) ∷ []

-- `Sleep`, by which case of its select is ready first: the timer, or the context's end.
unfoldable pub sleep : Bool → Result Error Bool
sleep timer_first =
    if timer_first then ok true else err (rpc (rpc_error 4 (codes "deadline exceeded")))
