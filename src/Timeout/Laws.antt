-- ===== src/Timeout/Laws.antt =====
-- What the server reads of the deadline that a client attaches.
use easy_rpc_go.Base.{ℕ, ◌*◌, ◌/◌, ◌^◌, ◌≤◌, ◌<◌, ◌≡◌, ◌≢◌, refl, ap, ◌∙◌, arith, false, [], ◌∷◌}
use easy_rpc_go.Base.Int.{pos, mul64, is_positive}
use easy_rpc_go.Text.{Bytes}
use easy_rpc_go.Text.Laws.{eq_text_refl}
use easy_rpc_go.Text.Decimal.{atoi, itoa, atoi-itoa, itoa-ne-nil}
use easy_rpc_go.Headers.{Headers, set, get}
use easy_rpc_go.Headers.Laws.{values-assign}
use easy_rpc_go.Message.{Request}
use easy_rpc_go.Timeout.{header_timeout, millisecond, timeout_of, parse_timeout, with_timeout}

pub get-set : (k v : Bytes) (h : Headers) → get k (set k v h) ≡ v
unfolding get set
get-set k v h = rw (values-assign k k (v ∷ []) h, eq_text_refl k) refl

parse_timeout-atoi : (s : Bytes) → s ≢ [] → parse_timeout s ≡ timeout_of (atoi s)
unfolding parse_timeout
parse_timeout-atoi [] h = absurd (h refl)
parse_timeout-atoi (c ∷ s) h = refl

parse_timeout-itoa :
    (ms : ℕ) → ms < 2 ^ 63 → 0 < ms → parse_timeout (itoa (pos ms)) ≡ mul64 ms millisecond
unfolding timeout_of
parse_timeout-itoa ms h k =
    parse_timeout-atoi _ (itoa-ne-nil (pos ms))
    ∙ ap timeout_of (atoi-itoa (pos ms) h)
    ∙ ground arith

with_timeout_pos :
    (req : Request) (d : ℕ)
    → 0 < d
    → (with_timeout req (pos d)).headers
      ≡ set header_timeout (itoa (pos (d / millisecond))) req.headers
unfolding with_timeout
with_timeout_pos req d h = ground arith

-- What the receiver parses is what the sender wrote.
sent :
    (req : Request) (d : ℕ)
    → 0 < d
    → parse_timeout (get header_timeout (with_timeout req (pos d)).headers)
      ≡ parse_timeout (itoa (pos (d / millisecond)))
sent req d h = ap parse_timeout (
    ap (get header_timeout) (with_timeout_pos req d h)
    ∙ get-set header_timeout (itoa (pos (d / millisecond))) req.headers)

parse_timeout_zero : parse_timeout (itoa (pos 0)) ≡ pos 0
unfolding parse_timeout timeout_of itoa atoi
parse_timeout_zero = refl

-- A deadline from a millisecond up to the largest duration arrives rounded down to milliseconds.
pub parse_timeout-with_timeout :
    (req : Request) (d : ℕ)
    → millisecond ≤ d
    → d < 2 ^ 63
    → parse_timeout (get header_timeout (with_timeout req (pos d)).headers)
      ≡ pos (d / millisecond * millisecond)
parse_timeout-with_timeout req d h k =
    sent req d (omega arith)
    ∙ parse_timeout-itoa (d / millisecond) (omega arith) (omega arith)
    ∙ ground arith

-- A deadline above zero and below a millisecond arrives as none.
pub parse_timeout-with_timeout_short :
    (req : Request) (d : ℕ)
    → 0 < d
    → d < millisecond
    → parse_timeout (get header_timeout (with_timeout req (pos d)).headers) ≡ pos 0
parse_timeout-with_timeout_short req d h k =
    sent req d h ∙ ap (λ n. parse_timeout (itoa (pos n))) (omega arith) ∙ parse_timeout_zero

-- Milliseconds whose nanoseconds reach 2 ^ 63 and not 2 ^ 64 become a duration that is not
-- positive, which the server takes for no deadline.
pub parse_timeout_wraps :
    (ms : ℕ)
    → 2 ^ 63 ≤ ms * millisecond
    → ms * millisecond < 2 ^ 64
    → is_positive (parse_timeout (itoa (pos ms))) ≡ false
parse_timeout_wraps ms h k = rw (parse_timeout-itoa ms (omega arith) (omega arith)) (ground arith)
