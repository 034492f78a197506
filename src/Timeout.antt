-- ===== src/Timeout.antt =====
-- The request deadline in milliseconds (protocol.go: ParseTimeout, WithTimeout). A duration is an
-- int64 of nanoseconds, and products of it wrap.
pub mod Laws
use easy_rpc_go.Base.{ℕ, ◌+◌, ◌*◌, ◌/◌, Bool, true, false, ◌&&◌, List, [], ◌∷◌, if◌then◌else◌}
use easy_rpc_go.Base.Int.{ℤ, pos, negsuc, mul64, is_positive}
use easy_rpc_go.Text.{Bytes, codes}
use easy_rpc_go.Text.Decimal.{atoi, itoa}
use easy_rpc_go.Headers.{Headers, set}
use easy_rpc_go.Message.{Request}

abbrev pub header_timeout : Bytes
header_timeout = codes "connect-timeout-ms"

-- `time.Millisecond`.
abbrev pub millisecond : ℕ
millisecond = 1000000

-- `time.Duration(ms) * time.Millisecond` where `ms` is positive and there was no error, else 0.
unfoldable pub timeout_of : ℤ × Bool → ℤ
timeout_of (pos ms, good) = if good && is_positive (pos ms) then mul64 ms millisecond else pos 0
timeout_of (negsuc ms, good) = pos 0

unfoldable pub parse_timeout : Bytes → ℤ
parse_timeout [] = pos 0
parse_timeout (c ∷ s) = timeout_of (atoi (c ∷ s))

unfoldable pub with_timeout : Request → ℤ → Request
with_timeout req (pos d) =
    if is_positive (pos d)
    then record req { headers = set header_timeout (itoa (pos (d / millisecond))) req.headers }
    else req
with_timeout req (negsuc d) = req
