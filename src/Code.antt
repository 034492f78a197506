-- ===== src/Code.antt =====
-- Connect codes, their names and their HTTP statuses (protocol.go: HTTPStatus, ConnectFromStatus,
-- CodeNames, CodeToString, CodeFromString), and the errors of the package.
pub mod Laws
pub mod Names
use easy_rpc_go.Base.{ℕ, Bool, List, [], ◌∷◌, ◌++◌, ◌==◌, if◌then◌else◌}
use easy_rpc_go.Base.Int.{ℤ, pos, negsuc}
use easy_rpc_go.Text.{Bytes, codes, eq_text}
use easy_rpc_go.Text.Decimal.{itoa}

pub record ErrorDetail : Type 0 where
  pub kind : Bytes
  pub value : Bytes

pub record RpcError : Type 0 where
  pub code : ℤ
  pub message : Bytes
  pub details : List ErrorDetail

-- The errors that reach the code of the package: `io.EOF`, `io.ErrUnexpectedEOF`,
-- `io.ErrClosedPipe`, an `*RPCError`, and any other, with its text.
pub data Error : Type 0 where
  eof unexpected_eof closed_pipe : Error
  rpc : RpcError → Error
  other : Bytes → Error

-- `err.Error()`; that of an `*RPCError` is `easyrpc: code=%d %s`.
unfoldable pub error_text : Error → Bytes
unfolding itoa
error_text eof = codes "EOF"
error_text unexpected_eof = codes "unexpected EOF"
error_text closed_pipe = codes "io: read/write on closed pipe"
error_text (rpc e) = codes "easyrpc: code=" ++ (itoa e.code ++ (b' ' ∷ e.message))
error_text (other text) = text

-- An error without details, as the package builds it.
abbrev pub rpc_error : ℕ → Bytes → RpcError
rpc_error code message = record { code = pos code; message = message; details = [] }

-- The cases of `HTTPStatus` for a code that is not negative.
unfoldable pub status_of_nat : ℕ → ℕ
status_of_nat c =
    if c == 1
    then 499
    else if c == 2
    then 500
    else if c == 3
    then 400
    else if c == 4
    then 504
    else if c == 5
    then 404
    else if c == 6
    then 409
    else if c == 7
    then 403
    else if c == 8
    then 429
    else if c == 9
    then 400
    else if c == 10
    then 409
    else if c == 11
    then 400
    else if c == 12
    then 501
    else if c == 13
    then 500
    else if c == 14
    then 503
    else if c == 15
    then 500
    else if c == 16
    then 401
    else 500

unfoldable pub http_status : ℤ → ℕ
unfolding status_of_nat
http_status (pos c) = status_of_nat c
http_status (negsuc c) = 500

unfoldable pub connect_from_status : ℕ → ℕ
connect_from_status status =
    if status == 400
    then 3
    else if status == 404
    then 5
    else if status == 403
    then 7
    else if status == 401
    then 16
    else if status == 429
    then 8
    else if status == 503
    then 14
    else if status == 409
    then 10
    else if status == 504
    then 4
    else if status == 501
    then 12
    else if status == 499
    then 1
    else 13

-- The map `CodeNames`, as the list of its entries.
abbrev pub code_names : List (ℕ × Bytes)
code_names =
    (0, codes "ok")
    ∷ (1, codes "canceled")
    ∷ (2, codes "unknown")
    ∷ (3, codes "invalid_argument")
    ∷ (4, codes "deadline_exceeded")
    ∷ (5, codes "not_found")
    ∷ (6, codes "already_exists")
    ∷ (7, codes "permission_denied")
    ∷ (8, codes "resource_exhausted")
    ∷ (9, codes "failed_precondition")
    ∷ (10, codes "aborted")
    ∷ (11, codes "out_of_range")
    ∷ (12, codes "unimplemented")
    ∷ (13, codes "internal")
    ∷ (14, codes "unavailable")
    ∷ (15, codes "data_loss")
    ∷ (16, codes "unauthenticated")
    ∷ []

-- `if s, ok := CodeNames[code]; ok`, and "unknown".
unfoldable pub name_in : List (ℕ × Bytes) → ℕ → Bytes
name_in [] code = codes "unknown"
name_in ((c, s) ∷ names) code = if c == code then s else name_in names code

unfoldable pub code_to_string : ℤ → Bytes
unfolding name_in
code_to_string (pos c) = name_in code_names c
code_to_string (negsuc c) = codes "unknown"

-- `for c, s := range CodeNames`, in the order of the list, and 2.
unfoldable pub code_in : List (ℕ × Bytes) → Bytes → ℕ
unfolding eq_text
code_in [] name = 2
code_in ((c, s) ∷ names) name = if eq_text s name then c else code_in names name

unfoldable pub code_from_string : Bytes → ℕ
unfolding code_in
code_from_string name = code_in code_names name
