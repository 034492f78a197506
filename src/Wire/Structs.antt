-- ===== src/Wire/Structs.antt =====
-- The structs that travel as JSON (protocol.go: wireDetail, endStreamJSON, EndStreamMessage).
use easy_rpc_go.Base.{List, [], Option}
use easy_rpc_go.Base.Int.{ℤ, pos}
use easy_rpc_go.Text.{Bytes}
use easy_rpc_go.Code.{ErrorDetail}
use easy_rpc_go.Headers.{Headers}

pub record WireDetail : Type 0 where
  pub kind : Bytes
  pub value : Bytes

-- The error object of an end-of-stream message, and the whole body of a unary error.
pub record WireError : Type 0 where
  pub code : Bytes
  pub message : Bytes
  pub details : List WireDetail

pub record EndStreamJson : Type 0 where
  pub error : Option WireError
  pub metadata : Headers

pub record EndStreamMessage : Type 0 where
  pub code : ℤ
  pub message : Bytes
  pub details : List ErrorDetail
  pub metadata : Headers

abbrev pub no_detail : WireDetail
no_detail = record { kind = []; value = [] }

abbrev pub no_error : WireError
no_error = record { code = []; message = []; details = [] }

abbrev pub clean_end : EndStreamMessage
clean_end = record { code = pos 0; message = []; details = []; metadata = [] }
