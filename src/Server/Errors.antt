-- ===== src/Server/Errors.antt =====
-- Error responses (server.go: asRPCError, writeError, writeErrorStatus, streamFail).
use easy_rpc_go.Base.{ℕ, true, [], ◌∷◌, Option}
use easy_rpc_go.Base.Int.{pos}
use easy_rpc_go.Text.{codes}
use easy_rpc_go.Text.Decimal.{itoa}
use easy_rpc_go.Code.{
  Error, eof, unexpected_eof, closed_pipe, rpc, other, RpcError, error_text, http_status,
}
use easy_rpc_go.Headers.{Headers, merge_headers}
use easy_rpc_go.Frame.{frame}
use easy_rpc_go.Content.{content_type_for}
use easy_rpc_go.HandlerContext.{HandlerContext}
use easy_rpc_go.Json.{JsonText}
use easy_rpc_go.Wire.Structs.{EndStreamMessage}
use easy_rpc_go.Wire.Codec.{encode_end_stream, encode_error_json}
use easy_rpc_go.Server.Writer.{ResponseWriter}

unfoldable pub as_rpc_error : Error → RpcError
unfolding error_text
as_rpc_error (rpc e) = e
as_rpc_error eof = record { code = pos 13; message = error_text eof; details = [] }
as_rpc_error unexpected_eof = record {
  code = pos 13;
  message = error_text unexpected_eof;
  details = [];
}
as_rpc_error closed_pipe = record { code = pos 13; message = error_text closed_pipe; details = [] }
as_rpc_error (other text) = record { code = pos 13; message = text; details = [] }

-- The END message of a failure.
abbrev pub failure : RpcError → Headers → EndStreamMessage
failure e metadata = record {
  code = e.code;
  message = e.message;
  details = e.details;
  metadata = metadata;
}

module _ {S : Type 0} (w : ResponseWriter S) (text : JsonText) where
  unfoldable pub write_error_status : RpcError → ℕ → S → Option Error × S
  write_error_status e status s =
      w.write_frame (encode_error_json text e.code e.message e.details) (
        w.header
          ((codes "Content-Type", codes "application/json" ∷ [])
            ∷ (codes "Connect-Code", itoa e.code ∷ [])
            ∷ (codes "Connect-Error", e.message ∷ [])
            ∷ [])
          (w.status status s))

  unfoldable pub write_error : RpcError → S → Option Error × S
  unfolding write_error_status
  write_error e s = write_error_status e (http_status e.code) s

  unfoldable pub stream_fail : RpcError → HandlerContext → S → Option Error × S
  stream_fail e hc s = w.write_frame (frame (encode_end_stream text (failure e hc.trailer)) true) (
      w.header
        (merge_headers ((codes "Content-Type", content_type_for true hc.kind ∷ []) ∷ []) hc.header)
        (w.status 200 s))
