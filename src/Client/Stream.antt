-- ===== src/Client/Stream.antt =====
-- The stream that a client reads (bridge_nethttp.go: httpStream, Recv, Trailers). The body is the
-- bytes that are still to be read. `nil` and the empty metadata are one value.
pub mod Calls
use easy_rpc_go.Base.{
  ℕ, zero, suc, Bool, true, false, not, List, [], ◌∷◌, Option, none, some, Result, ok, err,
  if◌then◌else◌, is_empty,
}
use easy_rpc_go.Base.Int.{is_zero}
use easy_rpc_go.Text.{Bytes, codes}
use easy_rpc_go.Code.{Error, eof, unexpected_eof, closed_pipe, rpc, other, rpc_error}
use easy_rpc_go.Headers.{Headers}
use easy_rpc_go.Frame.{Gzip, read_frame_decompressed}
use easy_rpc_go.Json.{JsonText}
use easy_rpc_go.Wire.Structs.{EndStreamMessage}
use easy_rpc_go.Wire.Codec.{decode_end_stream}

pub record HttpStream : Type 0 where
  pub body : Bytes
  pub ended : Bool
  pub trailers : Headers

-- The stream of a response that has the body.
abbrev pub new_stream : Bytes → HttpStream
new_stream body = record { body = body; ended = false; trailers = [] }

-- `Trailers`, where no trailers are the empty map.
unfoldable pub trailers_of : HttpStream → Headers
trailers_of s = s.trailers

-- An error of the reader: `io.EOF` in front of an END frame is an error of its own.
unfoldable pub read_failed : Error → Bool → Error
read_failed eof ended =
    if ended then eof else rpc (rpc_error 13 (codes "stream ended without END frame"))
read_failed unexpected_eof ended = unexpected_eof
read_failed closed_pipe ended = closed_pipe
read_failed (rpc e) ended = rpc e
read_failed (other text) ended = other text

-- What an END message does to the stream, and the error that `Recv` returns for it.
unfoldable pub receive_end : EndStreamMessage → HttpStream → Error × HttpStream
receive_end m s =
    if not (is_zero m.code)
    then (rpc (record { code = m.code; message = m.message; details = m.details }), s)
    else (eof, if is_empty m.metadata then s else record s { trailers = m.metadata })

module _ (gzip : Gzip) (text : JsonText) where
  -- What `Recv` does with a frame or with the reader's error.
  unfoldable pub receive :
      HttpStream → Result Error (Bytes × Bool) × Bytes → Result Error Bytes × HttpStream
  unfolding read_failed receive_end
  receive s (err e, rest) = (err (read_failed e s.ended), record s { body = rest })
  receive s (ok (payload, false), rest) = (ok payload, record s { body = rest })
  receive s (ok (payload, true), rest) =
      let (e, s') =
        receive_end (decode_end_stream text payload) (record s { body = rest; ended = true }) in
      (err e, s')

  unfoldable pub recv : HttpStream → Result Error Bytes × HttpStream
  unfolding receive
  recv s = receive s (read_frame_decompressed gzip s.body)

-- What a caller collects that calls `Recv` until it returns an error.
pub record Collected : Type 0 where
  pub messages : List Bytes
  pub error : Option Error
  pub stream : HttpStream

-- One round of the caller's loop.
abbrev pub gather : Result Error Bytes × HttpStream → (HttpStream → Collected) → Collected
gather (err e, s) rest = record { messages = []; error = some e; stream = s }
gather (ok p, s) rest = record (rest s) { messages = p ∷ (rest s).messages }

module _ (gzip : Gzip) (text : JsonText) where
  -- The caller's loop, with a bound on the calls.
  unfoldable pub collect : ℕ → HttpStream → Collected
  collect zero s = record { messages = []; error = none; stream = s }
  collect (suc n) s = gather (recv gzip text s) (collect n)
