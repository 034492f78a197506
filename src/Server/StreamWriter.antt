-- ===== src/Server/StreamWriter.antt =====
-- StreamWriter (server.go): a writer of frames for handlers that hold an `io.Writer`. The
-- `io.Writer` is the list of what was written to it; whether a Write fails may depend on it.
use easy_rpc_go.Base.{
  ◌≡◌, refl, sym, ◌∙◌, Bool, true, false, List, [], ◌∷◌, ◌++◌, append-nil, append_assoc, Option,
  none, some, if◌then◌else◌,
}
use easy_rpc_go.Base.Int.{ℤ, is_zero}
use easy_rpc_go.Text.{Bytes}
use easy_rpc_go.Code.{Error, closed_pipe}
use easy_rpc_go.Frame.{frame}
use easy_rpc_go.Json.{JsonText}
use easy_rpc_go.Wire.Structs.{clean_end}
use easy_rpc_go.Wire.Codec.{encode_end_stream}

pub record StreamWriter : Type 0 where
  pub sink : List Bytes
  pub end : Bool

abbrev pub new_stream_writer : List Bytes → StreamWriter
new_stream_writer w = record { sink = w; end = false }

-- The payload of `End`: none for code 0.
unfoldable pub end_payload : JsonText → ℤ → Bytes → Bytes
end_payload text code message =
    if is_zero code
    then []
    else encode_end_stream text (record clean_end { code = code; message = message })

module _ (fails : List Bytes → Option Error) where
  unfoldable pub write_payload : Bytes → StreamWriter → Option Error × StreamWriter
  write_payload payload s =
      if s.end
      then (some closed_pipe, s)
      else (fails s.sink, record s { sink = s.sink ++ frame payload false ∷ [] })

  unfoldable pub end_stream : JsonText → ℤ → Bytes → StreamWriter → Option Error × StreamWriter
  unfolding end_payload
  end_stream text code message s = if s.end then (none, s) else (
    fails s.sink,
    record s { sink = s.sink ++ frame (end_payload text code message) true ∷ []; end = true },
  )

-- The calls that a handler makes on the writer.
pub data Call : Type 0 where
  payload : Bytes → Call
  ending : ℤ → Bytes → Call

module _ (fails : List Bytes → Option Error) (text : JsonText) where
  unfoldable pub called : Call → StreamWriter → StreamWriter
  unfolding write_payload end_stream
  called (payload p) s = (write_payload fails p s).1
  called (ending code message) s = (end_stream fails text code message s).1

  unfoldable pub all_called : List Call → StreamWriter → StreamWriter
  unfolding called
  all_called [] s = s
  all_called (c ∷ cs) s = all_called cs (called c s)

  -- The frames of the calls: up to the first End, and no further.
  unfoldable pub framed : List Call → List Bytes
  framed [] = []
  framed (payload p ∷ cs) = frame p false ∷ framed cs
  framed (ending code message ∷ cs) = frame (end_payload text code message) true ∷ []

  after_end :
      (cs : List Call) (w : List Bytes) → (all_called cs (record { sink = w; end = true })).sink ≡ w
  unfolding all_called called write_payload end_stream
  after_end [] w = refl
  after_end (payload p ∷ cs) w = after_end cs w
  after_end (ending code message ∷ cs) w = after_end cs w

  -- The calls on a StreamWriter write the frames of the payloads in front of the first End and the
  -- END frame of that End, in this order and nothing else, whichever writes fail.
  pub all_called-framed :
      (cs : List Call) (w : List Bytes)
      → (all_called cs (new_stream_writer w)).sink ≡ w ++ framed cs
  unfolding all_called called write_payload end_stream framed
  all_called-framed [] w = sym (append-nil w)
  all_called-framed (payload p ∷ cs) w =
      all_called-framed cs (w ++ frame p false ∷ [])
      ∙ append_assoc w (frame p false ∷ []) (framed cs)
  all_called-framed (ending code message ∷ cs) w = after_end cs _
