-- ===== src/Server/Stream/Transcript.antt =====
-- What a stream handler amounts to, without the writer: the headers that its first frame freezes,
-- the payloads in front of the end, and the message that ends the stream.
use easy_rpc_go.Base.{
  ◌≡◌, refl, ◌∙◌, Bool, true, false, List, [], ◌∷◌, ◌++◌, append_assoc, map, none,
}
use easy_rpc_go.Text.{Bytes}
use easy_rpc_go.Headers.{Headers, add_value}
use easy_rpc_go.Frame.{Gzip}
use easy_rpc_go.Content.{ContentKind}
use easy_rpc_go.HandlerContext
use easy_rpc_go.HandlerContext.{HandlerContext}
use easy_rpc_go.Json.{JsonText}
use easy_rpc_go.Wire.Structs.{EndStreamMessage, clean_end}
use easy_rpc_go.Server.Writer.{Event, status_set, header_set, written, reliable}
use easy_rpc_go.Server.Calls.{Program, return, emit, set_header, set_trailer}
use easy_rpc_go.Server.Stream.{
  StreamState, stream_headers, data_frame, end_frame, apply_once, write, end_with, emit_frame, run,
  final_message, finish, run_handler,
}

-- The payloads and the last message of a stream.
pub record Transcript : Type 0 where
  pub payloads : List Bytes
  pub final : EndStreamMessage

abbrev pub spoken : Bytes → Transcript → Transcript
spoken p t = record t { payloads = p ∷ t.payloads }

-- The transcript of a handler whose writes succeed. What it does after its end is void.
unfoldable pub transcript : Program → HandlerContext → Transcript
unfolding final_message
transcript (return e) hc = record { payloads = []; final = final_message e hc.trailer }
transcript (emit p true next) hc = record {
  payloads = [];
  final = record clean_end { metadata = hc.trailer };
}
transcript (emit p false next) hc = spoken p (transcript (next none) hc)
transcript (set_header k v next) hc = transcript next (HandlerContext.set_header k v hc)
transcript (set_trailer k v next) hc = transcript next (HandlerContext.set_trailer k v hc)

-- The headers at the first frame, or at the handler's return.
unfoldable pub frozen : Program → Headers → Headers
frozen (return e) h = h
frozen (emit p end next) h = h
frozen (set_header k v next) h = frozen next (add_value k v h)
frozen (set_trailer k v next) h = frozen next h

module _ (gzip : Gzip) (text : JsonText) (kind : ContentKind) (wants_gzip : Bool) where
  -- What the writer is told for a transcript.
  unfoldable pub told : Transcript → List Event
  told t =
      map (λ p. written (data_frame gzip wants_gzip p)) t.payloads
      ++ written (end_frame text t.final) ∷ []

  abbrev running : Bool → HandlerContext → List Event → StreamState (List Event)
  running ended hc log = record { sink = log; context = hc; ended = ended; headers_applied = true }

  abbrev outcome : Program → StreamState (List Event) → List Event
  outcome program st =
      finish reliable gzip text kind wants_gzip (run reliable gzip text kind wants_gzip program st)

  -- Nothing is written behind the end.
  silent :
      (program : Program) (hc : HandlerContext) (log : List Event)
      → outcome program (running true hc log) ≡ log
  unfolding run finish emit_frame apply_once
  silent (return e) hc log = refl
  silent (emit p end next) hc log = silent (next none) hc log
  silent (set_header k v next) hc log = silent next (HandlerContext.set_header k v hc) log
  silent (set_trailer k v next) hc log = silent next (HandlerContext.set_trailer k v hc) log

  speaks :
      (program : Program) (hc : HandlerContext) (log : List Event)
      → outcome program (running false hc log) ≡ log ++ told (transcript program hc)
  unfolding run finish emit_frame apply_once write end_with transcript told
  speaks (return e) hc log = refl
  speaks (emit p true next) hc log = silent (next none) hc _
  speaks (emit p false next) hc log =
      speaks (next none) hc (log ++ written (data_frame gzip wants_gzip p) ∷ [])
      ∙ append_assoc log _ _
  speaks (set_header k v next) hc log = speaks next (HandlerContext.set_header k v hc) log
  speaks (set_trailer k v next) hc log = speaks next (HandlerContext.set_trailer k v hc) log

  opens :
      (program : Program) (hc : HandlerContext) (log : List Event)
      → outcome program
          (record { sink = log; context = hc; ended = false; headers_applied = false })
        ≡ log
          ++ header_set (stream_headers kind wants_gzip (frozen program hc.header))
            ∷ told (transcript program hc)
  unfolding run finish emit_frame apply_once write end_with transcript told frozen
      HandlerContext.set_header HandlerContext.set_trailer
  opens (return e) hc log = append_assoc log _ _
  opens (emit p true next) hc log = silent (next none) hc _ ∙ append_assoc log _ _
  opens (emit p false next) hc log =
      speaks (next none) hc _ ∙ append_assoc (log ++ _ ∷ []) _ _ ∙ append_assoc log _ _
  opens (set_header k v next) hc log = opens next (HandlerContext.set_header k v hc) log
  opens (set_trailer k v next) hc log = opens next (HandlerContext.set_trailer k v hc) log

  pub run_handler-transcript :
      (program : Program) (hc : HandlerContext) (log : List Event)
      → run_handler reliable gzip text kind wants_gzip program hc log
        ≡ log
          ++ status_set 200
            ∷ header_set (stream_headers kind wants_gzip (frozen program hc.header))
            ∷ told (transcript program hc)
  unfolding run_handler
  run_handler-transcript program hc log = opens program hc _ ∙ append_assoc log _ _
