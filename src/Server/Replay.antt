-- ===== src/Server/Replay.antt =====
-- What the stream branch of Dispatch does to any writer, as the calls that it makes.
use easy_rpc_go.Base.{◌≡◌, refl, Bool, true, false, List, [], ◌∷◌, map, none}
use easy_rpc_go.Text.{Bytes}
use easy_rpc_go.Headers.{Headers}
use easy_rpc_go.Frame.{Gzip}
use easy_rpc_go.Content.{ContentKind}
use easy_rpc_go.HandlerContext
use easy_rpc_go.HandlerContext.{HandlerContext}
use easy_rpc_go.Json.{JsonText}
use easy_rpc_go.Wire.Structs.{clean_end}
use easy_rpc_go.Server.Writer.{ResponseWriter, Event, status_set, header_set, written}
use easy_rpc_go.Server.Calls.{Program, return, emit, set_header, set_trailer}
use easy_rpc_go.Server.Stream.{
  StreamState, stream_headers, data_frame, end_frame, final_message, apply_once, write, end_with,
  emit_frame, run, finish, run_handler,
}

module _ {S : Type 0} (w : ResponseWriter S) where
  -- The calls of a list, in their order; what the writes return is left out.
  unfoldable pub replay : List Event → S → S
  replay [] s = s
  replay (status_set code ∷ events) s = replay events (w.status code s)
  replay (header_set h ∷ events) s = replay events (w.header h s)
  replay (written p ∷ events) s = replay events (w.write_frame p s).1

  -- One write or more lead from a state to another.
  abbrev Writes : S → S → Type 0
  Writes s t = (p : Bytes) × ((ps : List Bytes) × (t ≡ replay (written p ∷ map written ps) s))

module _ {S : Type 0} (w : ResponseWriter S) (gzip : Gzip) (text : JsonText) (kind : ContentKind)
    (wants_gzip : Bool) where
  abbrev pub state : S → HandlerContext → Bool → Bool → StreamState S
  state s hc ended applied = record {
    sink = s;
    context = hc;
    ended = ended;
    headers_applied = applied;
  }

  abbrev pub outcome : Program → StreamState S → S
  outcome program st =
      finish w gzip text kind wants_gzip (run w gzip text kind wants_gzip program st)

  -- The end is the last write, whatever the writer says.
  pub silent :
      (program : Program) (hc : HandlerContext) (s : S) → outcome program (state s hc true true) ≡ s
  unfolding run finish emit_frame apply_once
  silent (return e) hc s = refl
  silent (emit p end next) hc s = silent (next none) hc s
  silent (set_header k v next) hc s = silent next (HandlerContext.set_header k v hc) s
  silent (set_trailer k v next) hc s = silent next (HandlerContext.set_trailer k v hc) s

  outcome-Writes :
      (program : Program) (hc : HandlerContext) (s : S)
      → Writes w s (outcome program (state s hc false true))
  unfolding run finish emit_frame apply_once write end_with replay
  outcome-Writes (return e) hc s = (end_frame text (final_message e hc.trailer), ([], refl))
  outcome-Writes (emit p true next) hc s =
      (end_frame text (record clean_end { metadata = hc.trailer }), ([], silent (next _) hc _))
  outcome-Writes (emit p false next) hc s =
      let (e, s') = w.write_frame (data_frame gzip wants_gzip p) s in
      let (q, (qs, same)) = outcome-Writes (next e) hc s' in
      (data_frame gzip wants_gzip p, (q ∷ qs, same))
  outcome-Writes (set_header k v next) hc s =
      outcome-Writes next (HandlerContext.set_header k v hc) s
  outcome-Writes (set_trailer k v next) hc s =
      outcome-Writes next (HandlerContext.set_trailer k v hc) s

  -- Headers, and then writes.
  abbrev Opens : S → S → Type 0
  Opens s t = (h : Headers) × Writes w (w.header h s) t

  outcome-Opens :
      (program : Program) (hc : HandlerContext) (s : S)
      → Opens s (outcome program (state s hc false false))
  unfolding run finish emit_frame apply_once write end_with replay
  outcome-Opens (return e) hc s = (
    stream_headers kind wants_gzip hc.header,
    (end_frame text (final_message e hc.trailer), ([], refl)),
  )
  outcome-Opens (emit p true next) hc s = (
    stream_headers kind wants_gzip hc.header,
    (end_frame text (record clean_end { metadata = hc.trailer }), ([], silent (next _) hc _)),
  )
  outcome-Opens (emit p false next) hc s =
      let h = stream_headers kind wants_gzip hc.header in
      let (e, s') = w.write_frame (data_frame gzip wants_gzip p) (w.header h s) in
      let (q, (qs, same)) = outcome-Writes (next e) hc s' in
      (h, (data_frame gzip wants_gzip p, (q ∷ qs, same)))
  outcome-Opens (set_header k v next) hc s = outcome-Opens next (HandlerContext.set_header k v hc) s
  outcome-Opens (set_trailer k v next) hc s =
      outcome-Opens next (HandlerContext.set_trailer k v hc) s

  -- The whole run of a handler.
  pub run_handler-replay :
      (program : Program) (hc : HandlerContext) (s : S)
      → (h : Headers) × ((p : Bytes) × ((ps : List Bytes) × (run_handler w gzip text kind wants_gzip
                program hc s
              ≡ replay w (status_set 200 ∷ header_set h ∷ written p ∷ map written ps) s)))
  unfolding run_handler replay
  run_handler-replay program hc s =
      let (h, (p, (ps, same))) = outcome-Opens program hc (w.status 200 s) in (h, (p, (ps, same)))
