-- ===== src/Server/Adapter/Once.antt =====
-- The calls that a request makes on the `http.ResponseWriter`.
use easy_rpc_go.Base.{
  ℕ, ◌≡◌, refl, sym, ap, ◌∙◌, Bool, true, false, List, [], ◌∷◌, ◌++◌, append-nil, append_assoc, map,
  Option, none, some, All, All-append, Bool-cases, inl, inr,
}
use easy_rpc_go.Text.{Bytes}
use easy_rpc_go.Code.{Error}
use easy_rpc_go.Headers.{Headers, append_into}
use easy_rpc_go.Frame.{Gzip}
use easy_rpc_go.Json.{JsonText}
use easy_rpc_go.Server.Writer.{Event, written}
use easy_rpc_go.Server.Calls.{MethodSpec, ServiceRegistry}
use easy_rpc_go.Server.Replay.{replay}
use easy_rpc_go.Server.Dispatch.Responses.{IsResponse, dispatch-Responds}
use easy_rpc_go.Server.Adapter.{
  NetEvent, header_added, header_written, body_written, flushed, error_sent, HttpWriter,
  new_http_writer, all_added, start, flush, written_frame, write_frame, http_writer, NetRequest,
  to_request, finished, serve_net_http,
}

-- A write of the body or a flush.
abbrev pub IsBody : NetEvent → Type 0
IsBody (body_written p) = Unit
IsBody flushed = Unit
IsBody (header_added k v) = ⊥
IsBody (header_written code) = ⊥
IsBody (error_sent text code) = ⊥

-- Headers, one status line, and then the body: at least one write, and nothing but writes and
-- flushes.
pub data IsNetResponse : List NetEvent → Type 0 where
  response :
      (h : Headers) (code : ℕ) (p : Bytes) (rest : List NetEvent)
      → All IsBody rest
      → IsNetResponse (all_added h ++ header_written code ∷ body_written p ∷ rest)

module _ (fails : List NetEvent → Option Error) (flushes : Bool) where
  -- A writer that has started, with what it has logged, and body events behind.
  abbrev Continues : List NetEvent → HttpWriter → Type 0
  Continues log t =
      (t.started ≡ true) × ((rest : List NetEvent) × (All IsBody rest × (t.log ≡ log ++ rest)))

  flush-Continues : (b : Bool) (h : HttpWriter) → h.started ≡ true → Continues h.log (flush b h)
  unfolding flush
  flush-Continues true h s = (s, (flushed ∷ [], ((tt, tt), refl)))
  flush-Continues false h s = (s, ([], (tt, sym (append-nil h.log))))

  written_frame-Continues :
      (e : Option Error) (h : HttpWriter)
      → h.started ≡ true
      → Continues h.log (written_frame flushes e h).1
  unfolding written_frame
  written_frame-Continues (some e) h s = (s, ([], (tt, sym (append-nil h.log))))
  written_frame-Continues none h s = flush-Continues flushes h s

  start_sets : (h : HttpWriter) → (start h).started ≡ true
  unfolding start
  start_sets h = elim (Bool-cases h.started) [ inl e ↦ rw e refl | inr e ↦ rw e refl ]

  pub start_again : (h : HttpWriter) → h.started ≡ true → start h ≡ h
  unfolding start
  start_again h e = rw e refl

  -- The same, with a write in front.
  abbrev Writes : List NetEvent → Bytes → HttpWriter → Type 0
  Writes log p t =
      (t.started ≡ true)
      × ((rest : List NetEvent) × (All IsBody rest × (t.log ≡ log ++ body_written p ∷ rest)))

  write_frame-Writes :
      (p : Bytes) (h : HttpWriter) → Writes (start h).log p (write_frame fails flushes p h).1
  unfolding write_frame
  write_frame-Writes p h =
      let (s, (rest, (b, e))) =
        written_frame-Continues (fails (start h).log)
          (record (start h) { log = (start h).log ++ body_written p ∷ [] }) (start_sets h) in
      (s, (rest, (b, e ∙ append_assoc (start h).log (body_written p ∷ []) rest)))

  replay-Continues :
      (ps : List Bytes) (h : HttpWriter)
      → h.started ≡ true
      → Continues h.log (replay (http_writer fails flushes) (map written ps) h)
  unfolding replay
  replay-Continues [] h s = (s, ([], (tt, sym (append-nil h.log))))
  replay-Continues (p ∷ ps) h s =
      let (s', (rest, (b, e))) = write_frame-Writes p h in
      let (s'', (rest', (b', e'))) = replay-Continues ps (write_frame fails flushes p h).1 s' in
      (
        s'',
        (
          body_written p ∷ rest ++ rest',
          (
            (tt, All-append IsBody rest rest' b b'),
            e'
                ∙ ap (λ l. l ++ rest')
                    (e ∙ ap (λ t. t.log ++ body_written p ∷ rest) (start_again h s))
                ∙ append_assoc h.log (body_written p ∷ rest) rest',
          ),
        ),
      )

  -- The first write, and those behind it.
  replay-Writes :
      (p : Bytes) (ps : List Bytes) (h : HttpWriter)
      → Writes (start h).log p (replay (http_writer fails flushes) (written p ∷ map written ps) h)
  unfolding replay
  replay-Writes p ps h =
      let (s, (rest, (b, e))) = write_frame-Writes p h in
      let (s', (rest', (b', e'))) = replay-Continues ps (write_frame fails flushes p h).1 s in
      (
        s',
        (
          rest ++ rest',
          (
            All-append IsBody rest rest' b b',
            e' ∙ ap (λ l. l ++ rest') e ∙ append_assoc (start h).log (body_written p ∷ rest) rest',
          ),
        ),
      )

  -- From headers and status on.
  sent :
      (code : ℕ) (h : Headers) (p : Bytes) (ps : List Bytes)
      → (t : HttpWriter)
      → t
        ≡ replay
            (http_writer fails flushes)
            (written p ∷ map written ps)
            (record { log = []; status = code; headers = append_into [] h; started = false })
      → (t.started ≡ true) × IsNetResponse t.log
  unfolding start
  sent code h p ps t same =
      let (s, (rest, (b, e))) =
        replay-Writes p ps
          (record { log = []; status = code; headers = append_into [] h; started = false }) in
      (
        ap (λ (x : HttpWriter). x.started) same ∙ s,
        rw
            (ap (λ (x : HttpWriter). x.log) same
              ∙ e
              ∙ append_assoc (all_added (append_into [] h)) _ (body_written p ∷ rest))
            (IsNetResponse.response (append_into [] h) _ p rest b),
      )

  played :
      (events : List Event)
      → IsResponse events
      → (t : HttpWriter) → t ≡ replay (http_writer fails flushes) events new_http_writer
      → (t.started ≡ true) × IsNetResponse t.log
  unfolding replay
  played _ (IsResponse.status_first code h p ps) t same = sent code h p ps t same
  played _ (IsResponse.header_first code h p ps) t same = sent code h p ps t same

  finished-IsNetResponse :
      (r : Option Error × HttpWriter)
      → (r.1.started ≡ true) × IsNetResponse r.1.log
      → IsNetResponse (finished r)
  unfolding finished
  finished-IsNetResponse (none, h) (s, whole) = whole
  finished-IsNetResponse (some e, h) (s, whole) = rw s whole

  -- Whatever the handlers do and whichever writes fail, ServeNetHTTP makes these calls on the
  -- http.ResponseWriter and no others: it adds headers, writes one status line, and then the body,
  -- with at least one Write, and nothing but writes and flushes; http.Error is never called.
  pub serve_net_http-IsNetResponse :
      (gzip : Gzip) (text : JsonText) (methods : List MethodSpec) (reg : ServiceRegistry)
      (r : NetRequest)
      → IsNetResponse (serve_net_http fails flushes gzip text methods reg r)
  unfolding serve_net_http
  serve_net_http-IsNetResponse gzip text methods reg r =
      let (events, (shape, same)) =
        dispatch-Responds (http_writer fails flushes) gzip text new_http_writer (to_request r)
          methods reg in
      finished-IsNetResponse _ (played events shape _ same)
