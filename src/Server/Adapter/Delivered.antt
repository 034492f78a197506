-- ===== src/Server/Adapter/Delivered.antt =====
-- What net/http sends for the calls that ServeNetHTTP makes on its http.ResponseWriter.
use easy_rpc_go.Base.{
  ℕ, ◌≡◌, refl, sym, ap, ◌∙◌, Bool, true, false, List, [], ◌∷◌, ◌++◌, append-nil, append_assoc, map,
  Option, none, some, ◌==◌, if◌then◌else◌,
}
use easy_rpc_go.Text.{Bytes, codes}
use easy_rpc_go.Text.{canonical_header_key}
use easy_rpc_go.Code.{Error}
use easy_rpc_go.Headers.{Headers, add_value, append_into}
use easy_rpc_go.Headers.Canonical.{canonical_values, canonical_all}
use easy_rpc_go.Frame.{Gzip}
use easy_rpc_go.Json.{JsonText}
use easy_rpc_go.Server.Writer.{Event, status_set, header_set, written, reliable}
use easy_rpc_go.Server.Calls.{MethodSpec, ServiceRegistry}
use easy_rpc_go.Server.Replay.{replay}
use easy_rpc_go.Server.Dispatch.{dispatch}
use easy_rpc_go.Server.Dispatch.Writers.{dispatch_played}
use easy_rpc_go.Server.Dispatch.Responses.{IsResponse, dispatch-Responds}
use easy_rpc_go.Server.Adapter.{
  NetEvent, header_added, header_written, body_written, flushed, error_sent, HttpWriter,
  new_http_writer, added, all_added, start, flush, written_frame, write_frame, http_writer,
  NetRequest, to_request, finished, serve_net_http,
}
use easy_rpc_go.Server.Adapter.Once.{start_again}
use easy_rpc_go.Client.Unary.{HttpResponse}
use easy_rpc_go.Client.Unary.Errors.{response_of}

-- The body of the response, from the calls behind its status line.
unfoldable pub net_body : List NetEvent → Bytes
net_body [] = []
net_body (body_written p ∷ events) = p ++ net_body events
net_body (error_sent text code ∷ events) = text ++ codes "\n" ++ net_body events
net_body (header_added k v ∷ events) = net_body events
net_body (header_written code ∷ events) = net_body events
net_body (flushed ∷ events) = net_body events

-- The response of net/http: `Header().Add` adds under the canonical key, up to the status line,
-- which the first write sends if nothing did before it. What net/http does besides is left out: it
-- sends no body for HEAD and for the statuses that have none, trims and cleans header values, and
-- adds headers of its own.
unfoldable pub net_response : Bytes → Headers → List NetEvent → HttpResponse
net_response proto h [] = record { status = 200; headers = h; body = []; proto = proto }
net_response proto h (header_added k v ∷ events) =
    net_response proto (add_value (canonical_header_key k) v h) events
net_response proto h (header_written code ∷ events) = record {
  status = code;
  headers = h;
  body = net_body events;
  proto = proto;
}
net_response proto h (body_written p ∷ events) = record {
  status = 200;
  headers = h;
  body = p ++ net_body events;
  proto = proto;
}
net_response proto h (flushed ∷ events) = record {
  status = 200;
  headers = h;
  body = net_body events;
  proto = proto;
}
net_response proto h (error_sent text code ∷ events) = record {
  status = code;
  headers = h;
  body = text ++ codes "\n" ++ net_body events;
  proto = proto;
}

response-added :
    (proto k : Bytes) (vs : List Bytes) (h : Headers) (events : List NetEvent)
    → net_response proto h (added k vs ++ events)
      ≡ net_response proto (canonical_values k vs h) events
unfolding net_response
response-added proto k [] h events = refl
response-added proto k (v ∷ vs) h events = response-added proto k vs _ events

response-all_added :
    (proto : Bytes) (own h : Headers) (events : List NetEvent)
    → net_response proto h (all_added own ++ events)
      ≡ net_response proto (canonical_all own h) events
response-all_added proto [] h events = refl
response-all_added proto ((k, vs) ∷ own) h events =
    ap (net_response proto h) (append_assoc (added k vs) (all_added own) events)
    ∙ response-added proto k vs h (all_added own ++ events)
    ∙ response-all_added proto own (canonical_values k vs h) events

-- All bytes of a list of writes.
abbrev whole : List Bytes → Bytes
whole [] = []
whole (p ∷ ps) = p ++ whole ps

response_of-writes :
    (proto : Bytes) (ps : List Bytes)
    → response_of proto (map written ps)
      ≡ record { status = 200; headers = []; body = whole ps; proto = proto }
unfolding response_of
response_of-writes proto [] = refl
response_of-writes proto (p ∷ ps) = rw (response_of-writes proto ps) refl

-- A write that succeeds, and its flush.
abbrev frame_sent : Bool → Bytes → List NetEvent
frame_sent true p = body_written p ∷ flushed ∷ []
frame_sent false p = body_written p ∷ []

frame_logged :
    (flushes : Bool) (p : Bytes) (h : HttpWriter)
    → (written_frame flushes none (record h { log = h.log ++ body_written p ∷ [] })).1
      ≡ record h { log = h.log ++ frame_sent flushes p }
unfolding written_frame flush
frame_logged true p h =
    ap (λ l. record h { log = l }) (append_assoc h.log (body_written p ∷ []) (flushed ∷ []))
frame_logged false p h = refl

one_write :
    (flushes : Bool) (p : Bytes) (h : HttpWriter)
    → h.started ≡ true
    → (write_frame (λ log. none) flushes p h).1 ≡ record h { log = h.log ++ frame_sent flushes p }
unfolding write_frame
one_write flushes p h s =
    ap
      (λ (t : HttpWriter).
        (written_frame flushes none (record t { log = t.log ++ body_written p ∷ [] })).1)
      (start_again (λ log. none) flushes h s)
    ∙ frame_logged flushes p h

write_frame-none :
    (flushes : Bool) (p : Bytes) (h : HttpWriter) → (write_frame (λ log. none) flushes p h).0 ≡ none
unfolding write_frame written_frame
write_frame-none flushes p h = refl

finished-started : (e : Option Error) (h : HttpWriter) → h.started ≡ true → finished (e, h) ≡ h.log
unfolding finished
finished-started none h s = refl
finished-started (some e) h s = rw s refl

module _ (flushes : Bool) where
  -- The calls that write and flush each of a list of frames.
  abbrev bodies : List Bytes → List NetEvent
  bodies [] = []
  bodies (p ∷ ps) = frame_sent flushes p ++ bodies ps

  replay-bodies :
      (ps : List Bytes) (h : HttpWriter)
      → h.started ≡ true
      → replay (http_writer (λ log. none) flushes) (map written ps) h
        ≡ record h { log = h.log ++ bodies ps }
  unfolding replay
  replay-bodies [] h s = ap (λ l. record h { log = l }) (sym (append-nil h.log))
  replay-bodies (p ∷ ps) h s =
      ap (replay (http_writer (λ log. none) flushes) (map written ps)) (one_write flushes p h s)
      ∙ replay-bodies ps (record h { log = h.log ++ frame_sent flushes p }) s
      ∙ ap (λ l. record h { log = l }) (append_assoc h.log (frame_sent flushes p) (bodies ps))

net_body-bodies : (flushes : Bool) (ps : List Bytes) → net_body (bodies flushes ps) ≡ whole ps
unfolding net_body
net_body-bodies flushes [] = refl
net_body-bodies true (p ∷ ps) = ap (λ b. p ++ b) (net_body-bodies true ps)
net_body-bodies false (p ∷ ps) = ap (λ b. p ++ b) (net_body-bodies false ps)

-- Status 0 stands for 200.
abbrev pub or_200 : ℕ → ℕ
or_200 status = if status == 0 then 200 else status

-- What the recorded calls make, with the headers as net/http adds them.
abbrev pub canonical : HttpResponse → HttpResponse
canonical r = record r {
  status = or_200 r.status;
  headers = canonical_all (append_into [] r.headers) [];
}

module _ (flushes : Bool) (e : Option Error) (proto : Bytes) where
  -- The frames of a writer that has its status and its headers.
  sent :
      (code : ℕ) (own : Headers) (p : Bytes) (ps : List Bytes)
      → net_response proto [] (
          finished (
            e,
            replay
                (http_writer (λ log. none) flushes)
                (map written (p ∷ ps))
                (record { log = []; status = code; headers = own; started = false }),
          ))
        ≡ record {
          status = or_200 code;
          headers = canonical_all own [];
          body = whole (p ∷ ps);
          proto = proto;
        }
  unfolding replay write_frame start net_response
  sent code own p ps =
      let h : HttpWriter = record {
        log = all_added own ++ header_written (or_200 code) ∷ [];
        status = code;
        headers = own;
        started = true;
      } in
      ap (λ t. net_response proto [] (finished (e, t))) (replay-bodies flushes (p ∷ ps) h refl)
      ∙ ap (net_response proto []) (
          finished-started e (record h { log = h.log ++ bodies flushes (p ∷ ps) }) refl
          ∙ append_assoc (all_added own) (header_written (or_200 code) ∷ [])
              (bodies flushes (p ∷ ps)))
      ∙ response-all_added proto own [] (header_written (or_200 code) ∷ bodies flushes (p ∷ ps))
      ∙ ap
          (λ b. record {
            status = or_200 code;
            headers = canonical_all own [];
            body = b;
            proto = proto;
          })
          (net_body-bodies flushes (p ∷ ps))

  made :
      (code : ℕ) (h : Headers) (p : Bytes) (ps : List Bytes)
      → record {
        status = or_200 code;
        headers = canonical_all (append_into [] h) [];
        body = whole (p ∷ ps);
        proto = proto;
      }
        ≡ canonical
            (response_of proto (status_set code ∷ header_set h ∷ written p ∷ map written ps))
  unfolding response_of
  made code h p ps =
      ap
        (λ (x : HttpResponse).
          canonical (record { status = code; headers = h; body = p ++ x.body; proto = x.proto }))
        (sym (response_of-writes proto ps))

  played :
      (events : List Event)
      → IsResponse events
      → net_response proto []
          (finished (e, replay (http_writer (λ log. none) flushes) events new_http_writer))
        ≡ canonical (response_of proto events)
  unfolding replay response_of
  played _ (IsResponse.status_first code h p ps) =
      sent code (append_into [] h) p ps ∙ made code h p ps
  played _ (IsResponse.header_first code h p ps) =
      sent code (append_into [] h) p ps ∙ made code h p ps

-- The recorder has just what it is told.
recorded : (events log : List Event) → replay reliable events log ≡ log ++ events
unfolding replay
recorded [] log = sym (append-nil log)
recorded (status_set code ∷ events) log = recorded events _ ∙ append_assoc log _ _
recorded (header_set h ∷ events) log = recorded events _ ∙ append_assoc log _ _
recorded (written p ∷ events) log = recorded events _ ∙ append_assoc log _ _

-- On a connection whose writes succeed, what net/http sends for the calls that ServeNetHTTP makes
-- is the response that Dispatch tells a writer: its status, where 0 stands for 200, its whole body,
-- and its headers, each value added under the canonical form of its name. Whether the writer can
-- flush makes no difference.
pub net_response-serve_net_http :
    (flushes : Bool) (gzip : Gzip) (text : JsonText) (methods : List MethodSpec)
    (reg : ServiceRegistry) (r : NetRequest) (proto : Bytes)
    → net_response proto [] (serve_net_http (λ log. none) flushes gzip text methods reg r)
      ≡ canonical (response_of proto (dispatch reliable gzip text (to_request r) methods reg []).1)
unfolding serve_net_http
net_response-serve_net_http flushes gzip text methods reg r proto =
    let told = dispatch reliable gzip text (to_request r) methods reg [] in
    let (events, (shape, same)) =
      dispatch-Responds reliable gzip text [] (to_request r) methods reg in
    let as_told = same ∙ recorded events [] in
    ap (λ x. net_response proto [] (finished x))
      (dispatch_played (http_writer (λ log. none) flushes) (write_frame-none flushes) gzip text
        (to_request r) methods reg new_http_writer)
    ∙ played flushes told.0 proto told.1 (rw as_told shape)
