-- ===== src/Server/Adapter.antt =====
-- The adapter to the server of net/http (server/httpx.go: httpWriter, ServeNetHTTP). An
-- `http.ResponseWriter` is the list of the calls made on it; whether its Write fails may depend on
-- all of them, and whether it can flush is a parameter. The context carries no time, so that the
-- deadline that ServeNetHTTP puts into it, the same that Dispatch puts there, is left out.
pub mod Once
pub mod Delivered
use easy_rpc_go.Base.{
  ℕ, Bool, true, false, not, List, [], ◌∷◌, ◌++◌, Option, none, some, ◌==◌, if◌then◌else◌,
}
use easy_rpc_go.Text.{Bytes, codes}
use easy_rpc_go.Code.{Error, error_text}
use easy_rpc_go.Headers.{Headers, set, go_headers, append_into}
use easy_rpc_go.Frame.{Gzip}
use easy_rpc_go.Message.{Request}
use easy_rpc_go.Json.{JsonText}
use easy_rpc_go.Server.Writer.{ResponseWriter}
use easy_rpc_go.Server.Calls.{MethodSpec, ServiceRegistry}
use easy_rpc_go.Server.Dispatch.{dispatch}

-- A call on the `http.ResponseWriter`: `Header().Add`, `WriteHeader`, `Write`, `Flush`, and
-- `http.Error`.
pub data NetEvent : Type 0 where
  header_added : Bytes → Bytes → NetEvent
  header_written : ℕ → NetEvent
  body_written : Bytes → NetEvent
  flushed : NetEvent
  error_sent : Bytes → ℕ → NetEvent

pub record HttpWriter : Type 0 where
  pub log : List NetEvent
  pub status : ℕ
  pub headers : Headers
  pub started : Bool

abbrev pub new_http_writer : HttpWriter
new_http_writer = record { log = []; status = 0; headers = []; started = false }

abbrev pub added : Bytes → List Bytes → List NetEvent
added k [] = []
added k (v ∷ vs) = header_added k v ∷ added k vs

-- The two loops of `start`.
abbrev pub all_added : Headers → List NetEvent
all_added [] = []
all_added ((k, vs) ∷ h) = added k vs ++ all_added h

unfoldable pub start : HttpWriter → HttpWriter
start h = if h.started then h else record h {
  started = true;
  log =
      h.log ++ all_added h.headers ++ header_written (if h.status == 0 then 200 else h.status) ∷ [];
}

-- `flush`, directly or on the wrapped writer.
unfoldable pub flush : Bool → HttpWriter → HttpWriter
flush flushes h = if flushes then record h { log = h.log ++ flushed ∷ [] } else h

-- What stands behind `h.w.Write`.
unfoldable pub written_frame : Bool → Option Error → HttpWriter → Option Error × HttpWriter
unfolding flush
written_frame flushes (some e) h = (some e, h)
written_frame flushes none h = (none, flush flushes h)

unfoldable pub write_frame :
    (List NetEvent → Option Error) → Bool → Bytes → HttpWriter → Option Error × HttpWriter
unfolding start written_frame
write_frame fails flushes payload h =
    let h' = start h in
    written_frame flushes (fails h'.log) (record h' { log = h'.log ++ body_written payload ∷ [] })

abbrev pub http_writer : (List NetEvent → Option Error) → Bool → ResponseWriter HttpWriter
http_writer fails flushes = record {
  status = λ code h. record h { status = code };
  header = λ hdrs h. record h { headers = append_into h.headers hdrs };
  write_frame = write_frame fails flushes;
}

-- What the handler reads of an `http.Request`.
pub record NetRequest : Type 0 where
  pub method : Bytes
  pub path : Bytes
  pub headers : Headers
  pub body : Bytes

unfoldable pub to_request : NetRequest → Request
to_request r = record {
  url = r.path;
  headers = set (codes ":method") r.method (go_headers r.headers);
  body = r.body;
}

-- What stands behind Dispatch: `http.Error` if it failed before anything was written.
unfoldable pub finished : Option Error × HttpWriter → List NetEvent
finished (none, h) = h.log
finished (some e, h) = if not h.started then h.log ++ error_sent (error_text e) 500 ∷ [] else h.log

unfoldable pub serve_net_http :
    (List NetEvent → Option Error)
    → Bool
    → Gzip
    → JsonText
    → List MethodSpec
    → ServiceRegistry
    → NetRequest
    → List NetEvent
unfolding to_request finished
serve_net_http fails flushes gzip text methods reg r =
    finished
      (dispatch (http_writer fails flushes) gzip text (to_request r) methods reg new_http_writer)
