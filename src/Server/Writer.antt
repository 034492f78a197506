-- ===== src/Server/Writer.antt =====
-- `ResponseWriter` as an interface over a state, and the writer that records what it is told.
use easy_rpc_go.Base.{ℕ, List, [], ◌∷◌, ◌++◌, Option, none}
use easy_rpc_go.Text.{Bytes}
use easy_rpc_go.Code.{Error}
use easy_rpc_go.Headers.{Headers}

pub record ResponseWriter (S : Type 0) : Type 0 where
  pub status : ℕ → S → S
  pub header : Headers → S → S
  -- The error is the one that `WriteFrame` returns, `none` for nil.
  pub write_frame : Bytes → S → Option Error × S

-- One call on a writer.
pub data Event : Type 0 where
  status_set : ℕ → Event
  header_set : Headers → Event
  written : Bytes → Event

-- A writer that records the calls; whether a write fails may depend on all calls before it.
abbrev pub recorder : (List Event → Option Error) → ResponseWriter (List Event)
recorder fails = record {
  status = λ code log. log ++ status_set code ∷ [];
  header = λ h log. log ++ header_set h ∷ [];
  write_frame = λ p log. (fails log, log ++ written p ∷ []);
}

-- A recorder whose writes succeed.
abbrev pub reliable : ResponseWriter (List Event)
reliable = recorder (λ log. none)
