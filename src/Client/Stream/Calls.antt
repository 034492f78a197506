-- ===== src/Client/Stream/Calls.antt =====
-- Sequences of calls of Recv on one stream, and what holds of every stream that they lead to.
use easy_rpc_go.Base.{List, [], ◌∷◌, Result, err}
use easy_rpc_go.Text.{Bytes}
use easy_rpc_go.Code.{Error}
use easy_rpc_go.Frame.{Gzip}
use easy_rpc_go.Json.{JsonText}
use easy_rpc_go.Client.Stream.{HttpStream, recv}

abbrev failed : Error → Result Error Bytes
failed e = err e

module _ (gzip : Gzip) (text : JsonText) where
  -- The results of the calls, the last one first, and the streams in front of them and behind.
  pub data Calls (start : HttpStream) : List (Result Error Bytes) → HttpStream → Type 0 where
    none_yet : Calls start [] start
    call :
        {log : List (Result Error Bytes)} {s : HttpStream}
        → Calls start log s
        → Calls start ((recv gzip text s).0 ∷ log) (recv gzip text s).1
