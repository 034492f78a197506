-- ===== src/Tests/Samples.antt =====
-- Samples that the tests share, and a codec that stands for compress/gzip.
use easy_rpc_go.Base.{
  ◌≡◌, sym, ap, true, false, ◌&&◌, [], ◌∷◌, some, Result, ok, err, ◌==◌, if◌then◌else◌,
}
use easy_rpc_go.Base.Int.{pos}
use easy_rpc_go.Text.{Bytes, codes}
use easy_rpc_go.Code.{RpcError, rpc}
use easy_rpc_go.Headers.{Headers}
use easy_rpc_go.Frame.{Gzip}
use easy_rpc_go.Message.{Request}
use easy_rpc_go.Server.Calls.{
  MethodSpec, Program, return, emit, set_header, set_trailer, ServiceRegistry, new_service_registry,
}

-- Stored as it is, behind the two magic bytes of a gzip file.
abbrev pub store : Bytes → Result Bytes Bytes
store s = ok (31 ∷ 139 ∷ s)

abbrev pub unstore : Bytes → Result Bytes Bytes
unstore (a ∷ b ∷ s) = if (a == 31) && (b == 139) then ok s else err (codes "gzip: invalid header")
unstore s = err (codes "unexpected EOF")

pub unstore-store : (s z : Bytes) → store s ≡ ok z → unstore z ≡ ok s
unstore-store s z e = let same : 31 ∷ 139 ∷ s ≡ z = cc e in ap unstore (sym same)

abbrev pub stored : Gzip
stored = record { compress = store; decompress = unstore; decompress-compress = unstore-store }

-- A server-stream handler: it emits twice, and fails.
abbrev pub overflow : RpcError
overflow = record { code = pos 8; message = codes "quota"; details = [] }

abbrev pub program : Program
program = set_header (codes "X-Id") (codes "7") (
    emit (codes "one") false (λ e.
      set_trailer (codes "cost") (codes "2")
        (emit (codes "two") false (λ e'. return (some (rpc overflow))))))

abbrev pub watch : MethodSpec
watch = record {
  service = codes "Session";
  name = codes "Watch";
  path = codes "/demo.Session/Watch";
  client_stream = false;
  server_stream = true;
}

abbrev pub watch_headers : Headers
watch_headers =
    (codes "Content-Type", codes "application/connect+proto" ∷ [])
    ∷ (codes ":method", codes "POST" ∷ [])
    ∷ []

abbrev pub watch_request : Request
watch_request = record {
  url = codes "/demo.Session/Watch?x=1";
  headers = watch_headers;
  body = 0 ∷ 0 ∷ 0 ∷ 0 ∷ 1 ∷ 65 ∷ [];
}

abbrev pub lost_request : Request
lost_request = record watch_request { url = codes "/demo.Session/Lost" }

abbrev pub registry : ServiceRegistry
registry = record new_service_registry { stream = λ name. some (λ ctx body. program) }
