-- ===== src/Server/Calls.antt =====
-- Methods, handlers and the registry (protocol.go: MethodSpec, ServiceDesc, ContextWithHeaders;
-- server.go: UnaryHandler, StreamHandler, ServiceRegistry). A handler shares its `HandlerContext`
-- with Dispatch through the context: a unary handler returns it as it left it, and a stream handler
-- is the program of its calls.
use easy_rpc_go.Base.{Bool, List, [], ◌∷◌, Option, none, some, Result, if◌then◌else◌}
use easy_rpc_go.Base.Int.{ℤ}
use easy_rpc_go.Text.{Bytes, eq_text}
use easy_rpc_go.Code.{Error}
use easy_rpc_go.Headers.{Headers}
use easy_rpc_go.HandlerContext.{HandlerContext}

pub record MethodSpec : Type 0 where
  pub service : Bytes
  pub name : Bytes
  pub path : Bytes
  pub client_stream : Bool
  pub server_stream : Bool

pub record ServiceDesc : Type 0 where
  pub type_name : Bytes
  pub methods : List MethodSpec

-- What Dispatch puts into the context of a handler. `deadline` is the timeout in nanoseconds.
pub record Context : Type 0 where
  pub headers : Headers
  pub handler : HandlerContext
  pub deadline : Option ℤ

-- The metadata that a context carries; a context without any reads as the empty map.
unfoldable pub context_with_headers : Context → Headers → Context
context_with_headers ctx hdr = record ctx { headers = hdr }

unfoldable pub headers_from_context : Context → Headers
headers_from_context ctx = ctx.headers

abbrev pub UnaryHandler : Type 0
UnaryHandler = Context → Bytes → Result Error Bytes × HandlerContext

-- A stream handler as the sequence of what it does: it emits, and goes on with the error that
-- `emit` returned; it sets headers and trailers; and it returns an error or nil.
pub data Program : Type 0 where
  return : Option Error → Program
  emit : Bytes → Bool → (Option Error → Program) → Program
  set_header : Bytes → Bytes → Program → Program
  set_trailer : Bytes → Bytes → Program → Program

abbrev pub StreamHandler : Type 0
StreamHandler = Context → Bytes → Program

-- The two maps from method names to handlers.
pub record ServiceRegistry : Type 0 where
  pub unary : Bytes → Option UnaryHandler
  pub stream : Bytes → Option StreamHandler

unfoldable pub new_service_registry : ServiceRegistry
new_service_registry = record { unary = λ name. none; stream = λ name. none }

-- The loop of Dispatch over the methods: the first with the path.
unfoldable pub find_method : Bytes → List MethodSpec → Option MethodSpec
unfolding eq_text
find_method path [] = none
find_method path (m ∷ ms) = if eq_text m.path path then some m else find_method path ms
