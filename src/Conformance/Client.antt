-- ===== src/Conformance/Client.antt =====
-- The conformance client (cmd/conformance-client/main.go): its transport, the choice of its realm,
-- and its checks in their order. A failed check ends the program with the text that it prints
-- first, and is an error here; the values printed behind that text are left out. The calls go
-- through the generated client; the loops over Recv take fuel.
pub mod Checks
pub mod Setup
pub mod Routes
pub mod Reading
pub mod Loops
pub mod Endings
pub mod Streams
pub mod Run
pub mod Unary
pub mod Outcomes
use easy_rpc_go.Base.{
  ℕ, zero, suc, Bool, true, false, ◌&&◌, not, List, [], ◌∷◌, ◌++◌, Option, none, some, Result, ok,
  err, length, ◌==◌, if◌then◌else◌,
}
use easy_rpc_go.Base.Int.{ℤ, pos}
use easy_rpc_go.Text.{Bytes, codes, eq_text, is_empty, trim_right}
use easy_rpc_go.Code.{Error, eof, unexpected_eof, closed_pipe, rpc, other, RpcError}
use easy_rpc_go.Headers.{Headers, values}
use easy_rpc_go.Frame.{Gzip}
use easy_rpc_go.Json.{JsonText}
use easy_rpc_go.Content.{proto}
use easy_rpc_go.Message.{Request, Response}
use easy_rpc_go.Client.Interceptors.{Transport, prepend, base_url_transport}
use easy_rpc_go.Client.Stream.{HttpStream, recv, trailers_of}

-- The variables of the environment that select the server and the transport.
abbrev pub or_default : Bytes → Bytes → Bytes
or_default s default = if is_empty s then default else s

unfoldable pub choose_base : Bytes → Bytes
choose_base base = or_default base (codes "http://127.0.0.1:18888")

-- EASY_RPC_REALM, EASY_RPC_TRANSPORT, and RealmStd.
unfoldable pub choose_realm : Bytes → Bytes → Bytes
choose_realm realm transport = or_default (or_default realm transport) (codes "std")

-- `baseTransport`; its mutex guards the one field that changes.
pub record BaseTransport (C S : Type 0) : Type 0 where
  pub rt : Transport C (Result Error Response) S
  pub base : Bytes
  pub trails : Headers

abbrev pub is_slash : ℕ → Bool
is_slash c = c == b'/'

module _ {C S : Type 0} where
  unfoldable pub last_trailers : BaseTransport C S → Headers
  last_trailers b = b.trails

  -- `baseTransport.prepend`.
  unfoldable pub prepended : BaseTransport C S → Bytes → Bytes
  unfolding prepend
  prepended b u = prepend (trim_right is_slash b.base) u

  abbrev pub keep_trailers : Result Error Response → BaseTransport C S → BaseTransport C S
  keep_trailers (ok res) b = record b { trails = res.trailers }
  keep_trailers (err e) b = b

  -- `baseTransport.Send`: the result, and the transport with the trailers of a response.
  unfoldable pub base_send :
      BaseTransport C S → C → Request → Result Error Response × BaseTransport C S
  unfolding prepended
  base_send b ctx req =
      let res = b.rt.send ctx (record req { url = prepended b req.url }) in
      (res, keep_trailers res b)

  unfoldable pub base_open_stream : BaseTransport C S → C → Request → S
  unfolding prepended
  base_open_stream b ctx req = b.rt.open_stream ctx (record req { url = prepended b req.url })

  -- The transport as the generated client uses it.
  unfoldable pub transport_of : BaseTransport C S → Transport C (Result Error Response) S
  unfolding base_send base_open_stream
  transport_of b = record {
    send = λ ctx req. (base_send b ctx req).0;
    open_stream = base_open_stream b;
  }

-- The first text that a failed check prints, or a value.
abbrev pub Checked : Type 0 → Type 0
Checked A = Result Bytes A

infixl 5 ◌>>=◌ ◌>>◌
abbrev pub ◌>>=◌ : {A B : Type 0} → Checked A → (A → Checked B) → Checked B
ok a >>= f = f a
err e >>= f = err e

abbrev pub ◌>>◌ : {B : Type 0} → Checked (Unit {0}) → Checked B → Checked B
m >> k = m >>= λ _. k

-- `if !t { fail }`, and `if err != nil { fail }`.
abbrev pub require : Bool → Bytes → Checked (Unit {0})
require true text = ok tt
require false text = err text

abbrev pub or_fail : {A : Type 0} → Result Error A → Bytes → Checked A
or_fail (ok a) text = ok a
or_fail (err e) text = err text

-- An ending that is io.EOF.
abbrev pub at_eof : Bytes → Error → Checked (Unit {0})
at_eof text eof = ok tt
at_eof text unexpected_eof = err text
at_eof text closed_pipe = err text
at_eof text (rpc e) = err text
at_eof text (other s) = err text

module _ (gzip : Gzip) (text : JsonText) where
  -- One round of a loop over `Recv`.
  abbrev pub round :
      {I : Type 0}
      → (Bytes → Checked I)
      → (Error → Checked (Unit {0}))
      → Result Error Bytes × HttpStream
      → (HttpStream → Checked (List I × HttpStream))
      → Checked (List I × HttpStream)
  round decode ending (err e, s) rest = do ending e; ok ([], s)
  round decode ending (ok p, s) rest = do i ← decode p; (is, s') ← rest s; ok (i ∷ is, s')

  unfoldable pub read_all :
      {I : Type 0}
      → (Bytes → Checked I)
      → (Error → Checked (Unit {0}))
      → ℕ
      → HttpStream
      → Checked (List I × HttpStream)
  unfolding recv
  read_all decode ending zero s = err (codes "out of fuel")
  read_all decode ending (suc n) s =
      round decode ending (recv gzip text s) (read_all decode ending n)
