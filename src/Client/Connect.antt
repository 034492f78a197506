-- ===== src/Client/Connect.antt =====
-- The composition root of a client (connect.go: Connect, withStandardInterceptors; protocol.go:
-- DeadlineInterceptor, cancelOnClose; bridge_auto.go: NewTransport). Contexts with a deadline, and
-- a stream that releases one when it is closed, are a parameter: a context's deadline is Go's, and
-- that of a unary call is released when the call returns.
pub mod Added
pub mod Sent
use easy_rpc_go.Base.{
  ℕ, Bool, true, false, ◌&&◌, List, [], ◌∷◌, ◌++◌, Option, none, some, Result, ok, err,
  if◌then◌else◌,
}
use easy_rpc_go.Base.Int.{ℤ, is_positive}
use easy_rpc_go.Text.{Bytes, codes, is_empty}
use easy_rpc_go.Code.{Error}
use easy_rpc_go.Headers.{Headers}
use easy_rpc_go.Message.{Request, Response}
use easy_rpc_go.Timeout.{with_timeout}
use easy_rpc_go.Client.Interceptors.{
  Transport, Interceptor, with_interceptors, metadata_interceptor, base_url_transport,
}

-- `context.WithTimeout`, and `cancelOnClose` around a stream that was opened with its context.
pub record Deadlines (C Stream : Type 0) : Type 0 where
  pub within : C → ℤ → C
  pub cancel_on_close : C → Stream → Stream

-- `Mode`, which `Connect` turns into a realm; the empty mode is `auto`, and any other is `std`.
pub data Mode : Type 0 where
  auto std : Mode

abbrev pub Net : Type 0 → Type 0 → Type 0
Net C Stream = Transport C (Result Error Response) (Result Error Stream)

abbrev pub Wrapper : Type 0 → Type 0 → Type 0
Wrapper C Stream = Interceptor C (Result Error Response) (Result Error Stream)

pub record ConnectOptions (C Stream : Type 0) : Type 0 where
  pub base_url : Bytes
  pub token : Bytes
  pub mode : Mode
  pub timeout : ℤ
  pub interceptors : List (Wrapper C Stream)
  pub adapter : Option (Net C Stream)

-- `autoFactoryFn`: none where no submodule has registered one, else what its two calls return, in
-- their order; it may return nil.
abbrev pub Factory : Type 0 → Type 0 → Type 0
Factory C Stream = Option (Option (Net C Stream) × Option (Net C Stream))

-- The first call's result is tested alone, and the second's is returned.
unfoldable pub new_transport :
    {C Stream : Type 0} → Factory C Stream → Net C Stream → Mode → Net C Stream
new_transport factory net std = net
new_transport none net auto = net
new_transport (some (none, later)) net auto = net
new_transport (some (some tested, none)) net auto = net
new_transport (some (some tested, some at)) net auto = at

module _ {C Stream : Type 0} (deadlines : Deadlines C Stream) where
  abbrev pub closing : C → Result Error Stream → Result Error Stream
  closing c (ok st) = ok (deadlines.cancel_on_close c st)
  closing c (err e) = err e

  unfoldable pub deadline_interceptor : ℤ → Wrapper C Stream
  deadline_interceptor d = record {
    unary = some (λ ctx req next.
        if is_positive d then next (deadlines.within ctx d) (with_timeout req d) else next ctx req);
    stream = some (λ ctx req next.
        if is_positive d
        then closing (deadlines.within ctx d) (next (deadlines.within ctx d) (with_timeout req d))
        else next ctx req);
  }

  abbrev pub bearer : Bytes → Headers
  bearer token = (codes "Authorization", (codes "Bearer " ++ token) ∷ []) ∷ []

  -- The built-in interceptors of the options, and the user's.
  unfoldable pub standard_interceptors : ConnectOptions C Stream → List (Wrapper C Stream)
  standard_interceptors opts =
      (if is_empty opts.token then [] else metadata_interceptor (bearer opts.token) ∷ [])
      ++ ((if is_positive opts.timeout then deadline_interceptor opts.timeout ∷ [] else [])
          ++ opts.interceptors)

  abbrev pub around : List (Wrapper C Stream) → Net C Stream → Net C Stream
  around [] inner = inner
  around (ic ∷ ics) inner = with_interceptors inner (ic ∷ ics)

  unfoldable pub with_standard_interceptors : ConnectOptions C Stream → Net C Stream → Net C Stream
  with_standard_interceptors opts inner = around (standard_interceptors opts) inner

  abbrev pub prefixed : Bytes → Net C Stream → Net C Stream
  prefixed base inner = if is_empty base then inner else base_url_transport base inner

  -- The transport inside: the adapter if there is one, else that of the mode with the base URL.
  abbrev pub inside :
      Option (Net C Stream)
      → Factory C Stream
      → Net C Stream
      → ConnectOptions C Stream
      → Net C Stream
  inside (some adapter) factory net opts = adapter
  inside none factory net opts = prefixed opts.base_url (new_transport factory net opts.mode)

  unfoldable pub connect : Factory C Stream → Net C Stream → ConnectOptions C Stream → Net C Stream
  unfolding with_standard_interceptors
  connect factory net opts = with_standard_interceptors opts (inside opts.adapter factory net opts)
