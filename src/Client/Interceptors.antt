-- ===== src/Client/Interceptors.antt =====
-- Transports and what wraps them (protocol.go: Transport, MetadataTransport, Interceptor,
-- InterceptorTransport, MetadataInterceptor, TimeoutInterceptor; connect.go: baseURLTransport). A
-- call may do anything, so that its results are any two types, of unary calls and of streams; so is
-- `context.Context`.
pub mod Laws
use easy_rpc_go.Base.{
  ℕ, ◌≡◌, refl, ap, ◌∙◌, Bool, true, false, ◌||◌, List, [], ◌∷◌, ◌++◌, Option, none, some,
  if◌then◌else◌,
}
use easy_rpc_go.Base.Int.{ℤ}
use easy_rpc_go.Text.{Bytes, codes, has_prefix}
use easy_rpc_go.Headers.{Headers, augment}
use easy_rpc_go.Message.{Request}
use easy_rpc_go.Timeout.{with_timeout}

pub record Transport (C R S : Type 0) : Type 0 where
  pub send : C → Request → R
  pub open_stream : C → Request → S

-- `Interceptor`: each half may be nil.
pub record Interceptor (C R S : Type 0) : Type 0 where
  pub unary : Option (C → Request → (C → Request → R) → R)
  pub stream : Option (C → Request → (C → Request → S) → S)

-- The method `augment`, and the closure `aug` of MetadataInterceptor.
unfoldable pub augmented : Headers → Request → Request
augmented md req = record req { headers = augment md req.headers }

-- `b.prepend`.
unfoldable pub prepend : Bytes → Bytes → Bytes
prepend base u =
    if has_prefix u (codes "http://") || has_prefix u (codes "https://") then u else base ++ u

-- One half of an interceptor around a call; a nil half is left out.
abbrev pub intercept :
    {C R : Type 0}
    → Option (C → Request → (C → Request → R) → R)
    → (C → Request → R)
    → C
    → Request
    → R
intercept none next ctx req = next ctx req
intercept (some call) next ctx req = call ctx req next

module _ {C R S : Type 0} where
  -- `InterceptorTransport.send` from an index on: the interceptors from there.
  unfoldable pub send_through : List (Interceptor C R S) → (C → Request → R) → C → Request → R
  send_through [] rt ctx req = rt ctx req
  send_through (ic ∷ ics) rt ctx req = intercept ic.unary (send_through ics rt) ctx req

  -- `InterceptorTransport.stream`.
  unfoldable pub stream_through : List (Interceptor C R S) → (C → Request → S) → C → Request → S
  stream_through [] rt ctx req = rt ctx req
  stream_through (ic ∷ ics) rt ctx req = intercept ic.stream (stream_through ics rt) ctx req

  unfoldable pub with_interceptors : Transport C R S → List (Interceptor C R S) → Transport C R S
  unfolding send_through stream_through
  with_interceptors rt ics = record {
    send = send_through ics rt.send;
    open_stream = stream_through ics rt.open_stream;
  }

  -- An interceptor that changes the request alone.
  abbrev pub rewriting : (Request → Request) → Interceptor C R S
  rewriting aug = record {
    unary = some (λ ctx req next. next ctx (aug req));
    stream = some (λ ctx req next. next ctx (aug req));
  }

  unfoldable pub metadata_interceptor : Headers → Interceptor C R S
  unfolding augmented
  metadata_interceptor md = rewriting (augmented md)

  unfoldable pub timeout_interceptor : ℤ → Interceptor C R S
  timeout_interceptor d = rewriting (λ req. with_timeout req d)

  -- `WithMetadata`.
  unfoldable pub metadata_transport : Headers → Transport C R S → Transport C R S
  unfolding augmented
  metadata_transport md rt = record {
    send = λ ctx req. rt.send ctx (augmented md req);
    open_stream = λ ctx req. rt.open_stream ctx (augmented md req);
  }

  unfoldable pub base_url_transport : Bytes → Transport C R S → Transport C R S
  unfolding prepend
  base_url_transport base rt = record {
    send = λ ctx req. rt.send ctx (record req { url = prepend base req.url });
    open_stream = λ ctx req. rt.open_stream ctx (record req { url = prepend base req.url });
  }
