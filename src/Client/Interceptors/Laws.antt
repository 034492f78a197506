-- ===== src/Client/Interceptors/Laws.antt =====
-- How interceptors compose.
use easy_rpc_go.Base.{◌≡◌, refl, ap, List, [], ◌∷◌, map, Option, none, some}
use easy_rpc_go.Headers.{Headers}
use easy_rpc_go.Message.{Request}
use easy_rpc_go.Client.Interceptors.{
  Transport, Interceptor, send_through, stream_through, with_interceptors, metadata_interceptor,
  metadata_transport,
}

-- What a half of an interceptor does to a call that it passes on: to the request on its way in, and
-- to the result on its way out.
pub record Half (A : Type 0) : Type 0 where
  pub before : Request → Request
  pub after : A → A

-- The half as code.
abbrev pub half : {C A : Type 0} → Option (Half A) → Option (C → Request → (C → Request → A) → A)
half none = none
half (some b) = some (λ ctx req next. b.after (next ctx (b.before req)))

-- The request behind all halves: the first changes it first, and a nil half does nothing.
abbrev pub request_behind : {A : Type 0} → List (Option (Half A)) → Request → Request
request_behind [] req = req
request_behind (none ∷ halves) req = request_behind halves req
request_behind (some b ∷ halves) req = request_behind halves (b.before req)

-- The result in front of all halves: the first changes it last.
abbrev pub result_before : {A : Type 0} → List (Option (Half A)) → A → A
result_before [] a = a
result_before (none ∷ halves) a = result_before halves a
result_before (some b ∷ halves) a = b.after (result_before halves a)

module _ {C R S : Type 0} where
  abbrev pub layer : Option (Half R) × Option (Half S) → Interceptor C R S
  layer l = record { unary = half l.0; stream = half l.1 }

  pub send_through-layers :
      (layers : List (Option (Half R) × Option (Half S))) (rt : C → Request → R) (ctx : C)
      (req : Request)
      → send_through (map layer layers) rt ctx req
        ≡ result_before
            (map (λ l. l.0) layers)
            (rt ctx (request_behind (map (λ l. l.0) layers) req))
  unfolding send_through
  send_through-layers [] rt ctx req = refl
  send_through-layers ((none, other) ∷ layers) rt ctx req = send_through-layers layers rt ctx req
  send_through-layers ((some b, other) ∷ layers) rt ctx req =
      ap b.after (send_through-layers layers rt ctx (b.before req))

  pub stream_through-layers :
      (layers : List (Option (Half R) × Option (Half S))) (rt : C → Request → S) (ctx : C)
      (req : Request)
      → stream_through (map layer layers) rt ctx req
        ≡ result_before
            (map (λ l. l.1) layers)
            (rt ctx (request_behind (map (λ l. l.1) layers) req))
  unfolding stream_through
  stream_through-layers [] rt ctx req = refl
  stream_through-layers ((other, none) ∷ layers) rt ctx req =
      stream_through-layers layers rt ctx req
  stream_through-layers ((other, some b) ∷ layers) rt ctx req =
      ap b.after (stream_through-layers layers rt ctx (b.before req))

  -- Behind interceptors that change requests and results, the transport gets the request that the
  -- first changed first, and the caller the result that the first changed last. Each half that is
  -- not nil takes part once, of unary calls and of streams.
  pub with_interceptors-layers :
      (rt : Transport C R S) (layers : List (Option (Half R) × Option (Half S))) (ctx : C)
      (req : Request)
      → ((with_interceptors rt (map layer layers)).send ctx req
          ≡ result_before
              (map (λ l. l.0) layers)
              (rt.send ctx (request_behind (map (λ l. l.0) layers) req)))
        × ((with_interceptors rt (map layer layers)).open_stream ctx req
            ≡ result_before
                (map (λ l. l.1) layers)
                (rt.open_stream ctx (request_behind (map (λ l. l.1) layers) req)))
  unfolding with_interceptors
  with_interceptors-layers rt layers ctx req = (
    send_through-layers layers rt.send ctx req,
    stream_through-layers layers rt.open_stream ctx req,
  )

  -- The interceptor for metadata does what the transport for metadata does.
  pub with_interceptors-metadata_interceptor :
      (rt : Transport C R S) (md : Headers)
      → with_interceptors rt (metadata_interceptor md ∷ []) ≡ metadata_transport md rt
  unfolding with_interceptors metadata_interceptor metadata_transport send_through stream_through
  with_interceptors-metadata_interceptor rt md = refl
