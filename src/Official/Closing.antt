-- ===== src/Official/Closing.antt =====
-- The echo of a request and the error at the end of a stream of the official conformance server,
-- said of their fields.
use easy_rpc_go.Base.{
  ◌≡◌, ◌≢◌, refl, sym, ap, ◌⊎◌, inl, inr, arith, Bool-cases, ◌==◌, ==_iff, List, [], ◌∷◌, ◌++◌, map,
  Option, none, some, All, if◌then◌else◌, is_empty as is_empty_list,
}
use mathlib.Core.Path.{subst}
use mathlib.Core.Option
use easy_rpc_go.Base.Int.{ℤ}
use easy_rpc_go.Text.{Bytes, codes}
use easy_rpc_go.Code.{Error, rpc, ErrorDetail}
use easy_rpc_go.Headers.{Entry, Headers, get}
use easy_rpc_go.Timeout.{header_timeout}
use easy_rpc_go.Server.Calls.{Context, headers_from_context}
use easy_rpc_go.Stubs.Official.Messages.{Any, ErrorMessage, RequestInfo}
use easy_rpc_go.Official.{
  Runtime, request_info, to_rpc_error, info_details, to_detail, behind_slash, type_name, or_nothing,
  in_milliseconds, timeout_in,
}

-- What the header for the timeout asks for: nothing, or a duration that may not be one.
abbrev Asks : Runtime → Bytes → Option ℤ → Type 0
Asks rt t asked =
    ((t ≡ []) × (asked ≡ none))
    ⊎ ((t ≢ []) × (asked ≡ Option.map in_milliseconds (rt.parse_duration (t ++ codes "ms"))))

-- The echo of a call with one request.
pub record IsEcho (rt : Runtime) (ctx : Context) (request : Any) (info : RequestInfo) : Type 0 where
  pub headers :
      info.request_headers ≡ map (λ (e : Entry). record { name = e.0; value = e.1 }) ctx.headers
  pub timeout : Asks rt (get header_timeout ctx.headers) info.timeout_ms
  pub requests : info.requests ≡ request ∷ []
  pub no_query : info.connect_get_info ≡ none

-- What stands behind the last slash, or all.
abbrev IsLast : Bytes → Bytes → Type 0
IsLast s last =
    All (λ c. c ≢ b'/') last × ((s ≡ last) ⊎ ((front : Bytes) × (s ≡ front ++ b'/' ∷ last)))

abbrev AreDetails : List Any → List ErrorDetail → Type 0
AreDetails [] [] = Unit
AreDetails [] (d ∷ ds) = ⊥
AreDetails (a ∷ anys) [] = ⊥
AreDetails (a ∷ anys) (d ∷ ds) = IsLast a.type_url d.kind × (d.value ≡ a.value) × AreDetails anys ds

-- The echo as a detail, if no datum carried it.
abbrev echo_detail : Runtime → RequestInfo → List Bytes → List ErrorDetail
echo_detail rt info (d ∷ ds) = []
echo_detail rt info [] =
    record {
      kind = codes "connectrpc.conformance.v1.ConformancePayload.RequestInfo";
      value = rt.marshal_info info;
    }
    ∷ []

-- The error at the end of a stream that sent the data.
abbrev pub IsClosing :
    Runtime → RequestInfo → List Bytes → Option ErrorMessage → Option Error → Type 0
IsClosing rt info data_sent none e = e ≡ none
IsClosing rt info data_sent (some m) e =
    (details : List ErrorDetail) × AreDetails m.details details
    × (e
        ≡ some (
            rpc (record {
              code = m.code;
              message = or_nothing m.message;
              details = details ++ echo_detail rt info data_sent;
            })))

-- The error at the end carries the echo of the request only if no message did.
abbrev pub closing_error : Runtime → RequestInfo → List Bytes → Option ErrorMessage → Option Error
closing_error rt info data_sent none = none
closing_error rt info [] (some e) = some (rpc (to_rpc_error rt e (some info)))
closing_error rt info (d ∷ ds) (some e) = some (rpc (to_rpc_error rt e none))

behind :
    (last s : Bytes)
    → (All (λ c. c ≢ b'/') s × (behind_slash last s ≡ last))
      ⊎ ((front : Bytes) × (s ≡ front ++ b'/' ∷ behind_slash last s)
          × All (λ c. c ≢ b'/') (behind_slash last s))
unfolding behind_slash
behind last [] = inl (tt, refl)
behind last (c ∷ s) = elim (Bool-cases (c == b'/')) [
  | inl slash ↦ rw slash (elim (behind s s) [
    | inl (clean, e) ↦
        inr ([], cc (e, (==_iff c b'/').0 slash), subst (All (λ d. d ≢ b'/')) (sym e) clean)
    | inr (front, e, clean) ↦ inr (c ∷ front, ap (λ r. c ∷ r) e, clean)
  ])
  | inr other ↦ rw other (elim (behind last s) [
    | inl (clean, e) ↦ inl (((λ same. grind (arith, other, same)), clean), e)
    | inr (front, e, clean) ↦ inr (c ∷ front, ap (λ r. c ∷ r) e, clean)
  ])
]

type_name-IsLast : (url : Bytes) → IsLast url (type_name url)
unfolding type_name
type_name-IsLast url = elim (behind url url) [
  | inl (clean, e) ↦ (subst (All (λ c. c ≢ b'/')) (sym e) clean, inl (sym e))
  | inr (front, e, clean) ↦ (clean, inr (front, e))
]

to_detail-AreDetails : (anys : List Any) → AreDetails anys (map to_detail anys)
to_detail-AreDetails [] = tt
to_detail-AreDetails (a ∷ anys) = (type_name-IsLast a.type_url, refl, to_detail-AreDetails anys)

pub closing_error-IsClosing :
    (rt : Runtime) (info : RequestInfo) (data_sent : List Bytes) (e : Option ErrorMessage)
    → IsClosing rt info data_sent e (closing_error rt info data_sent e)
unfolding to_rpc_error info_details
closing_error-IsClosing rt info data_sent none = refl
closing_error-IsClosing rt info [] (some e) =
    (map to_detail e.details, to_detail-AreDetails e.details, refl)
closing_error-IsClosing rt info (d ∷ ds) (some e) =
    (map to_detail e.details, to_detail-AreDetails e.details, refl)

no_headers : (h : Headers) → (if is_empty_list h then [] else h) ≡ h
no_headers [] = refl
no_headers (e ∷ h) = refl

timeout_in-Asks : (rt : Runtime) (t : Bytes) → Asks rt t (timeout_in rt t)
timeout_in-Asks rt [] = inl (refl, refl)
timeout_in-Asks rt (c ∷ t) = inr ((λ e. cc e), refl)

pub info-IsEcho :
    (rt : Runtime) (ctx : Context) (request : Any)
    → IsEcho rt ctx request (request_info rt ctx request [] [])
unfolding request_info headers_from_context
info-IsEcho rt ctx request = record {
  headers = ap (map (λ (e : Entry). record { name = e.0; value = e.1 })) (no_headers ctx.headers);
  timeout =
      subst (λ h. Asks rt (get header_timeout ctx.headers) (timeout_in rt (get header_timeout h)))
        (sym (no_headers ctx.headers)) (timeout_in-Asks rt (get header_timeout ctx.headers));
  requests = refl;
  no_query = refl;
}
