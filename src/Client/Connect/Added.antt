-- ===== src/Client/Connect/Added.antt =====
-- What the options of `Connect` add to a request.
use easy_rpc_go.Base.{
  ◌/◌, ◌≡◌, ◌≢◌, refl, ap, ◌∙◌, arith, false, List, [], ◌∷◌, ◌++◌, Option, none, some, Bool-cases,
  inl, inr, if◌then◌else◌,
}
use easy_rpc_go.Base.Int.{ℤ, pos, negsuc, is_positive}
use easy_rpc_go.Text.{Bytes, codes, eq_text}
use easy_rpc_go.Text.Laws.{eq_text_iff}
use easy_rpc_go.Text.Decimal.{itoa}
use easy_rpc_go.Headers.{lookup, set}
use easy_rpc_go.Headers.Laws.{lookup-assign, lookup-augment, or_else}
use easy_rpc_go.Message.{Request}
use easy_rpc_go.Timeout.{header_timeout, millisecond, with_timeout}
use easy_rpc_go.Client.Interceptors.{augmented}

abbrev pub authorization : Bytes
authorization = codes "Authorization"

-- The value that a token stands for, if there is one.
abbrev pub credentials : Bytes → Option (List Bytes)
credentials [] = none
credentials (c ∷ token) = some ((codes "Bearer " ++ c ∷ token) ∷ [])

-- The timeout in milliseconds, if there is one.
abbrev pub milliseconds : ℤ → Option (List Bytes)
milliseconds (pos d) =
    if is_positive (pos d) then some (itoa (pos (d / millisecond)) ∷ []) else none
milliseconds (negsuc d) = none

-- The request with what the options add: the token where the request has no Authorization of its
-- own, the timeout in place of one that the request has, and nothing else.
pub record Carries (token : Bytes) (timeout : ℤ) (req r : Request) : Type 0 where
  pub url : r.url ≡ req.url
  pub body : r.body ≡ req.body
  pub token_sent :
      lookup authorization r.headers
      ≡ or_else (lookup authorization req.headers) (credentials token)
  pub timeout_sent :
      lookup header_timeout r.headers
      ≡ or_else (milliseconds timeout) (lookup header_timeout req.headers)
  pub others :
      (k : Bytes)
      → k ≢ authorization
      → k ≢ header_timeout
      → lookup k r.headers ≡ lookup k req.headers

abbrev pub authorized : Bytes → Request → Request
authorized [] req = req
authorized (c ∷ token) req =
    augmented ((codes "Authorization", (codes "Bearer " ++ c ∷ token) ∷ []) ∷ []) req

authorized-lookup :
    (k token : Bytes) (req : Request)
    → lookup k (authorized token req).headers
      ≡ or_else (lookup k req.headers) (if eq_text authorization k then credentials token else none)
unfolding augmented lookup
authorized-lookup k [] req = ground arith
authorized-lookup k (c ∷ token) req =
    lookup-augment k ((authorization, (codes "Bearer " ++ c ∷ token) ∷ []) ∷ []) req.headers
      (tt, tt)

with_timeout-lookup :
    (k : Bytes) (timeout : ℤ) (req : Request)
    → lookup k (with_timeout req timeout).headers ≡ (
        if eq_text header_timeout k
        then or_else (milliseconds timeout) (lookup k req.headers)
        else lookup k req.headers)
unfolding with_timeout set
with_timeout-lookup k (pos d) req = elim (Bool-cases (is_positive (pos d))) [
  | inl positive ↦
      rw positive (lookup-assign header_timeout k (itoa (pos (d / millisecond)) ∷ []) req.headers)
  | inr not_positive ↦ rw not_positive (ground arith)
]
with_timeout-lookup k (negsuc d) req = ground arith

differ : (a k : Bytes) → k ≢ a → eq_text a k ≡ false
differ a k ne = ground (arith, eq_text_iff a k)

with_timeout-url :
    (timeout : ℤ) (req : Request)
    → ((with_timeout req timeout).url ≡ req.url) × ((with_timeout req timeout).body ≡ req.body)
unfolding with_timeout
with_timeout-url (pos d) req = elim (Bool-cases (is_positive (pos d))) [
  | inl positive ↦ rw positive (refl, refl)
  | inr not_positive ↦ rw not_positive (refl, refl)
]
with_timeout-url (negsuc d) req = (refl, refl)

authorized-url :
    (token : Bytes) (req : Request)
    → ((authorized token req).url ≡ req.url) × ((authorized token req).body ≡ req.body)
unfolding augmented
authorized-url [] req = (refl, refl)
authorized-url (c ∷ token) req = (refl, refl)

pub sent-Carries :
    (token : Bytes) (timeout : ℤ) (req : Request)
    → Carries token timeout req (with_timeout (authorized token req) timeout)
unfolding eq_text
sent-Carries token timeout req =
    let with_token = authorized token req in
    let (url_t, body_t) = with_timeout-url timeout with_token in
    let (url_a, body_a) = authorized-url token req in
    record {
      url = url_t ∙ url_a;
      body = body_t ∙ body_a;
      token_sent =
          with_timeout-lookup authorization timeout with_token
          ∙ authorized-lookup authorization token req;
      timeout_sent =
          with_timeout-lookup header_timeout timeout with_token
          ∙ ap (λ o. or_else (milliseconds timeout) o)
              (authorized-lookup header_timeout token req ∙ ground arith);
      others = λ k not_a not_t.
          with_timeout-lookup k timeout with_token
          ∙ rw (differ header_timeout k not_t)
              (authorized-lookup k token req ∙ rw (differ authorization k not_a) (ground arith));
    }
