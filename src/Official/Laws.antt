-- ===== src/Official/Laws.antt =====
-- The headers and trailers that a request asks the official conformance server for.
use easy_rpc_go.Base.{
  ◌≡◌, refl, sym, ap, ◌∙◌, Bool, true, false, List, [], ◌∷◌, ◌++◌, append-nil, append_assoc,
  if◌then◌else◌, Bool-cases, inl, inr,
}
use easy_rpc_go.Text.{Bytes, eq_text}
use easy_rpc_go.Text.Laws.{eq_text_iff}
use easy_rpc_go.Headers.{Headers, values, add_value}
use easy_rpc_go.Headers.Laws.{values-add_value}
use easy_rpc_go.HandlerContext
use easy_rpc_go.HandlerContext.{HandlerContext}
use easy_rpc_go.Stubs.Official.Messages.{Header}
use easy_rpc_go.Official.{apply_values, apply_all, apply_headers}

-- The values that a list of headers has under a name.
abbrev pub listed : Bytes → List Header → List Bytes
listed k [] = []
listed k (h ∷ list) = if eq_text h.name k then h.value ++ listed k list else listed k list

-- The listed headers, recorded one value after the other.
abbrev add_values : Bytes → List Bytes → Headers → Headers
add_values name [] m = m
add_values name (v ∷ vs) m = add_values name vs (add_value name v m)

abbrev add_all : List Header → Headers → Headers
add_all [] m = m
add_all (h ∷ list) m = add_all list (add_values h.name h.value m)

values-add_values :
    (name k : Bytes) (vs : List Bytes) (m : Headers)
    → values k (add_values name vs m) ≡ (if eq_text name k then values k m ++ vs else values k m)
values-add_values name k [] m = elim (Bool-cases (eq_text name k)) [
  | inl e ↦ rw e (sym (append-nil _))
  | inr e ↦ rw e refl
]
values-add_values name k (v ∷ vs) m =
    values-add_values name k vs (add_value name v m)
    ∙ rw (values-add_value name k v m) (step (eq_text name k) refl)
  where
    step :
        (b : Bool)
        → eq_text name k ≡ b
        → (if b
            then (if b then values name m ++ v ∷ [] else values k m) ++ vs
            else (if b then values name m ++ v ∷ [] else values k m))
          ≡ (if b then values k m ++ v ∷ vs else values k m)
    step true e =
        ap (λ n. (values n m ++ v ∷ []) ++ vs) ((eq_text_iff name k).0 e)
        ∙ append_assoc (values k m) (v ∷ []) vs
    step false e = refl

values-add_all :
    (k : Bytes) (list : List Header) (m : Headers)
    → values k (add_all list m) ≡ values k m ++ listed k list
values-add_all k [] m = sym (append-nil _)
values-add_all k (h ∷ list) m =
    values-add_all k list (add_values h.name h.value m)
    ∙ rw (values-add_values h.name k h.value m) (step (eq_text h.name k))
  where
    step :
        (b : Bool)
        → (if b then values k m ++ h.value else values k m) ++ listed k list
          ≡ values k m ++ (if b then h.value ++ listed k list else listed k list)
    step true = append_assoc (values k m) h.value (listed k list)
    step false = refl

headers_values :
    (name : Bytes) (vs : List Bytes) (hc : HandlerContext)
    → apply_values HandlerContext.set_header name vs hc
      ≡ record hc { header = add_values name vs hc.header }
unfolding HandlerContext.set_header
headers_values name [] hc = refl
headers_values name (v ∷ vs) hc = headers_values name vs (HandlerContext.set_header name v hc)

headers_all :
    (list : List Header) (hc : HandlerContext)
    → apply_all HandlerContext.set_header list hc ≡ record hc { header = add_all list hc.header }
headers_all [] hc = refl
headers_all (h ∷ list) hc =
    headers_all list (apply_values HandlerContext.set_header h.name h.value hc)
    ∙ ap (λ (c : HandlerContext). record c { header = add_all list c.header })
        (headers_values h.name h.value hc)

trailers_values :
    (name : Bytes) (vs : List Bytes) (hc : HandlerContext)
    → apply_values HandlerContext.set_trailer name vs hc
      ≡ record hc { trailer = add_values name vs hc.trailer }
unfolding HandlerContext.set_trailer
trailers_values name [] hc = refl
trailers_values name (v ∷ vs) hc = trailers_values name vs (HandlerContext.set_trailer name v hc)

trailers_all :
    (list : List Header) (hc : HandlerContext)
    → apply_all HandlerContext.set_trailer list hc ≡ record hc { trailer = add_all list hc.trailer }
trailers_all [] hc = refl
trailers_all (h ∷ list) hc =
    trailers_all list (apply_values HandlerContext.set_trailer h.name h.value hc)
    ∙ ap (λ (c : HandlerContext). record c { trailer = add_all list c.trailer })
        (trailers_values h.name h.value hc)

-- The context after the calls that a definition asks for.
abbrev pub prepared : List Header → List Header → HandlerContext → HandlerContext
prepared headers trailers hc = apply_headers trailers true (apply_headers headers false hc)

-- Under every key, the headers of a handler's context hold behind the old values those that the
-- definition's headers list under that key, in order, and the trailers those that its trailers
-- list; neither list touches the other map.
pub values-prepared :
    (k : Bytes) (headers trailers : List Header) (hc : HandlerContext)
    → (values k (prepared headers trailers hc).header ≡ values k hc.header ++ listed k headers)
      × (values k (prepared headers trailers hc).trailer ≡ values k hc.trailer ++ listed k trailers)
unfolding apply_headers
values-prepared k headers trailers hc =
    rw
      (
        headers_all headers hc,
        trailers_all trailers (record hc { header = add_all headers hc.header }),
      )
      (values-add_all k headers hc.header, values-add_all k trailers hc.trailer)
