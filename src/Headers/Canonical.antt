-- ===== src/Headers/Canonical.antt =====
-- Headers whose values net/http adds one by one under the canonical form of their names.
use mathlib.Core.Path.{subst}
use easy_rpc_go.Base.{
  ◌≡◌, ◌≢◌, refl, sym, ap, ◌∙◌, List, [], ◌∷◌, ◌++◌, map, All, append_assoc, append-nil, arith,
  some,
}
use easy_rpc_go.Base.Distinct.{Distinct, Distinct-middle, Distinct-map}
use easy_rpc_go.Text.{Bytes, canonical_header_key}
use easy_rpc_go.Text.Laws.{to_lower-canonical, eq_text_iff, eq_text_refl}
use easy_rpc_go.Headers.{Entry, Headers, name, lookup, values, assign, add_value, append_into}
use easy_rpc_go.Headers.Laws.{Fresh, lookup-Fresh, assign-Fresh}
use easy_rpc_go.Headers.Lookup.{lower_name, CaseDistinct}
use easy_rpc_go.Headers.Trailers.{recased, CaseDistinct-Distinct, recase_apart}
use easy_rpc_go.Headers.Hop.{append_into_fresh}

-- The loop over the values of one name, and that over the names.
abbrev pub canonical_values : Bytes → List Bytes → Headers → Headers
canonical_values k [] h = h
canonical_values k (v ∷ vs) h = canonical_values k vs (add_value (canonical_header_key k) v h)

abbrev pub canonical_all : Headers → Headers → Headers
canonical_all [] h = h
canonical_all ((k, vs) ∷ own) h = canonical_all own (canonical_values k vs h)

lookup_last :
    (k : Bytes) (ws : List Bytes) (h : Headers) → Fresh k h → lookup k (h ++ (k, ws) ∷ []) ≡ some ws
unfolding lookup
lookup_last k ws [] f = rw (eq_text_refl k) refl
lookup_last k ws ((j, us) ∷ h) (ne, f) = ground (arith, eq_text_iff j k, lookup_last k ws h f)

assign_last :
    (k : Bytes) (vs ws : List Bytes) (h : Headers)
    → Fresh k h
    → assign k vs (h ++ (k, ws) ∷ []) ≡ h ++ (k, vs) ∷ []
unfolding assign
assign_last k vs ws [] f = rw (eq_text_refl k) refl
assign_last k vs ws ((j, us) ∷ h) (ne, f) = ground (arith, eq_text_iff j k, assign_last k vs ws h f)

add_last :
    (k v : Bytes) (ws : List Bytes) (h : Headers)
    → Fresh k h
    → add_value k v (h ++ (k, ws) ∷ []) ≡ h ++ (k, ws ++ v ∷ []) ∷ []
unfolding add_value values
add_last k v ws h f = rw (lookup_last k ws h f) (assign_last k (ws ++ v ∷ []) ws h f)

add_first : (k v : Bytes) (h : Headers) → Fresh k h → add_value k v h ≡ h ++ (k, v ∷ []) ∷ []
unfolding add_value values
add_first k v h f = rw (lookup-Fresh k h f) (assign-Fresh k (v ∷ []) h f)

values_last :
    (k : Bytes) (ws vs : List Bytes) (h : Headers)
    → Fresh (canonical_header_key k) h
    → canonical_values k vs (h ++ (canonical_header_key k, ws) ∷ [])
      ≡ h ++ (canonical_header_key k, ws ++ vs) ∷ []
values_last k ws [] h f = rw (append-nil ws) refl
values_last k ws (v ∷ vs) h f =
    ap (canonical_values k vs) (add_last (canonical_header_key k) v ws h f)
    ∙ values_last k (ws ++ v ∷ []) vs h f
    ∙ ap (λ us. h ++ (canonical_header_key k, us) ∷ []) (append_assoc ws (v ∷ []) vs)

values_first :
    (k : Bytes) (vs : List Bytes) (h : Headers)
    → vs ≢ []
    → Fresh (canonical_header_key k) h
    → canonical_values k vs h ≡ h ++ (canonical_header_key k, vs) ∷ []
values_first k [] h full f = absurd (full refl)
values_first k (v ∷ vs) h full f =
    ap (canonical_values k vs) (add_first (canonical_header_key k) v h f)
    ∙ values_last k (v ∷ []) vs h f

all_behind :
    (own h : Headers)
    → All (λ (e : Entry). e.1 ≢ []) own
    → Distinct name (h ++ map (recased canonical_header_key) own)
    → canonical_all own h ≡ h ++ map (recased canonical_header_key) own
all_behind [] h a d = sym (append-nil h)
all_behind ((k, vs) ∷ own) h (full, a) d =
    let rest = map (recased canonical_header_key) own in
    ap (canonical_all own)
      (values_first k vs h full (Distinct-middle name h (canonical_header_key k, vs) rest d))
    ∙ all_behind own (h ++ (canonical_header_key k, vs) ∷ []) a
        (subst (Distinct name) (sym (append_assoc h ((canonical_header_key k, vs) ∷ []) rest)) d)
    ∙ append_assoc h ((canonical_header_key k, vs) ∷ []) rest

-- A map whose names differ in more than case, and none of whose entries is empty, is sent with its
-- names in canonical form and otherwise as it is.
pub canonical_all-recased :
    (h : Headers)
    → CaseDistinct h
    → All (λ (e : Entry). e.1 ≢ []) h
    → canonical_all (append_into [] h) [] ≡ map (recased canonical_header_key) h
canonical_all-recased h d a =
    ap (λ own. canonical_all own []) (append_into_fresh [] h (CaseDistinct-Distinct h d))
    ∙ all_behind h [] a (
        Distinct-map lower_name name (recased canonical_header_key)
          (recase_apart canonical_header_key to_lower-canonical) h d)
