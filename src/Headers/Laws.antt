-- ===== src/Headers/Laws.antt =====
-- Header maps as maps: writes, copies, merges and metadata, key by key.
use easy_rpc_go.Base.{
  ◌≡◌, ◌≢◌, refl, sym, ap, ◌∙◌, arith, List, [], ◌∷◌, ◌++◌, Option, none, some, Option-cases,
  Bool-cases, inl, inr, if◌then◌else◌, All, append-nil, append_assoc,
}
use mathlib.Core.Path.{subst}
use easy_rpc_go.Base.Distinct.{Distinct, Distinct-middle}
use easy_rpc_go.Text.{Bytes, eq_text}
use easy_rpc_go.Text.Laws.{eq_text_iff, eq_text_refl}
use easy_rpc_go.Headers.{
  Headers, name, lookup, values, assign, copy_into, append_into, merge_headers, add_value, augment,
}

pub lookup-assign :
    (k j : Bytes) (vs : List Bytes) (h : Headers)
    → lookup j (assign k vs h) ≡ (if eq_text k j then some vs else lookup j h)
unfolding lookup assign
lookup-assign k j vs [] = refl
lookup-assign k j vs ((i, ws) ∷ h) =
    ground (arith, eq_text_iff k j, eq_text_iff i k, eq_text_iff i j, lookup-assign k j vs h)

pub values-assign :
    (k j : Bytes) (vs : List Bytes) (h : Headers)
    → values j (assign k vs h) ≡ (if eq_text k j then vs else values j h)
unfolding values
values-assign k j vs h = rw (lookup-assign k j vs h) (ground arith)

-- A key that no entry has.
abbrev pub Fresh : Bytes → Headers → Type 0
Fresh k h = All (λ e. k ≢ name e) h

pub lookup-Fresh : (k : Bytes) (h : Headers) → Fresh k h → lookup k h ≡ none
unfolding lookup
lookup-Fresh k [] f = refl
lookup-Fresh k ((j, vs) ∷ h) (ne, f) = ground (arith, eq_text_iff j k, lookup-Fresh k h f)

pub assign-Fresh :
    (k : Bytes) (vs : List Bytes) (h : Headers) → Fresh k h → assign k vs h ≡ h ++ (k, vs) ∷ []
unfolding assign
assign-Fresh k vs [] f = refl
assign-Fresh k vs ((j, ws) ∷ h) (ne, f) = ground (arith, eq_text_iff j k, assign-Fresh k vs h f)

-- `o`, or `later` where there is no entry.
abbrev pub or_else : Option (List Bytes) → Option (List Bytes) → Option (List Bytes)
or_else none later = later
or_else (some vs) later = some vs

pub lookup-copy_into :
    (k : Bytes) (out from : Headers)
    → Distinct name from
    → lookup k (copy_into out from) ≡ or_else (lookup k from) (lookup k out)
unfolding copy_into lookup
lookup-copy_into k out [] d = refl
lookup-copy_into k out ((j, vs) ∷ from) (f, d) = ground (
  arith,
  lookup-copy_into k (assign j vs out) from d,
  lookup-assign j k vs out,
  eq_text_iff j k,
  lookup-Fresh j from f,
)

append_once :
    (j : Bytes) (vs : List Bytes) (out from : Headers)
    → Fresh j from
    → values j (assign j (values j out ++ vs) out) ++ values j from ≡ values j out ++ vs
unfolding values
append_once j vs out from f =
    rw (lookup-assign j j (values j out ++ vs) out, eq_text_refl j, lookup-Fresh j from f)
      (append-nil _)

pub values-append_into :
    (k : Bytes) (out from : Headers)
    → Distinct name from
    → values k (append_into out from) ≡ values k out ++ values k from
unfolding append_into values lookup
values-append_into k out [] d = sym (append-nil _)
values-append_into k out ((j, vs) ∷ from) (f, d) =
    values-append_into k (assign j (values j out ++ vs) out) from d
    ∙ elim (Bool-cases (eq_text j k)) [
      | inl same ↦ rw (sym ((eq_text_iff j k).0 same), eq_text_refl j) (append_once j vs out from f)
      | inr other ↦ rw (lookup-assign j k (values j out ++ vs) out, other) refl
    ]

-- Copying a map with distinct keys into a fresh one gives the same list.
pub copy_into_fresh :
    (out from : Headers) → Distinct name (out ++ from) → copy_into out from ≡ out ++ from
unfolding copy_into
copy_into_fresh out [] d = sym (append-nil out)
copy_into_fresh out ((k, vs) ∷ from) d =
    ap (λ o. copy_into o from) (assign-Fresh k vs out (Distinct-middle name out (k, vs) from d))
    ∙ copy_into_fresh (out ++ (k, vs) ∷ []) from
        (subst (Distinct name) (sym (append_assoc out ((k, vs) ∷ []) from)) d)
    ∙ append_assoc out ((k, vs) ∷ []) from

-- The metadata, a map, fill in what the headers of a request lack, and change no entry that they
-- have.
pub lookup-augment :
    (k : Bytes) (md h : Headers)
    → Distinct name md
    → lookup k (augment md h) ≡ or_else (lookup k h) (lookup k md)
unfolding augment lookup
lookup-augment k [] h d = ground arith
lookup-augment k ((j, vs) ∷ md) h (f, d) = elim (Option-cases (lookup j h)) [
  | inl none_yet ↦
      rw (none_yet, lookup-augment k md (assign j vs h) d, lookup-assign j k vs h)
        (ground (arith, eq_text_iff j k, lookup-Fresh j md f))
  | inr (ws, found) ↦ rw (found, lookup-augment k md h d) (ground (arith, eq_text_iff j k))
]

-- Under every key a merge of two maps holds the values of the base and then those of the extra
-- headers.
pub values-merge_headers :
    (k : Bytes) (base extra : Headers)
    → Distinct name base
    → Distinct name extra
    → values k (merge_headers base extra) ≡ values k base ++ values k extra
unfolding merge_headers
values-merge_headers k base extra d e =
    values-append_into k (copy_into [] base) extra e
    ∙ ap (λ h. values k h ++ values k extra) (copy_into_fresh [] base d)

-- A recorded value is added behind those that the key has, and no other key changes.
pub values-add_value :
    (k j v : Bytes) (h : Headers)
    → values j (add_value k v h) ≡ (if eq_text k j then values k h ++ v ∷ [] else values j h)
unfolding add_value
values-add_value k j v h = values-assign k j (values k h ++ v ∷ []) h
