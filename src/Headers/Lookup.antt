-- ===== src/Headers/Lookup.antt =====
-- `Headers.Get` ignores case: on maps whose keys differ in more than case it is one scan.
use mathlib.Core.List.{Permᴰ}
use easy_rpc_go.Base.{
  ◌≡◌, ◌≢◌, refl, sym, ap, ◌∙◌, arith, List, [], ◌∷◌, some, Option-cases, inl, inr, if◌then◌else◌,
  All,
}
use easy_rpc_go.Base.Distinct.{Distinct, Distinct-perm}
use easy_rpc_go.Text.{Bytes, to_lower, equal_fold, canonical_header_key}
use easy_rpc_go.Text.Laws.{eq_text_iff, equal_fold_iff, to_lower-canonical}
use easy_rpc_go.Headers.{Entry, Headers, name, lookup, values, scan_fold, first_or, get}

abbrev pub lower_name : Entry → Bytes
lower_name e = to_lower (name e)

-- No two keys differ in case alone.
abbrev pub CaseDistinct : Headers → Type 0
CaseDistinct = Distinct lower_name

found_not_fresh :
    (c j : Bytes) (vs : List Bytes) (h : Headers)
    → lookup j h ≡ some vs
    → All (λ e. c ≢ lower_name e) h
    → c ≢ to_lower j
unfolding lookup
found_not_fresh c j vs [] e f = cc
found_not_fresh c j vs ((i, ws) ∷ h) e (ne, f) =
    ground (arith, eq_text_iff i j, found_not_fresh c j vs h)

scan_fold_found :
    (k j v : Bytes) (vs : List Bytes) (h : Headers)
    → CaseDistinct h
    → to_lower j ≡ to_lower k
    → lookup j h ≡ some (v ∷ vs)
    → scan_fold k h ≡ v
unfolding lookup scan_fold
scan_fold_found k j v vs [] d same e = cc
scan_fold_found k j v vs ((i, []) ∷ h) (f, d) same e =
    ground (arith, eq_text_iff i j, scan_fold_found k j v vs h d same)
scan_fold_found k j v vs ((i, w ∷ ws) ∷ h) (f, d) same e = ground (
  arith,
  eq_text_iff i j,
  equal_fold_iff i k,
  found_not_fresh (to_lower i) j (v ∷ vs) h,
  scan_fold_found k j v vs h d same,
)

-- One of the first two stages, whose key differs from `k` in case alone.
stage :
    (k j : Bytes) (h : Headers)
    → CaseDistinct h
    → to_lower j ≡ to_lower k
    → first_or (values j h) (scan_fold k h) ≡ scan_fold k h
unfolding values
stage k j h d same = elim (Option-cases (lookup j h)) [
  | inl missing ↦ rw missing refl
  | inr ([], found) ↦ rw found refl
  | inr (v ∷ vs, found) ↦ rw found (sym (scan_fold_found k j v vs h d same found))
]

-- The exact and the canonical spelling are only tried first: the result is that of the scan.
pub get-scan_fold : (k : Bytes) (h : Headers) → CaseDistinct h → get k h ≡ scan_fold k h
unfolding get
get-scan_fold k h d =
    ap (first_or (values k h)) (stage k (canonical_header_key k) h d (to_lower-canonical k))
    ∙ stage k k h d refl

scan_fold-fold :
    (k k' : Bytes) (h : Headers) → to_lower k ≡ to_lower k' → scan_fold k h ≡ scan_fold k' h
unfolding scan_fold
scan_fold-fold k k' [] e = refl
scan_fold-fold k k' ((j, []) ∷ h) e = scan_fold-fold k k' h e
scan_fold-fold k k' ((j, v ∷ vs) ∷ h) e =
    ground (arith, equal_fold_iff j k, equal_fold_iff j k', scan_fold-fold k k' h e)

scan_fold-swap :
    (k : Bytes) (a b : Entry) (h : Headers)
    → lower_name a ≢ lower_name b
    → scan_fold k (a ∷ b ∷ h) ≡ scan_fold k (b ∷ a ∷ h)
unfolding scan_fold
scan_fold-swap k (i, []) (j, []) h ne = refl
scan_fold-swap k (i, []) (j, w ∷ ws) h ne = refl
scan_fold-swap k (i, v ∷ vs) (j, []) h ne = refl
scan_fold-swap k (i, v ∷ vs) (j, w ∷ ws) h ne =
    ground (arith, equal_fold_iff i k, equal_fold_iff j k)

scan_fold-cons :
    (k : Bytes) (a : Entry) (h h' : Headers)
    → scan_fold k h ≡ scan_fold k h'
    → scan_fold k (a ∷ h) ≡ scan_fold k (a ∷ h')
unfolding scan_fold
scan_fold-cons k (i, []) h h' e = e
scan_fold-cons k (i, v ∷ vs) h h' e = ap (λ r. if equal_fold i k then v else r) e

pub scan_fold-perm :
    {h h' : Headers} (k : Bytes) → Permᴰ h h' → CaseDistinct h → scan_fold k h ≡ scan_fold k h'
scan_fold-perm k Permᴰ.nil d = refl
scan_fold-perm k (Permᴰ.cons {a} {b} {l₁} {l₂} e p) (f, d) =
    rw e (scan_fold-cons k b l₁ l₂ (scan_fold-perm k p d))
scan_fold-perm k (Permᴰ.swap {a} {b} {a'} {b'} {l} e f) ((ne, _), _) =
    rw (← e, ← f) (scan_fold-swap k a b l ne)
scan_fold-perm k (Permᴰ.trans p q) d =
    scan_fold-perm k p d ∙ scan_fold-perm k q (Distinct-perm lower_name p d)

-- On a map whose names are distinct up to case, Get depends neither on the case of the name nor on
-- the order of the entries.
pub get-perm :
    {h h' : Headers} (k k' : Bytes)
    → Permᴰ h h'
    → CaseDistinct h
    → to_lower k ≡ to_lower k'
    → get k h ≡ get k' h'
get-perm {h} {h'} k k' p d e =
    get-scan_fold k h d
    ∙ (scan_fold-fold k k' h e ∙ scan_fold-perm k' p d)
    ∙ sym (get-scan_fold k' h' (Distinct-perm lower_name p d))
