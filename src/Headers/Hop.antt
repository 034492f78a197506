-- ===== src/Headers/Hop.antt =====
-- The headers of a response with trailers, over a hop that changes names in case alone, as net/http
-- does, and into the map that a client makes of them (bridge_nethttp.go: Send).
use mathlib.Core.Path.{subst}
use mathlib.Core.List.{map-append}
use easy_rpc_go.Base.{
  ◌≡◌, ◌≢◌, refl, sym, ap, ◌∙◌, [], ◌∷◌, ◌++◌, map, All, All-append, append_assoc, append-nil,
  arith,
}
use easy_rpc_go.Base.Distinct.{Distinct, Distinct-middle, Distinct-left, Distinct-map}
use easy_rpc_go.Text.{Bytes, codes, to_lower, has_prefix, canonical_header_key}
use easy_rpc_go.Text.Laws.{to_lower-canonical, equal_fold_iff}
use easy_rpc_go.Headers.{
  Entry, Headers, name, values, set, get, scan_fold, copy_into, append_into, merge_headers,
  mux_trailers, demux_into, demux_trailers, go_headers,
}
use easy_rpc_go.Headers.Laws.{Fresh, lookup-Fresh, assign-Fresh, copy_into_fresh}
use easy_rpc_go.Headers.Lookup.{lower_name, CaseDistinct}
use easy_rpc_go.Headers.Trailers.{
  Absent, mux_entry-Absent, CaseDistinct-mux, mux_entry, lower_entry, recased, IsHeader,
  mux_trailers-append, CaseDistinct-Distinct, recase_apart, demux_headers, demux_trailer_part,
  recased-IsHeader, recased-IsTrailer, cut-recased,
}

Absent-Fresh : (k : Bytes) (h : Headers) → Absent k h → Fresh k h
Absent-Fresh k [] a = tt
Absent-Fresh k (e ∷ h) (p, a) = (λ same. p (sym (ap to_lower same)), Absent-Fresh k h a)

pub values-Absent : (k : Bytes) (h : Headers) → Absent k h → values k h ≡ []
unfolding values
values-Absent k h a = rw (lookup-Fresh k h (Absent-Fresh k h a)) refl

scan_fold-Absent : (k : Bytes) (h : Headers) → Absent k h → scan_fold k h ≡ []
unfolding scan_fold
scan_fold-Absent k [] a = refl
scan_fold-Absent k ((j, []) ∷ h) (p, a) = scan_fold-Absent k h a
scan_fold-Absent k ((j, v ∷ vs) ∷ h) (p, a) =
    ground (arith, equal_fold_iff j k, scan_fold-Absent k h a)

Absent-lower : (k j : Bytes) (h : Headers) → to_lower j ≡ to_lower k → Absent k h → Absent j h
Absent-lower k j [] e a = tt
Absent-lower k j (x ∷ h) e (p, a) = (λ same. p (same ∙ e), Absent-lower k j h e a)

pub get-Absent : (k : Bytes) (h : Headers) → Absent k h → get k h ≡ []
unfolding get
get-Absent k h a =
    rw
      (
        values-Absent k h a,
        values-Absent (canonical_header_key k) h
            (Absent-lower k (canonical_header_key k) h (to_lower-canonical k) a),
      )
      (scan_fold-Absent k h a)

-- A map with other names is copied behind another.
pub append_into_fresh :
    (out from : Headers) → Distinct name (out ++ from) → append_into out from ≡ out ++ from
unfolding append_into values
append_into_fresh out [] d = sym (append-nil out)
append_into_fresh out ((k, vs) ∷ from) d =
    let fresh = Distinct-middle name out (k, vs) from d in
    rw (lookup-Fresh k out fresh) (
      ap (λ o. append_into o from) (assign-Fresh k vs out fresh)
      ∙ append_into_fresh (out ++ (k, vs) ∷ []) from
          (subst (Distinct name) (sym (append_assoc out ((k, vs) ∷ []) from)) d)
      ∙ append_assoc out ((k, vs) ∷ []) from)

-- The base of the headers of a response, and those and the trailers of a handler: names that differ
-- in more than case, none of a header like a trailer's, and none that the client sets itself.
pub record IsTidy (base own trailers : Headers) : Type 0 where
  pub headers : CaseDistinct (base ++ own)
  pub kept : All IsHeader (base ++ own)
  pub proto : Absent (codes "proto") (base ++ own)
  pub trailers_apart : CaseDistinct trailers

pub muxed :
    (base own trailers : Headers)
    → IsTidy base own trailers
    → mux_trailers (merge_headers base own) trailers ≡ (base ++ own) ++ map mux_entry trailers
unfolding merge_headers
muxed base own trailers t =
    let d = CaseDistinct-Distinct (base ++ own) t.headers in
    ap (λ h. mux_trailers (append_into h own) trailers)
      (copy_into_fresh [] base (Distinct-left name base own d))
    ∙ ap (λ h. mux_trailers h trailers) (append_into_fresh base own d)
    ∙ mux_trailers-append (base ++ own) trailers t.headers t.kept t.trailers_apart

-- The name `proto`, under which the client puts the HTTP version, is no trailer's.
proto_header : IsHeader (codes "proto", [])
unfolding to_lower has_prefix
proto_header = refl

module _ (recase : Bytes → Bytes) (keeps : (k : Bytes) → to_lower (recase k) ≡ to_lower k) where
  Absent-recased : (k : Bytes) (h : Headers) → Absent k h → Absent k (map (recased recase) h)
  Absent-recased k [] a = tt
  Absent-recased k ((j, vs) ∷ h) (p, a) = (λ e. p (sym (keeps j) ∙ e), Absent-recased k h a)

  pub arrived :
      (base own trailers : Headers) (proto : Bytes)
      → IsTidy base own trailers
      → demux_trailers (
          set
            (codes "proto")
            proto
            (go_headers (map (recased recase) (mux_trailers (merge_headers base own) trailers))))
        ≡ (
          map (recased recase) (base ++ own) ++ (codes "proto", proto ∷ []) ∷ [],
          map lower_entry trailers,
        )
  unfolding demux_trailers set go_headers demux_into
  arrived base own trailers proto t =
      let h = map (recased recase) (base ++ own) in
      let tr = map (recased recase) (map mux_entry trailers) in
      let apart = CaseDistinct-mux (base ++ own) trailers t.headers t.kept t.trailers_apart in
      let clean =
        All-append (λ (e : Entry). lower_name e ≢ to_lower (codes "proto")) (base ++ own)
          (map mux_entry trailers) t.proto
          (mux_entry-Absent (codes "proto") trailers proto_header) in
      rw
        (
          muxed base own trailers t,
          copy_into_fresh [] (map (recased recase) ((base ++ own) ++ map mux_entry trailers))
              (Distinct-map lower_name name (recased recase) (recase_apart recase keeps) _ apart),
          assign-Fresh (codes "proto") (proto ∷ [])
              (map (recased recase) ((base ++ own) ++ map mux_entry trailers))
              (Absent-Fresh _ _ (Absent-recased (codes "proto") _ clean)),
          map-append,
          append_assoc h tr ((codes "proto", proto ∷ []) ∷ []),
          demux_headers [] [] h (tr ++ (codes "proto", proto ∷ []) ∷ [])
              (recased-IsHeader recase keeps (base ++ own) t.kept),
        )
        (demux_trailer_part (copy_into [] h) [] tr ((codes "proto", proto ∷ []) ∷ [])
            (recased-IsTrailer recase keeps trailers)
          ∙ rw
              (
                copy_into_fresh [] h (
                    Distinct-map lower_name name (recased recase) (recase_apart recase keeps) _
                      t.headers),
                assign-Fresh (codes "proto") (proto ∷ []) h
                    (Absent-Fresh _ _ (Absent-recased (codes "proto") _ t.proto)),
                cut-recased recase keeps trailers,
                copy_into_fresh [] (map lower_entry trailers) (
                    Distinct-map lower_name name lower_entry (λ x y ne e. ne e) trailers
                      t.trailers_apart),
              )
              refl)

  -- A name that no header has stays without values over the hop, if it is no trailer's.
  pub values-arrived :
      (k : Bytes) (base own trailers : Headers)
      → IsTidy base own trailers
      → IsHeader (k, [])
      → Absent k (base ++ own)
      → values k (map (recased recase) (mux_trailers (merge_headers base own) trailers)) ≡ []
  values-arrived k base own trailers t p a = rw (muxed base own trailers t) (
      values-Absent k _ (
        Absent-recased k _ (
          All-append (λ (e : Entry). lower_name e ≢ to_lower k) (base ++ own)
            (map mux_entry trailers) a (mux_entry-Absent k trailers p))))

  pub get-arrived :
      (k : Bytes) (h : Headers) (proto : Bytes)
      → Absent k h
      → to_lower (codes "proto") ≢ to_lower k
      → get k (map (recased recase) h ++ (codes "proto", proto ∷ []) ∷ []) ≡ []
  get-arrived k h proto a ne = get-Absent k _ (
      All-append (λ (e : Entry). lower_name e ≢ to_lower k) (map (recased recase) h) _
        (Absent-recased k h a) (ne, tt))
