-- ===== src/Headers/Trailers.antt =====
-- Trailing metadata in `trailer-` headers: what `MuxTrailers` puts in, `DemuxTrailers` takes out.
use mathlib.Core.List.{map-append}
use easy_rpc_go.Base.{
  ◌≡◌, ◌≢◌, refl, sym, ap, ◌∙◌, append-nil, true, false, [], ◌∷◌, ◌++◌, map, drop, length,
  drop-append, All,
}
use easy_rpc_go.Base.Distinct.{Distinct, Distinct-append, Distinct-map, Distinct-weaken}
use easy_rpc_go.Text.{Bytes, to_lower, has_prefix}
use easy_rpc_go.Text.Laws.{to_lower_idem, to_lower-append, has_prefix-append}
use easy_rpc_go.Headers.{
  Entry, Headers, name, assign, copy_into, trailer_header_prefix, mux_into, mux_trailers,
  demux_into, demux_trailers,
}
use easy_rpc_go.Headers.Laws.{copy_into_fresh}
use easy_rpc_go.Headers.Lookup.{lower_name, CaseDistinct}

-- The response header for a trailer, and the trailer with its name in lower case.
abbrev pub mux_entry : Entry → Entry
mux_entry (k, vs) = (trailer_header_prefix ++ to_lower k, vs)

abbrev pub lower_entry : Entry → Entry
lower_entry (k, vs) = (to_lower k, vs)

mux_into-copy_into :
    (out trailers : Headers) → mux_into out trailers ≡ copy_into out (map mux_entry trailers)
unfolding mux_into copy_into
mux_into-copy_into out [] = refl
mux_into-copy_into out ((k, vs) ∷ t) =
    mux_into-copy_into (assign (trailer_header_prefix ++ to_lower k) vs out) t

-- A header that `DemuxTrailers` leaves among the headers.
abbrev pub IsHeader : Entry → Type 0
IsHeader e = has_prefix (lower_name e) trailer_header_prefix ≡ false

pub demux_headers :
    (h t more rest : Headers)
    → All IsHeader more
    → demux_into h t (more ++ rest) ≡ demux_into (copy_into h more) t rest
unfolding demux_into copy_into
demux_headers h t [] rest a = refl
demux_headers h t ((k, vs) ∷ more) rest (p, a) = rw p (demux_headers (assign k vs h) t more rest a)

abbrev pub IsTrailer : Entry → Type 0
IsTrailer e = has_prefix (lower_name e) trailer_header_prefix ≡ true

abbrev pub cut : Entry → Entry
cut (k, vs) = (drop (length trailer_header_prefix) (to_lower k), vs)

pub demux_trailer_part :
    (h t more rest : Headers)
    → All IsTrailer more
    → demux_into h t (more ++ rest) ≡ demux_into h (copy_into t (map cut more)) rest
unfolding demux_into copy_into
demux_trailer_part h t [] rest a = refl
demux_trailer_part h t ((k, vs) ∷ more) rest (p, a) = rw p (
    demux_trailer_part h (assign (drop (length trailer_header_prefix) (to_lower k)) vs t) more rest
      a)

demux_tail :
    (h t more : Headers)
    → All IsTrailer more
    → demux_into h t more ≡ (h, copy_into t (map cut more))
unfolding demux_into
demux_tail h t more a =
    ap (demux_into h t) (sym (append-nil more)) ∙ demux_trailer_part h t more [] a

pub lower_prefix :
    {s s' : Bytes} → s ≡ s' → to_lower trailer_header_prefix ++ s ≡ trailer_header_prefix ++ s'
unfolding to_lower
lower_prefix e = rw e

abbrev pub recased : (Bytes → Bytes) → Entry → Entry
recased recase (k, vs) = (recase k, vs)

-- What a hop does to the entries that changes names in case alone, as net/http does.
module _ (recase : Bytes → Bytes) (keeps : (k : Bytes) → to_lower (recase k) ≡ to_lower k) where
  pub recased-IsHeader : (h : Headers) → All IsHeader h → All IsHeader (map (recased recase) h)
  recased-IsHeader [] a = tt
  recased-IsHeader ((k, vs) ∷ h) (p, a) = (rw (keeps k) p, recased-IsHeader h a)

  lower-mux :
      (k : Bytes)
      → to_lower (recase (trailer_header_prefix ++ to_lower k))
        ≡ trailer_header_prefix ++ to_lower k
  lower-mux k =
      keeps (trailer_header_prefix ++ to_lower k)
      ∙ to_lower-append trailer_header_prefix (to_lower k)
      ∙ lower_prefix (to_lower_idem k)

  pub recased-IsTrailer : (t : Headers) → All IsTrailer (map (recased recase) (map mux_entry t))
  recased-IsTrailer [] = tt
  recased-IsTrailer ((k, vs) ∷ t) =
      (rw (lower-mux k) (has_prefix-append trailer_header_prefix (to_lower k)), recased-IsTrailer t)

  pub cut-recased :
      (t : Headers) → map cut (map (recased recase) (map mux_entry t)) ≡ map lower_entry t
  cut-recased [] = refl
  cut-recased ((k, vs) ∷ t) =
      cc (cut-recased t, lower-mux k, drop-append trailer_header_prefix (to_lower k))

pub CaseDistinct-Distinct : (h : Headers) → CaseDistinct h → Distinct name h
CaseDistinct-Distinct h = Distinct-weaken lower_name name (λ x y ne e. ne (ap to_lower e)) h

-- A name that no entry has, whatever the case.
abbrev pub Absent : Bytes → Headers → Type 0
Absent k h = All (λ e. lower_name e ≢ to_lower k) h

pub prefix_cancel : (a b : Bytes) → trailer_header_prefix ++ a ≡ trailer_header_prefix ++ b → a ≡ b
prefix_cancel a b e = ap (drop (length trailer_header_prefix)) e

-- A trailer's header has none of the names of other headers.
pub mux_entry-Absent : (k : Bytes) (t : Headers) → IsHeader (k, []) → Absent k (map mux_entry t)
mux_entry-Absent k [] p = tt
mux_entry-Absent k ((j, vs) ∷ t) p = (
  λ e. cc (
    p,
    ap (λ n. has_prefix n trailer_header_prefix) e,
    ap (λ n. has_prefix n trailer_header_prefix)
        (to_lower-append trailer_header_prefix (to_lower j)),
    ap (λ n. has_prefix n trailer_header_prefix) (lower_prefix (to_lower_idem j)),
    has_prefix-append trailer_header_prefix (to_lower j),
  ),
  mux_entry-Absent k t p,
)

pub Absent-apart :
    (x : Entry) (h : Headers) → Absent (name x) h → All (λ y. lower_name x ≢ lower_name y) h
Absent-apart x [] a = tt
Absent-apart x (y ∷ h) (ne, a) = (λ same. ne (sym same), Absent-apart x h a)

headers_mux_apart :
    (h t : Headers)
    → All IsHeader h
    → All (λ x. All (λ y. lower_name x ≢ lower_name y) (map mux_entry t)) h
headers_mux_apart [] t a = tt
headers_mux_apart (x ∷ h) t (p, a) =
    (Absent-apart x (map mux_entry t) (mux_entry-Absent (name x) t p), headers_mux_apart h t a)

mux_entry-apart :
    (x y : Entry)
    → lower_name x ≢ lower_name y
    → lower_name (mux_entry x) ≢ lower_name (mux_entry y)
mux_entry-apart (j, vs) (k, ws) ne e = ne (
    prefix_cancel (to_lower j) (to_lower k) (
      sym (to_lower-append trailer_header_prefix (to_lower j) ∙ lower_prefix (to_lower_idem j))
      ∙ e
      ∙ to_lower-append trailer_header_prefix (to_lower k)
      ∙ lower_prefix (to_lower_idem k)))

pub CaseDistinct-mux :
    (h t : Headers)
    → CaseDistinct h
    → All IsHeader h
    → CaseDistinct t
    → CaseDistinct (h ++ map mux_entry t)
CaseDistinct-mux h t dh a dt =
    Distinct-append lower_name h (map mux_entry t) dh
      (Distinct-map lower_name lower_name mux_entry mux_entry-apart t dt) (headers_mux_apart h t a)

pub mux_trailers-append :
    (h t : Headers)
    → CaseDistinct h
    → All IsHeader h
    → CaseDistinct t
    → mux_trailers h t ≡ h ++ map mux_entry t
unfolding mux_trailers
mux_trailers-append h t dh a dt =
    ap (λ o. mux_into o t) (copy_into_fresh [] h (CaseDistinct-Distinct h dh))
    ∙ mux_into-copy_into h t
    ∙ copy_into_fresh h (map mux_entry t)
        (CaseDistinct-Distinct (h ++ map mux_entry t) (CaseDistinct-mux h t dh a dt))

-- Headers and trailers come apart again behind any hop that changes names in case alone: the
-- headers as the hop left them, and the trailers under their names in lower case.
module _ (recase : Bytes → Bytes) (keeps : (k : Bytes) → to_lower (recase k) ≡ to_lower k) where
  pub recase_apart :
      (x y : Entry)
      → lower_name x ≢ lower_name y
      → name (recased recase x) ≢ name (recased recase y)
  recase_apart (j, vs) (k, ws) ne e = ne (sym (keeps j) ∙ ap to_lower e ∙ keeps k)

  -- Trailers that are muxed into headers and pass through a change of case in every name, as
  -- net/http makes it, come out apart again: the headers with their new case, the trailers in lower
  -- case. The headers, and the trailers, are distinct up to case, and no header starts like a
  -- trailer.
  pub demux_trailers-mux_trailers :
      (h t : Headers)
      → CaseDistinct h
      → All IsHeader h
      → CaseDistinct t
      → demux_trailers (map (recased recase) (mux_trailers h t))
        ≡ (map (recased recase) h, map lower_entry t)
  unfolding demux_trailers
  demux_trailers-mux_trailers h t dh a dt =
      rw (mux_trailers-append h t dh a dt, map-append)
        (demux_headers [] [] (map (recased recase) h) _ (recased-IsHeader recase keeps h a)
          ∙ demux_tail _ [] _ (recased-IsTrailer recase keeps t)
          ∙ rw
              (
                copy_into_fresh [] (map (recased recase) h)
                    (Distinct-map lower_name name (recased recase) recase_apart h dh),
                cut-recased recase keeps t,
                copy_into_fresh [] (map lower_entry t)
                    (Distinct-map lower_name name lower_entry (λ x y ne e. ne e) t dt),
              )
              refl)
