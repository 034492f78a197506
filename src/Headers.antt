-- ===== src/Headers.antt =====
-- Header maps (protocol.go: Headers, Set, Get, MuxTrailers, DemuxTrailers, augment; server.go:
-- mergeHeaders; bridge_nethttp.go: goHeaders, httpHeader). A Go map is the list of its entries, in
-- the order in which `range` meets them; a nil map is the empty list. Go promises no order, so the
-- laws are stated for every list, with distinct keys where a map has them.
pub mod Laws
pub mod Lookup
pub mod Trailers
pub mod Hop
pub mod Canonical
use easy_rpc_go.Base.{
  ℕ, Bool, true, false, List, [], ◌∷◌, ◌++◌, map, drop, length, Option, none, some, if◌then◌else◌,
}
use easy_rpc_go.Text.{Bytes, codes, eq_text, to_lower, equal_fold, has_prefix, canonical_header_key}

abbrev pub Entry : Type 0
Entry = Bytes × List Bytes

abbrev pub Headers : Type 0
Headers = List Entry

abbrev pub name : Entry → Bytes
name e = e.0

-- `v, ok := h[k]`.
unfoldable pub lookup : Bytes → Headers → Option (List Bytes)
unfolding eq_text
lookup k [] = none
lookup k ((j, vs) ∷ h) = if eq_text j k then some vs else lookup k h

abbrev pub or_empty : Option (List Bytes) → List Bytes
or_empty none = []
or_empty (some vs) = vs

-- `h[k]`.
unfoldable pub values : Bytes → Headers → List Bytes
unfolding lookup
values k h = or_empty (lookup k h)

-- `h[k] = vs`.
unfoldable pub assign : Bytes → List Bytes → Headers → Headers
unfolding eq_text
assign k vs [] = (k, vs) ∷ []
assign k vs ((j, ws) ∷ h) = if eq_text j k then (j, vs) ∷ h else (j, ws) ∷ assign k vs h

-- `Headers.Set`.
unfoldable pub set : Bytes → Bytes → Headers → Headers
unfolding assign
set k v h = assign k (v ∷ []) h

-- The third loop of `Headers.Get`: any key that differs in case alone.
unfoldable pub scan_fold : Bytes → Headers → Bytes
unfolding equal_fold
scan_fold k [] = []
scan_fold k ((j, []) ∷ h) = scan_fold k h
scan_fold k ((j, v ∷ vs) ∷ h) = if equal_fold j k then v else scan_fold k h

abbrev pub first_or : List Bytes → Bytes → Bytes
first_or [] later = later
first_or (v ∷ vs) later = v

-- `Headers.Get`: the exact key, the canonical key, any case.
unfoldable pub get : Bytes → Headers → Bytes
unfolding values scan_fold canonical_header_key
get k h = first_or (values k h) (first_or (values (canonical_header_key k) h) (scan_fold k h))

-- `for k, v := range from { out[k] = v }`.
unfoldable pub copy_into : Headers → Headers → Headers
unfolding assign
copy_into out [] = out
copy_into out ((k, vs) ∷ from) = copy_into (assign k vs out) from

-- `goHeaders` and `httpHeader`: the entries in a fresh map.
unfoldable pub go_headers : Headers → Headers
unfolding copy_into
go_headers h = copy_into [] h

-- `for k, v := range from { out[k] = append(out[k], v...) }`.
unfoldable pub append_into : Headers → Headers → Headers
unfolding assign values
append_into out [] = out
append_into out ((k, vs) ∷ from) = append_into (assign k (values k out ++ vs) out) from

unfoldable pub merge_headers : Headers → Headers → Headers
unfolding copy_into append_into
merge_headers base extra = append_into (copy_into [] base) extra

-- `c.header[key] = append(c.header[key], value)`.
unfoldable pub add_value : Bytes → Bytes → Headers → Headers
unfolding assign values
add_value k v h = assign k (values k h ++ v ∷ []) h

-- The loop of `augment`: what the request has wins.
unfoldable pub augment : Headers → Headers → Headers
unfolding lookup assign
augment [] h = h
augment ((k, vs) ∷ md) h = augment md (elim (lookup k h) [ none ↦ assign k vs h | some ws ↦ h ])

abbrev pub trailer_header_prefix : Bytes
trailer_header_prefix = codes "trailer-"

-- The second loop of `MuxTrailers`.
unfoldable pub mux_into : Headers → Headers → Headers
unfolding assign to_lower
mux_into out [] = out
mux_into out ((k, vs) ∷ trailers) =
    mux_into (assign (trailer_header_prefix ++ to_lower k) vs out) trailers

unfoldable pub mux_trailers : Headers → Headers → Headers
unfolding copy_into mux_into
mux_trailers headers trailers = mux_into (copy_into [] headers) trailers

-- The loop of `DemuxTrailers`.
unfoldable pub demux_into : Headers → Headers → Headers → Headers × Headers
unfolding assign to_lower has_prefix
demux_into h t [] = (h, t)
demux_into h t ((k, vs) ∷ rest) =
    let lk = to_lower k in
    let trailer = demux_into h (assign (drop (length trailer_header_prefix) lk) vs t) rest in
    let header = demux_into (assign k vs h) t rest in
    if has_prefix lk trailer_header_prefix then trailer else header

unfoldable pub demux_trailers : Headers → Headers × Headers
unfolding demux_into
demux_trailers h = demux_into [] [] h
