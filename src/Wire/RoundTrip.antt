-- ===== src/Wire/RoundTrip.antt =====
-- What `DecodeEndStream` gets of what `EncodeEndStream` wrote.
use mathlib.Core.Path.{subst}
use mathlib.Core.List.{Permᴰ}
use mathlib.Core.List.Permᴰ
use easy_rpc_go.Base.{
  ◌≡◌, refl, sym, ap, ◌∙◌, List, [], ◌∷◌, ◌++◌, Option, none, some, Bool-cases, inl, inr,
  append-nil, append_assoc,
}
use easy_rpc_go.Base.Distinct.{Distinct, Distinct-perm, Distinct-middle}
use easy_rpc_go.Text.{Bytes, codes}
use easy_rpc_go.Headers.{Headers, Entry, name}
use easy_rpc_go.Headers.Laws.{assign-Fresh}
use easy_rpc_go.Json.{Members, member}
use easy_rpc_go.Wire.Structs.{WireDetail, WireError, EndStreamJson}
use easy_rpc_go.Wire.Marshal.{
  detail_items, details_member, error_json, value_items, insert_entry, sort_entries, entry_members,
  metadata_member, end_stream_json, text_leb,
}
use easy_rpc_go.Wire.Unmarshal.{
  details_of_items, error_members_into, error_into, values_of_items, entries_into,
  end_stream_members_into, end_stream_of, no_end_stream,
}

insert_entry-perm : (e : Entry) (h : Headers) → Permᴰ (e ∷ h) (insert_entry e h)
unfolding insert_entry
insert_entry-perm (k, vs) [] = Permᴰ.refl _
insert_entry-perm (k, vs) ((j, ws) ∷ h) = elim (Bool-cases (text_leb k j)) [
  | inl le ↦ rw le (Permᴰ.refl _)
  | inr gt ↦
      rw gt (Permᴰ.trans (Permᴰ.swap refl refl) (Permᴰ.cons refl (insert_entry-perm (k, vs) h)))
]

-- Sorting the entries keeps them all.
pub sort_entries-perm : (h : Headers) → Permᴰ h (sort_entries h)
unfolding sort_entries
sort_entries-perm [] = Permᴰ.nil
sort_entries-perm (e ∷ h) =
    Permᴰ.trans (Permᴰ.cons refl (sort_entries-perm h)) (insert_entry-perm e (sort_entries h))

values_of-value_items : (vs : List Bytes) → values_of_items (value_items vs) ≡ some vs
unfolding values_of_items value_items
values_of-value_items [] = refl
values_of-value_items (v ∷ vs) = rw (values_of-value_items vs)

entries_into-entry_members :
    (out h : Headers)
    → Distinct name (out ++ h)
    → entries_into out (entry_members h) ≡ some (out ++ h)
unfolding entries_into entry_members
entries_into-entry_members out [] d = ap some (sym (append-nil out))
entries_into-entry_members out ((k, vs) ∷ h) d =
    rw (values_of-value_items vs, assign-Fresh k vs out (Distinct-middle name out (k, vs) h d))
      (entries_into-entry_members (out ++ (k, vs) ∷ []) h
          (subst (Distinct name) (sym (append_assoc out ((k, vs) ∷ []) h)) d)
        ∙ ap some (append_assoc out ((k, vs) ∷ []) h))

details_of-detail_items : (ds : List WireDetail) → details_of_items (detail_items ds) ≡ some ds
unfolding details_of_items detail_items
details_of-detail_items [] = refl
details_of-detail_items (d ∷ ds) = rw (details_of-detail_items ds)

pub members_details :
    (code message : Bytes) (ds : List WireDetail)
    → error_members_into
        (record { code = code; message = message; details = [] })
        (details_member ds)
      ≡ some (record { code = code; message = message; details = ds })
unfolding error_members_into details_member detail_items
members_details code message [] = refl
members_details code message (d ∷ ds) = rw (details_of-detail_items ds)

pub error_into-error_json : (e : WireError) → error_into none (error_json e) ≡ some (some e)
unfolding error_into error_json
error_into-error_json e = rw (members_details e.code e.message e.details)

metadata_into-metadata_member :
    (error : Option WireError) (h : Headers)
    → Distinct name h
    → end_stream_members_into (record { error = error; metadata = [] }) (metadata_member h)
      ≡ some (record { error = error; metadata = sort_entries h })
unfolding end_stream_members_into metadata_member
metadata_into-metadata_member error [] d = unfold sort_entries in refl
metadata_into-metadata_member error (e ∷ h) d = rw (
    entries_into-entry_members [] (sort_entries (e ∷ h))
      (Distinct-perm name (sort_entries-perm (e ∷ h)) d))

error_first :
    (e : WireError) (ms : Members)
    → end_stream_members_into no_end_stream (member (codes "error") (error_json e) ms)
      ≡ end_stream_members_into (record { error = some e; metadata = [] }) ms
unfolding end_stream_members_into
error_first e ms = rw (error_into-error_json e)

struct_back :
    (error : Option WireError) (h : Headers)
    → Distinct name h
    → end_stream_of (end_stream_json (record { error = error; metadata = h }))
      ≡ some (record { error = error; metadata = sort_entries h })
unfolding end_stream_of end_stream_json
struct_back none h d = metadata_into-metadata_member none h d
struct_back (some e) h d =
    error_first e (metadata_member h) ∙ metadata_into-metadata_member (some e) h d

-- The struct comes back from its tree, with the metadata in the order of their keys.
pub end_stream_of-end_stream_json :
    (es : EndStreamJson)
    → Distinct name es.metadata
    → end_stream_of (end_stream_json es) ≡ some (record es { metadata = sort_entries es.metadata })
end_stream_of-end_stream_json es d = struct_back es.error es.metadata d
