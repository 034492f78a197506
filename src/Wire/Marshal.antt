-- ===== src/Wire/Marshal.antt =====
-- Structs as JSON trees, as the struct tags say: `json.Marshal`.
use easy_rpc_go.Base.{Bool, true, false, ◌&&◌, List, [], ◌∷◌, none, some, ltb, ◌==◌, if◌then◌else◌}
use easy_rpc_go.Text.{Bytes, codes}
use easy_rpc_go.Headers.{Headers}
use easy_rpc_go.Json.{Json, string, array, object, Items, nil, cons, Members, end, member}
use easy_rpc_go.Wire.Structs.{WireDetail, WireError, EndStreamJson}

-- Marshalling: the struct tags name the members, and `omitempty` leaves out what is empty.
unfoldable pub detail_items : List WireDetail → Items
detail_items [] = nil
detail_items (d ∷ ds) =
    cons
      (object (member (codes "type") (string d.kind) (member (codes "value") (string d.value) end)))
      (detail_items ds)

unfoldable pub details_member : List WireDetail → Members
details_member [] = end
details_member (d ∷ ds) = member (codes "details") (array (detail_items (d ∷ ds))) end

unfoldable pub error_json : WireError → Json
unfolding details_member detail_items
error_json e = object (
    member (codes "code") (string e.code)
      (member (codes "message") (string e.message) (details_member e.details)))

unfoldable pub value_items : List Bytes → Items
value_items [] = nil
value_items (v ∷ vs) = cons (string v) (value_items vs)

-- The keys of a map are written in order.
unfoldable pub text_leb : Bytes → Bytes → Bool
text_leb [] t = true
text_leb (a ∷ s) [] = false
text_leb (a ∷ s) (b ∷ t) = if ltb a b then true else a == b && text_leb s t

unfoldable pub insert_entry : Bytes × List Bytes → Headers → Headers
unfolding text_leb
insert_entry (k, vs) [] = (k, vs) ∷ []
insert_entry (k, vs) ((j, ws) ∷ h) =
    if text_leb k j then (k, vs) ∷ (j, ws) ∷ h else (j, ws) ∷ insert_entry (k, vs) h

unfoldable pub sort_entries : Headers → Headers
unfolding insert_entry
sort_entries [] = []
sort_entries (e ∷ h) = insert_entry e (sort_entries h)

unfoldable pub entry_members : Headers → Members
unfolding value_items
entry_members [] = end
entry_members ((k, vs) ∷ h) = member k (array (value_items vs)) (entry_members h)

unfoldable pub metadata_member : Headers → Members
metadata_member [] = end
metadata_member (e ∷ h) =
    member (codes "metadata") (object (entry_members (sort_entries (e ∷ h)))) end

unfoldable pub end_stream_json : EndStreamJson → Json
end_stream_json es = elim es.error [
  | none ↦ object (metadata_member es.metadata)
  | some e ↦ object (member (codes "error") (error_json e) (metadata_member es.metadata))
]
