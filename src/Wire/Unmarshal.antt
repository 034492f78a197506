-- ===== src/Wire/Unmarshal.antt =====
-- JSON trees as structs: `json.Unmarshal`, which matches member names whatever their case, takes a
-- later member over an earlier one, leaves a field alone at `null`, and fails (`none`) on a value
-- of another type.
use easy_rpc_go.Base.{List, [], ◌∷◌, Option, none, some, if◌then◌else◌}
use easy_rpc_go.Base.Options.{◌>>=◌}
use easy_rpc_go.Text.{Bytes, codes, equal_fold}
use easy_rpc_go.Headers.{Headers, assign}
use easy_rpc_go.Json.{Json, null, string, array, object, Items, nil, cons, Members, end, member}
use easy_rpc_go.Wire.Structs.{WireDetail, WireError, EndStreamJson, no_detail, no_error}

-- Into a string field that holds `old`.
unfoldable pub string_into : Bytes → Json → Option Bytes
string_into old (string s) = some s
string_into old null = some old
string_into old _ = none

unfoldable pub detail_member_into : WireDetail → Bytes → Json → Option WireDetail
unfolding equal_fold string_into
detail_member_into d k v =
    if equal_fold k (codes "type")
    then (do s ← string_into d.kind v; some (record d { kind = s }))
    else if equal_fold k (codes "value")
    then (do s ← string_into d.value v; some (record d { value = s }))
    else some d

unfoldable pub detail_members_into : WireDetail → Members → Option WireDetail
unfolding detail_member_into
detail_members_into d end = some d
detail_members_into d (member k v ms) = do d' ← detail_member_into d k v; detail_members_into d' ms

unfoldable pub detail_of : Json → Option WireDetail
unfolding detail_members_into
detail_of (object ms) = detail_members_into no_detail ms
detail_of null = some no_detail
detail_of _ = none

unfoldable pub details_of_items : Items → Option (List WireDetail)
unfolding detail_of
details_of_items nil = some []
details_of_items (cons v vs) = do d ← detail_of v; ds ← details_of_items vs; some (d ∷ ds)

-- Into a slice field: `null` makes it nil.
unfoldable pub details_of : Json → Option (List WireDetail)
unfolding details_of_items
details_of (array vs) = details_of_items vs
details_of null = some []
details_of _ = none

unfoldable pub error_member_into : WireError → Bytes → Json → Option WireError
unfolding equal_fold string_into details_of
error_member_into e k v =
    if equal_fold k (codes "code")
    then (do s ← string_into e.code v; some (record e { code = s }))
    else if equal_fold k (codes "message")
    then (do s ← string_into e.message v; some (record e { message = s }))
    else if equal_fold k (codes "details")
    then (do ds ← details_of v; some (record e { details = ds }))
    else some e

unfoldable pub error_members_into : WireError → Members → Option WireError
unfolding error_member_into
error_members_into e end = some e
error_members_into e (member k v ms) = do e' ← error_member_into e k v; error_members_into e' ms

abbrev pub or_new : Option WireError → WireError
or_new none = no_error
or_new (some e) = e

-- Into the pointer field `error`: an object goes into the struct that it points to, or a new one.
unfoldable pub error_into : Option WireError → Json → Option (Option WireError)
unfolding error_members_into
error_into old (object ms) = do e ← error_members_into (or_new old) ms; some (some e)
error_into old null = some none
error_into old _ = none

unfoldable pub values_of_items : Items → Option (List Bytes)
unfolding string_into
values_of_items nil = some []
values_of_items (cons v vs) = do s ← string_into [] v; ss ← values_of_items vs; some (s ∷ ss)

unfoldable pub values_of : Json → Option (List Bytes)
unfolding values_of_items
values_of (array vs) = values_of_items vs
values_of null = some []
values_of _ = none

-- Into a map field: the entries of the object are added.
unfoldable pub entries_into : Headers → Members → Option Headers
unfolding values_of assign
entries_into h end = some h
entries_into h (member k v ms) = do vs ← values_of v; entries_into (assign k vs h) ms

unfoldable pub metadata_into : Headers → Json → Option Headers
unfolding entries_into
metadata_into h (object ms) = entries_into h ms
metadata_into h null = some []
metadata_into h _ = none

unfoldable pub end_stream_member_into : EndStreamJson → Bytes → Json → Option EndStreamJson
unfolding equal_fold error_into metadata_into
end_stream_member_into es k v =
    if equal_fold k (codes "error")
    then (do e ← error_into es.error v; some (record es { error = e }))
    else if equal_fold k (codes "metadata")
    then (do h ← metadata_into es.metadata v; some (record es { metadata = h }))
    else some es

unfoldable pub end_stream_members_into : EndStreamJson → Members → Option EndStreamJson
unfolding end_stream_member_into
end_stream_members_into es end = some es
end_stream_members_into es (member k v ms) = do
  es' ← end_stream_member_into es k v
  end_stream_members_into es' ms

abbrev pub no_end_stream : EndStreamJson
no_end_stream = record { error = none; metadata = [] }

unfoldable pub end_stream_of : Json → Option EndStreamJson
unfolding end_stream_members_into
end_stream_of (object ms) = end_stream_members_into no_end_stream ms
end_stream_of null = some no_end_stream
end_stream_of _ = none

-- Into the struct of `DecodeErrorJSON`.
unfoldable pub error_of : Json → Option WireError
unfolding error_members_into
error_of (object ms) = error_members_into no_error ms
error_of null = some no_error
error_of _ = none
