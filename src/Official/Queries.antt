-- ===== src/Official/Queries.antt =====
-- The query string of a request, as the official conformance server takes it apart (parseQuery),
-- and the names of packed messages (toRPCError).
use easy_rpc_go.Base.{
  ℕ, ◌≡◌, ◌≢◌, refl, ap, ◌∙◌, arith, List, [], ◌∷◌, ◌++◌, map, All, All-append, false, some, ◌==◌,
  if◌then◌else◌,
}
use easy_rpc_go.Text.{Bytes, is_empty, before, split}
use easy_rpc_go.Stubs.Official.Messages.{Header}
use easy_rpc_go.Official.{after_equals, parse_pairs, parse_query, behind_slash, type_name}

-- One parameter as it is written, and all of them.
abbrev pub pair : Bytes × Bytes → Bytes
pair (name, value) = name ++ (b'=' ∷ value)

abbrev pub query : List (Bytes × Bytes) → Bytes
query [] = []
query (p ∷ []) = pair p
query (p ∷ q ∷ ps) = pair p ++ (b'&' ∷ query (q ∷ ps))

-- A byte that does not occur.
abbrev pub Without : ℕ → Bytes → Type 0
Without b s = All (λ c. c ≢ b) s

abbrev pub IsPair : Bytes × Bytes → Type 0
IsPair (name, value) = Without b'=' name × Without b'&' name × Without b'&' value

abbrev pub parsed : Bytes × Bytes → Header
parsed (name, value) = record { name = name; value = value ∷ [] }

before-Without : (b : ℕ) (s r : Bytes) → Without b s → before b (s ++ (b ∷ r)) ≡ s
unfolding before
before-Without b [] r w = ground arith
before-Without b (c ∷ s) r (ne, w) = ground (arith, before-Without b s r w)

after-Without : (s r : Bytes) → Without b'=' s → after_equals (s ++ (b'=' ∷ r)) ≡ some r
unfolding after_equals
after-Without [] r w = refl
after-Without (c ∷ s) r (ne, w) = ground (arith, after-Without s r w)

split-Without : (b : ℕ) (s r : Bytes) → Without b s → split b (s ++ (b ∷ r)) ≡ s ∷ split b r
unfolding split
split-Without b [] r w = ground arith
split-Without b (c ∷ s) r (ne, w) = ground (arith, split-Without b s r w)

split_whole : (b : ℕ) (s : Bytes) → Without b s → split b s ≡ s ∷ []
unfolding split
split_whole b [] w = refl
split_whole b (c ∷ s) (ne, w) = ground (arith, split_whole b s w)

Without-pair : (p : Bytes × Bytes) → IsPair p → Without b'&' (pair p)
Without-pair (name, value) (e, n, v) =
    All-append (λ c. c ≢ b'&') name (b'=' ∷ value) n ((λ q. absurd (omega arith)), v)

pair_not_empty : (name value : Bytes) → is_empty (name ++ (b'=' ∷ value)) ≡ false
pair_not_empty [] value = refl
pair_not_empty (c ∷ name) value = refl

parse_pair :
    (p : Bytes × Bytes) (rest : List Bytes)
    → IsPair p
    → parse_pairs (pair p ∷ rest) ≡ parsed p ∷ parse_pairs rest
unfolding parse_pairs
parse_pair (name, value) rest (e, n, v) =
    rw (pair_not_empty name value, before-Without b'=' name value e, after-Without name value e)
      refl

-- A query that is written from names without `=` and `&` and values without `&` is read back as
-- these parameters, in their order.
pub parse_query-query :
    (ps : List (Bytes × Bytes)) → All IsPair ps → parse_query (query ps) ≡ map parsed ps
unfolding parse_query parse_pairs split
parse_query-query [] a = refl
parse_query-query (p ∷ []) (h, a) =
    ap parse_pairs (split_whole b'&' (pair p) (Without-pair p h)) ∙ parse_pair p [] h
parse_query-query (p ∷ q ∷ ps) (h, a) =
    ap parse_pairs (split-Without b'&' (pair p) (query (q ∷ ps)) (Without-pair p h))
    ∙ parse_pair p (split b'&' (query (q ∷ ps))) h
    ∙ ap (λ l. parsed p ∷ l) (parse_query-query (q ∷ ps) a)

behind_slash-Without : (last name : Bytes) → Without b'/' name → behind_slash last name ≡ last
unfolding behind_slash
behind_slash-Without last [] w = refl
behind_slash-Without last (c ∷ s) (ne, w) = ground (arith, behind_slash-Without last s w)

behind_slash-append :
    (last prefix name : Bytes)
    → Without b'/' name
    → behind_slash last (prefix ++ (b'/' ∷ name)) ≡ name
unfolding behind_slash
behind_slash-append last [] name w = behind_slash-Without name name w
behind_slash-append last (c ∷ s) name w =
    behind_slash-append (if c == b'/' then s ++ (b'/' ∷ name) else last) s name w

-- The type of a detail is what stands behind the last slash of its URL, and a URL without a slash
-- is its own type.
pub type_name_lem :
    (prefix name : Bytes)
    → Without b'/' name
    → (type_name (prefix ++ (b'/' ∷ name)) ≡ name) × (type_name name ≡ name)
unfolding type_name
type_name_lem prefix name w =
    (behind_slash-append (prefix ++ (b'/' ∷ name)) prefix name w, behind_slash-Without name name w)
