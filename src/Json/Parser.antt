-- ===== src/Json/Parser.antt =====
-- The tokens of a document, read back as a tree: what the scanner of encoding/json accepts.
use easy_rpc_go.Base.{
  ℕ, zero, suc, ◌+◌, ◌≤◌, ◌≡◌, refl, arith, true, false, List, ◌∷◌, Option, none, some, length,
  if◌then◌else◌,
}
use easy_rpc_go.Base.Options.{◌>>=◌}
use easy_rpc_go.Text.{Bytes, codes, eq_text}
use easy_rpc_go.Json.{
  Json, null, bool, number, string, array, object, Items, nil, cons, Members, end, member, Marshals,
  MarshalsItems, MarshalsMembers,
}
use easy_rpc_go.Json.Tokens.{
  Token, open_array, close_array, open_object, close_object, comma, colon, str, word, tokens,
  more_items, more_members,
}

abbrev pub Parser : Type 0 → Type 0
Parser A = List Token → Option (A × List Token)

-- A literal, or a number that the lexer has checked.
unfoldable pub word_value : Bytes → Json
word_value s =
    if eq_text s (codes "null")
    then null
    else if eq_text s (codes "true")
    then bool true
    else if eq_text s (codes "false")
    then bool false
    else number s

-- The rest of an array behind an element, with the parser of elements and a bound on their number.
unfoldable pub items_after : Parser Json → ℕ → Parser Items
items_after value zero ts = none
items_after value (suc n) (close_array ∷ ts) = some (nil, ts)
items_after value (suc n) (comma ∷ ts) = do
  (x, r) ← value ts
  (xs, q) ← items_after value n r
  some (cons x xs, q)
items_after value (suc n) ts = none

unfoldable pub members_after : Parser Json → ℕ → Parser Members
members_after value zero ts = none
members_after value (suc n) (close_object ∷ ts) = some (end, ts)
members_after value (suc n) (comma ∷ str k ∷ colon ∷ ts) = do
  (v, r) ← value ts
  (ms, q) ← members_after value n r
  some (member k v ms, q)
members_after value (suc n) ts = none

-- What stands behind a bracket that closes an array.
abbrev close_of : List Token → Option (List Token)
close_of (close_array ∷ ts) = some ts
close_of ts = none

-- A value, with a bound on the depth and on the length of each array and object.
unfoldable pub parse_value : ℕ → Parser Json
unfolding items_after members_after word_value
parse_value zero ts = none
parse_value (suc n) (str s ∷ ts) = some (string s, ts)
parse_value (suc n) (word s ∷ ts) = some (word_value s, ts)
parse_value (suc n) (open_array ∷ ts) = elim (close_of ts) [
  | some r ↦ some (array nil, r)
  | none ↦ do
    (x, r) ← parse_value n ts
    (xs, q) ← items_after (parse_value n) n r
    some (array (cons x xs), q)
]
parse_value (suc n) (open_object ∷ close_object ∷ ts) = some (object end, ts)
parse_value (suc n) (open_object ∷ str k ∷ colon ∷ ts) = do
  (v, r) ← parse_value n ts
  (ms, q) ← members_after (parse_value n) n r
  some (object (member k v ms), q)
parse_value (suc n) ts = none

-- A bound for the parser.
abbrev mutual
  pub size : Json → ℕ
  size null = 1
  size (bool b) = 1
  size (number n) = 1
  size (string s) = 1
  size (array nil) = 1
  size (array (cons x xs)) = suc (size x + size_items xs)
  size (object end) = 1
  size (object (member k v ms)) = suc (size v + size_members ms)

  size_items : Items → ℕ
  size_items nil = 1
  size_items (cons x xs) = suc (size x + size_items xs)

  size_members : Members → ℕ
  size_members end = 1
  size_members (member k v ms) = suc (size v + size_members ms)

close_of-tokens : (v : Json) (r : List Token) → close_of (tokens v r) ≡ none
close_of-tokens null r = refl
close_of-tokens (bool true) r = refl
close_of-tokens (bool false) r = refl
close_of-tokens (number n) r = refl
close_of-tokens (string s) r = refl
close_of-tokens (array nil) r = refl
close_of-tokens (array (cons x xs)) r = refl
close_of-tokens (object end) r = refl
close_of-tokens (object (member k v ms)) r = refl

mutual
  unfolding parse_value items_after members_after

  -- The parser reads back the tokens of a tree, and leaves what stands behind them.
  pub parse_value-tokens :
      (v : Json) (n : ℕ) (r : List Token)
      → Marshals v
      → size v ≤ n
      → parse_value n (tokens v r) ≡ some (v, r)
  parse_value-tokens (string s) (suc n) r h k = refl
  parse_value-tokens (array nil) (suc n) r h k = refl
  parse_value-tokens (array (cons x xs)) (suc n) r (hx, h) k =
      rw
        (
          close_of-tokens x (more_items xs r),
          parse_value-tokens x n (more_items xs r) hx (omega arith),
          items_after-tokens xs n n r h (omega arith) (omega arith),
        )
        refl
  parse_value-tokens (object end) (suc n) r h k = refl
  parse_value-tokens (object (member key v ms)) (suc n) r (hk, (hv, h)) k =
      rw
        (
          parse_value-tokens v n (more_members ms r) hv (omega arith),
          members_after-tokens ms n n r h (omega arith) (omega arith),
        )
        refl
  parse_value-tokens null n r h k = absurd h
  parse_value-tokens (bool b) n r h k = absurd h
  parse_value-tokens (number s) n r h k = absurd h
  parse_value-tokens (string s) zero r h k = absurd (omega arith)
  parse_value-tokens (array nil) zero r h k = absurd (omega arith)
  parse_value-tokens (array (cons x xs)) zero r h k = absurd (omega arith)
  parse_value-tokens (object end) zero r h k = absurd (omega arith)
  parse_value-tokens (object (member key v ms)) zero r h k = absurd (omega arith)

  items_after-tokens :
      (xs : Items) (n m : ℕ) (r : List Token)
      → MarshalsItems xs
      → size_items xs ≤ n
      → size_items xs ≤ m
      → items_after (parse_value n) m (more_items xs r) ≡ some (xs, r)
  items_after-tokens nil n zero r h k l = absurd (omega arith)
  items_after-tokens nil n (suc m) r h k l = refl
  items_after-tokens (cons x xs) n zero r h k l = absurd (omega arith)
  items_after-tokens (cons x xs) n (suc m) r (hx, h) k l =
      rw
        (
          parse_value-tokens x n (more_items xs r) hx (omega arith),
          items_after-tokens xs n m r h (omega arith) (omega arith),
        )
        refl

  members_after-tokens :
      (ms : Members) (n m : ℕ) (r : List Token)
      → MarshalsMembers ms
      → size_members ms ≤ n
      → size_members ms ≤ m
      → members_after (parse_value n) m (more_members ms r) ≡ some (ms, r)
  members_after-tokens end n zero r h k l = absurd (omega arith)
  members_after-tokens end n (suc m) r h k l = refl
  members_after-tokens (member key v ms) n zero r h k l = absurd (omega arith)
  members_after-tokens (member key v ms) n (suc m) r (hk, (hv, h)) k l =
      rw
        (
          parse_value-tokens v n (more_members ms r) hv (omega arith),
          members_after-tokens ms n m r h (omega arith) (omega arith),
        )
        refl

mutual
  pub tokens_size : (v : Json) (r : List Token) → size v + length r ≤ length (tokens v r)
  tokens_size null r = omega arith
  tokens_size (bool true) r = omega arith
  tokens_size (bool false) r = omega arith
  tokens_size (number n) r = omega arith
  tokens_size (string s) r = omega arith
  tokens_size (array nil) r = omega arith
  tokens_size (array (cons x xs)) r =
      omega (arith, tokens_size x (more_items xs r), items_size xs r)
  tokens_size (object end) r = omega arith
  tokens_size (object (member k v ms)) r =
      omega (arith, tokens_size v (more_members ms r), members_size ms r)

  items_size : (xs : Items) (r : List Token) → size_items xs + length r ≤ length (more_items xs r)
  items_size nil r = omega arith
  items_size (cons x xs) r = omega (arith, tokens_size x (more_items xs r), items_size xs r)

  members_size :
      (ms : Members) (r : List Token) → size_members ms + length r ≤ length (more_members ms r)
  members_size end r = omega arith
  members_size (member k v ms) r =
      omega (arith, tokens_size v (more_members ms r), members_size ms r)
