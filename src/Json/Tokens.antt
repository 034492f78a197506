-- ===== src/Json/Tokens.antt =====
-- The tokens of a JSON text, and what encoding/json writes for them. Texts are escaped as Marshal
-- does it with HTML escaping on; bytes from 128 on pass as they are, which is what Marshal does
-- with valid UTF-8 other than U+2028 and U+2029.
use easy_rpc_go.Base.{
  ℕ, ◌+◌, ◌-◌, ◌/◌, ◌%◌, Bool, true, false, ◌||◌, List, [], ◌∷◌, ◌++◌, Option, none, some, ltb,
  ◌==◌, if◌then◌else◌,
}
use easy_rpc_go.Text.{Bytes, codes}
use easy_rpc_go.Json.{
  Json, null, bool, number, string, array, object, Items, nil, cons, Members, end, member,
}

-- A word is a number or one of `true`, `false` and `null`.
pub data Token : Type 0 where
  open_array close_array open_object close_object comma colon : Token
  str : Bytes → Token
  word : Bytes → Token

-- The tokens of a tree, in front of others.
abbrev mutual
  pub tokens : Json → List Token → List Token
  tokens null r = word (codes "null") ∷ r
  tokens (bool true) r = word (codes "true") ∷ r
  tokens (bool false) r = word (codes "false") ∷ r
  tokens (number n) r = word n ∷ r
  tokens (string s) r = str s ∷ r
  tokens (array nil) r = open_array ∷ close_array ∷ r
  tokens (array (cons x xs)) r = open_array ∷ tokens x (more_items xs r)
  tokens (object end) r = open_object ∷ close_object ∷ r
  tokens (object (member k v ms)) r = open_object ∷ str k ∷ colon ∷ tokens v (more_members ms r)

  pub more_items : Items → List Token → List Token
  more_items nil r = close_array ∷ r
  more_items (cons x xs) r = comma ∷ tokens x (more_items xs r)

  pub more_members : Members → List Token → List Token
  more_members end r = close_object ∷ r
  more_members (member k v ms) r = comma ∷ str k ∷ colon ∷ tokens v (more_members ms r)

-- The letter behind the backslash of a short escape.
unfoldable pub short_escape : ℕ → Option ℕ
short_escape c =
    if c == b'"'
    then some b'"'
    else if c == b'\\'
    then some b'\\'
    else if c == 8
    then some b'b'
    else if c == 12
    then some b'f'
    else if c == 10
    then some b'n'
    else if c == 13
    then some b'r'
    else if c == 9
    then some b't'
    else none

unfoldable pub hex_digit : ℕ → ℕ
hex_digit d = if ltb d 10 then b'0' + d else b'a' + d - 10

-- Control characters, and `<`, `>` and `&`.
unfoldable pub is_unsafe : ℕ → Bool
is_unsafe c = ltb c 32 || (c == b'<') || (c == b'>') || (c == b'&')

unfoldable pub escape_other : ℕ → Bytes
escape_other c =
    if is_unsafe c
    then b'\\' ∷ b'u' ∷ b'0' ∷ b'0' ∷ hex_digit (c / 16) ∷ hex_digit (c % 16) ∷ []
    else c ∷ []

abbrev pub escape_with : Option ℕ → ℕ → Bytes
escape_with (some x) c = b'\\' ∷ x ∷ []
escape_with none c = escape_other c

unfoldable pub escape : Bytes → Bytes
unfolding short_escape escape_other
escape [] = []
escape (c ∷ s) = escape_with (short_escape c) c ++ escape s

unfoldable pub spell : List Token → Bytes
unfolding escape
spell [] = []
spell (open_array ∷ ts) = b'[' ∷ spell ts
spell (close_array ∷ ts) = b']' ∷ spell ts
spell (open_object ∷ ts) = b'{' ∷ spell ts
spell (close_object ∷ ts) = b'}' ∷ spell ts
spell (comma ∷ ts) = b',' ∷ spell ts
spell (colon ∷ ts) = b':' ∷ spell ts
spell (str s ∷ ts) = b'"' ∷ escape s ++ b'"' ∷ spell ts
spell (word s ∷ ts) = s ++ spell ts
