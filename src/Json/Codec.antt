-- ===== src/Json/Codec.antt =====
-- The text codec that stands for json.Marshal and the syntax part of json.Unmarshal.
use easy_rpc_go.Base.{◌≡◌, ◌≢◌, refl, arith, List, [], ◌∷◌, Option, none, some, length, All}
use easy_rpc_go.Base.Options.{◌>>=◌}
use easy_rpc_go.Text.{Bytes}
use easy_rpc_go.Json.{
  Json, null, bool, number, string, array, object, Items, nil, cons, Members, end, member, Marshals,
  MarshalsItems, MarshalsMembers, JsonText,
}
use easy_rpc_go.Json.Tokens.{Token, tokens, more_items, more_members, spell}
use easy_rpc_go.Json.Lexer.{between, lex, IsClean, lex-spell}
use easy_rpc_go.Json.Parser.{parse_value, parse_value-tokens, tokens_size}

unfoldable pub print_text : Json → Bytes
unfolding spell
print_text v = spell (tokens v [])

-- A document is one value, and nothing behind it.
abbrev pub whole : Json × List Token → Option Json
whole (v, []) = some v
whole (v, t ∷ ts) = none

unfoldable pub parse_text : Bytes → Option Json
unfolding lex parse_value
parse_text s = do ts ← lex between s; r ← parse_value (length ts) ts; whole r

mutual
  tokens-IsClean :
      (v : Json) (r : List Token) → Marshals v → All IsClean r → All IsClean (tokens v r)
  tokens-IsClean null r h k = absurd h
  tokens-IsClean (bool b) r h k = absurd h
  tokens-IsClean (number n) r h k = absurd h
  tokens-IsClean (string s) r h k = (h, k)
  tokens-IsClean (array nil) r h k = (tt, (tt, k))
  tokens-IsClean (array (cons x xs)) r (hx, h) k =
      (tt, tokens-IsClean x (more_items xs r) hx (items-IsClean xs r h k))
  tokens-IsClean (object end) r h k = (tt, (tt, k))
  tokens-IsClean (object (member key v ms)) r (hk, (hv, h)) k =
      (tt, (hk, (tt, tokens-IsClean v (more_members ms r) hv (members-IsClean ms r h k))))

  items-IsClean :
      (xs : Items) (r : List Token)
      → MarshalsItems xs
      → All IsClean r
      → All IsClean (more_items xs r)
  items-IsClean nil r h k = (tt, k)
  items-IsClean (cons x xs) r (hx, h) k =
      (tt, tokens-IsClean x (more_items xs r) hx (items-IsClean xs r h k))

  members-IsClean :
      (ms : Members) (r : List Token)
      → MarshalsMembers ms
      → All IsClean r
      → All IsClean (more_members ms r)
  members-IsClean end r h k = (tt, k)
  members-IsClean (member key v ms) r (hk, (hv, h)) k =
      (tt, (hk, (tt, tokens-IsClean v (more_members ms r) hv (members-IsClean ms r h k))))

pub parse_text-print_text : (v : Json) → Marshals v → parse_text (print_text v) ≡ some v
unfolding parse_text print_text
parse_text-print_text v h =
    rw
      (
        lex-spell (tokens v []) (tokens-IsClean v [] h tt),
        parse_value-tokens v (length (tokens v [])) [] h (omega (arith, tokens_size v [])),
      )
      refl

pub print_text-ne-nil : (v : Json) → Marshals v → print_text v ≢ []
unfolding print_text
print_text-ne-nil null h = absurd h
print_text-ne-nil (bool b) h = absurd h
print_text-ne-nil (number n) h = absurd h
print_text-ne-nil (string s) h = λ e. cc e
print_text-ne-nil (array nil) h = λ e. cc e
print_text-ne-nil (array (cons x xs)) h = λ e. cc e
print_text-ne-nil (object end) h = λ e. cc e
print_text-ne-nil (object (member k v ms)) h = λ e. cc e

abbrev pub json_text : JsonText
json_text = record {
  print = print_text;
  parse = parse_text;
  parse-print = parse_text-print_text;
  print-ne-nil = print_text-ne-nil;
}
