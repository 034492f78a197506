-- ===== src/Json.antt =====
-- JSON documents (encoding/json), as trees, and the text codec that `json.Marshal` and
-- `json.Unmarshal` go through.
pub mod Tokens
pub mod Lexer
pub mod Parser
pub mod Codec
use easy_rpc_go.Base.{ℕ, ◌<◌, ◌≡◌, ◌≢◌, Bool, List, [], ◌∷◌, Option, none, some, All}
use easy_rpc_go.Text.{Bytes}

mutual
  pub data Json : Type 0 where
    null : Json
    bool : Bool → Json
    number : Bytes → Json
    string : Bytes → Json
    array : Items → Json
    object : Members → Json

  pub data Items : Type 0 where
    nil : Items
    cons : Json → Items → Items

  pub data Members : Type 0 where
    end : Members
    member : Bytes → Json → Members → Members

-- A text that Marshal does not change: here, of ASCII.
abbrev pub IsPlain : Bytes → Type 0
IsPlain = All (λ c. c < 128)

-- Trees of objects, arrays and strings, all of plain text: what the package marshals.
abbrev mutual
  pub Marshals : Json → Type 0
  Marshals null = ⊥
  Marshals (bool b) = ⊥
  Marshals (number n) = ⊥
  Marshals (string s) = IsPlain s
  Marshals (array xs) = MarshalsItems xs
  Marshals (object ms) = MarshalsMembers ms

  pub MarshalsItems : Items → Type 0
  MarshalsItems nil = Unit
  MarshalsItems (cons x xs) = Marshals x × MarshalsItems xs

  pub MarshalsMembers : Members → Type 0
  MarshalsMembers end = Unit
  MarshalsMembers (member k v ms) = IsPlain k × (Marshals v × MarshalsMembers ms)

-- `json.Marshal` and the syntax part of `json.Unmarshal`, between trees and bytes. Documented: what
-- was marshalled is read back, and no document is the empty text.
pub record JsonText : Type 0 where
  pub print : Json → Bytes
  pub parse : Bytes → Option Json
  pub parse-print : (v : Json) → Marshals v → parse (print v) ≡ some v
  pub print-ne-nil : (v : Json) → Marshals v → print v ≢ []
