-- ===== src/Code/Names.antt =====
-- Names of codes and codes of names.
use mathlib.Core.List.{Permᴰ}
use easy_rpc_go.Base.{
  ℕ, All, Bool-cases, ◌<◌, ◌≤◌, ◌≢◌, ◌≡◌, refl, sym, ap, ◌∙◌, ◌⊎◌, inl, inr, arith, ◌==◌, ==_iff,
  if◌then◌else◌, true, List, [], ◌∷◌, holds_below, holds_below-true,
}
use native.Mathlib.Decide.{dec_lt}
use easy_rpc_go.Base.Distinct.{Distinct, Distinct-perm}
use easy_rpc_go.Base.Int.{ℤ, pos, negsuc}
use easy_rpc_go.Text.{Bytes, codes, eq_text}
use easy_rpc_go.Text.Laws.{eq_text_iff}
use easy_rpc_go.Code.{code_names, name_in, code_to_string, code_in, code_from_string}

round_trip_table : holds_below (λ c. code_from_string (code_to_string (pos c)) == c) 17 ≡ true
unfolding holds_below code_from_string code_to_string
round_trip_table = refl

-- Each of the seventeen codes survives the way to its name and back.
pub code_from_string-code_to_string :
    (c : ℕ) → c < 17 → code_from_string (code_to_string (pos c)) ≡ c
code_from_string-code_to_string c h = (==_iff _ c).0 (holds_below-true _ 17 c round_trip_table h)

name_in_above : (c : ℕ) → 16 < c → name_in code_names c ≡ codes "unknown"
unfolding name_in
name_in_above c h = ground arith

unknown_name :
    (c : ℕ) → name_in code_names c ≡ codes "unknown" → code_in code_names (name_in code_names c) ≡ 2
unknown_name c e = rw e (unfold code_in in refl)

outside :
    (c : ℕ)
    → 16 < c
    → (code_to_string (pos c) ≡ codes "unknown") × (code_from_string (code_to_string (pos c)) ≡ 2)
unfolding code_to_string code_from_string
outside c h = (name_in_above c h, unknown_name c (name_in_above c h))

-- Every code, also one outside the table or below zero, is sent as a name that the peer reads back
-- as the code itself, or it is sent as unknown and read as 2.
pub code_to_string_total :
    (c : ℤ)
    → (c ≡ pos (code_from_string (code_to_string c)))
      ⊎ ((code_to_string c ≡ codes "unknown") × (code_from_string (code_to_string c) ≡ 2))
code_to_string_total (pos c) = elim (dec_lt c 17) [
  | yes h ↦ inl (ap pos (sym (code_from_string-code_to_string c h)))
  | no h ↦ inr (outside c (omega arith))
]
code_to_string_total (negsuc c) = unfold code_to_string code_from_string in inr (refl, refl)

-- A code of Connect, or ok, whose name leads back to it.
abbrev pub IsNamed : ℤ → Type 0
IsNamed c = (n : ℕ) × (c ≡ pos n) × (n ≤ 16) × (code_from_string (code_to_string c) ≡ n)

-- Any other number, which is sent as unknown and comes back as 2.
abbrev pub IsUnnamed : ℤ → Type 0
IsUnnamed c =
    (¬ ((n : ℕ) × (n ≤ 16) × (c ≡ pos n)))
    × (code_to_string c ≡ codes "unknown")
    × (code_from_string (code_to_string c) ≡ 2)

IsNamed-or_not : (c : ℤ) → IsNamed c ⊎ IsUnnamed c
IsNamed-or_not (pos c) = elim (dec_lt c 17) [
  | yes h ↦ inl (c, refl, omega arith, code_from_string-code_to_string c h)
  | no h ↦
      let (name, read) = outside c (omega arith) in
      inr ((λ (n, small, e). grind (arith, h, e)), name, read)
]
IsNamed-or_not (negsuc c) =
    unfold code_to_string code_from_string in inr ((λ (n, small, e). cc e), refl, refl)

abbrev NamesItself : ℕ × Bytes → Type 0
NamesItself e = code_to_string (pos e.0) ≡ e.1

code_in_table :
    (names : List (ℕ × Bytes)) (s : Bytes)
    → All NamesItself names
    → (code_to_string (pos (code_in names s)) ≡ s) ⊎ (code_in names s ≡ 2)
unfolding code_in
code_in_table [] s h = inr refl
code_in_table ((c, t) ∷ names) s (named, h) = elim (Bool-cases (eq_text t s)) [
  | inl same ↦ rw same (inl (named ∙ (eq_text_iff t s).0 same))
  | inr other ↦ rw other (code_in_table names s h)
]

table_named : All NamesItself code_names
unfolding code_to_string
table_named = search (tt)

not_named :
    (s : Bytes)
    → code_to_string (pos (code_from_string s)) ≢ s
    → ¬ ((n : ℕ) × (n ≤ 16) × (code_to_string (pos n) ≡ s))
not_named s other (n, small, e) =
    let back : n ≡ code_from_string s =
      sym (code_from_string-code_to_string n (omega arith)) ∙ ap code_from_string e in
    other (ap (λ c. code_to_string (pos c)) (sym back) ∙ e)

read_name :
    (s : Bytes)
    → (code_to_string (pos (code_from_string s)) ≡ s)
      ⊎ ((¬ ((n : ℕ) × (n ≤ 16) × (code_to_string (pos n) ≡ s))) × (code_from_string s ≡ 2))
read_name s = elim (Bool-cases (eq_text (code_to_string (pos (code_from_string s))) s)) [
  | inl same ↦ inl ((eq_text_iff _ s).0 same)
  | inr differ ↦ elim (code_in_table code_names s table_named) [
    | inl same ↦ inl (unfold code_from_string in same)
    | inr two ↦ inr (
      not_named s (λ e.
          ground (arith, differ, e, eq_text_iff (code_to_string (pos (code_from_string s))) s)),
      unfold code_from_string in two,
    )
  ]
]

-- The two functions on codes and names are inverse to each other on the codes 0 to 16: each of
-- these has a name that leads back to it, and every other number, also one below zero, is sent as
-- unknown and comes back as 2; a text is the name of the code that it is read as, or it is the name
-- of no code from 0 to 16 and is read as 2.
pub code_names_exact :
    (c : ℤ) (s : Bytes)
    → (IsNamed c ⊎ IsUnnamed c)
      × ((code_to_string (pos (code_from_string s)) ≡ s)
          ⊎ ((¬ ((n : ℕ) × (n ≤ 16) × (code_to_string (pos n) ≡ s))) × (code_from_string s ≡ 2)))
code_names_exact c s = (IsNamed-or_not c, read_name s)

-- The order in which range meets the entries of a table with distinct names does not matter to the
-- code that is found for a name.
pub code_in-perm :
    {names names' : List (ℕ × Bytes)} (s : Bytes)
    → Permᴰ names names'
    → Distinct (λ (e : ℕ × Bytes). e.1) names
    → code_in names s ≡ code_in names' s
unfolding code_in
code_in-perm s Permᴰ.nil d = refl
code_in-perm s (Permᴰ.cons {a} {b} {l₁} {l₂} e p) (fresh, d) =
    rw e (ap (λ r. if eq_text b.1 s then b.0 else r) (code_in-perm s p d))
code_in-perm s (Permᴰ.swap {a} {b} {a'} {b'} {l} e f) ((ne, _), (_, d)) =
    rw (e, f) (ground (arith, eq_text_iff b'.1 s, eq_text_iff a'.1 s))
code_in-perm s (Permᴰ.trans p q) d = code_in-perm s p d ∙ code_in-perm s q (Distinct-perm _ p d)
