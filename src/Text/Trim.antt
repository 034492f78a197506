-- ===== src/Text/Trim.antt =====
-- What is left of a text without the white space around it, in lower case, and before a separator.
use easy_rpc_go.Base.{
  ℕ, ◌≡◌, ◌≢◌, refl, sym, ap, ◌∙◌, ◌↔◌, ◌⊎◌, inl, inr, arith, true, [], ◌∷◌, ◌++◌, All, Bool-cases,
  ◌==◌, ==_iff,
}
use mathlib.Core.Path.{subst}
use easy_rpc_go.Text.{
  Bytes, to_lower, lower_byte, is_space, trim_left, trim_step, trim_right, trim_space, before,
}
use easy_rpc_go.Text.Laws.{to_lower-append}

abbrev pub AllSpace : Bytes → Type 0
AllSpace s = All (λ c. is_space c ≡ true) s

-- The word, in any case, with white space around it or without.
abbrev pub Spells : Bytes → Bytes → Type 0
Spells s word =
    (front : Bytes) × (mid : Bytes) × (back : Bytes) × (s ≡ front ++ (mid ++ back))
    × AllSpace front
    × AllSpace back
    × (to_lower mid ≡ word)

space-lower : (c : ℕ) → is_space (lower_byte c) ≡ is_space c
unfolding is_space lower_byte
space-lower c = ground arith

trim_left-lower : (s : Bytes) → trim_left (to_lower s) ≡ to_lower (trim_left s)
unfolding trim_left to_lower
trim_left-lower [] = refl
trim_left-lower (c ∷ s) = elim (Bool-cases (is_space c)) [
  | inl space ↦ rw (space-lower c, space) (trim_left-lower s)
  | inr other ↦ rw (space-lower c, other) refl
]

trim_step-lower :
    (c : ℕ) (s : Bytes)
    → trim_step is_space (lower_byte c) (to_lower s) ≡ to_lower (trim_step is_space c s)
unfolding trim_step to_lower
trim_step-lower c [] = elim (Bool-cases (is_space c)) [
  | inl space ↦ rw (space-lower c, space) refl
  | inr other ↦ rw (space-lower c, other) refl
]
trim_step-lower c (d ∷ s) = refl

trim_right-lower : (s : Bytes) → trim_right is_space (to_lower s) ≡ to_lower (trim_right is_space s)
unfolding trim_right to_lower
trim_right-lower [] = refl
trim_right-lower (c ∷ s) =
    ap (trim_step is_space (lower_byte c)) (trim_right-lower s)
    ∙ trim_step-lower c (trim_right is_space s)

-- Trimming and lowering commute.
pub trim_space-to_lower : (s : Bytes) → trim_space (to_lower s) ≡ to_lower (trim_space s)
unfolding trim_space
trim_space-to_lower s =
    ap (trim_right is_space) (trim_left-lower s) ∙ trim_right-lower (trim_left s)

left_cut : (s : Bytes) → (front : Bytes) × (s ≡ front ++ trim_left s) × AllSpace front
unfolding trim_left
left_cut [] = ([], refl, tt)
left_cut (c ∷ s) = elim (Bool-cases (is_space c)) [
  | inl space ↦
      let (front, e, white) = left_cut s in rw space (c ∷ front, ap (λ r. c ∷ r) e, (space, white))
  | inr other ↦ rw other ([], refl, tt)
]

step_cut :
    (c : ℕ) (s back : Bytes)
    → AllSpace back
    → (rest : Bytes) × (c ∷ (s ++ back) ≡ trim_step is_space c s ++ rest) × AllSpace rest
unfolding trim_step
step_cut c [] back white = elim (Bool-cases (is_space c)) [
  | inl space ↦ rw space (c ∷ back, refl, (space, white))
  | inr other ↦ rw other (back, refl, white)
]
step_cut c (d ∷ s) back white = (back, refl, white)

right_cut : (s : Bytes) → (back : Bytes) × (s ≡ trim_right is_space s ++ back) × AllSpace back
unfolding trim_right
right_cut [] = ([], refl, tt)
right_cut (c ∷ s) =
    let (back, e, white) = right_cut s in
    let (rest, f, white_r) = step_cut c (trim_right is_space s) back white in
    (rest, ap (λ r. c ∷ r) e ∙ f, white_r)

AllSpace-lower : (s : Bytes) → AllSpace s → AllSpace (to_lower s)
unfolding to_lower
AllSpace-lower [] h = tt
AllSpace-lower (c ∷ s) (space, h) = (space-lower c ∙ space, AllSpace-lower s h)

trim_left-front : (front s : Bytes) → AllSpace front → trim_left (front ++ s) ≡ trim_left s
unfolding trim_left
trim_left-front [] s h = refl
trim_left-front (c ∷ front) s (space, h) = rw space (trim_left-front front s h)

trim_left-white : (s : Bytes) → AllSpace s → trim_left s ≡ []
unfolding trim_left
trim_left-white [] h = refl
trim_left-white (c ∷ s) (space, h) = rw space (trim_left-white s h)

trim_right-white : (s : Bytes) → AllSpace s → trim_right is_space s ≡ []
unfolding trim_right trim_step
trim_right-white [] h = refl
trim_right-white (c ∷ s) (space, h) = rw (trim_right-white s h, space) refl

trim_right-back :
    (s back : Bytes) → AllSpace back → trim_right is_space (s ++ back) ≡ trim_right is_space s
unfolding trim_right
trim_right-back [] back h = trim_right-white back h
trim_right-back (c ∷ s) back h = ap (trim_step is_space c) (trim_right-back s back h)

trim_space-back : (s back : Bytes) → AllSpace back → trim_space (s ++ back) ≡ trim_space s
unfolding trim_space trim_left
trim_space-back [] back h = ap (trim_right is_space) (trim_left-white back h)
trim_space-back (c ∷ s) back h = elim (Bool-cases (is_space c)) [
  | inl space ↦ rw space (trim_space-back s back h)
  | inr other ↦ rw other (trim_right-back (c ∷ s) back h)
]

trimmed-Spells : (s word : Bytes) → trim_space (to_lower s) ≡ word → Spells s word
unfolding trim_space
trimmed-Spells s word e =
    let (front, cut_l, white_l) = left_cut s in
    let (back, cut_r, white_r) = right_cut (trim_left s) in
    (
      front,
      trim_space s,
      back,
      cut_l ∙ ap (λ r. front ++ r) cut_r,
      white_l,
      white_r,
      sym (trim_space-to_lower s) ∙ e,
    )

trim_space-front : (front s : Bytes) → AllSpace front → trim_space (front ++ s) ≡ trim_space s
unfolding trim_space
trim_space-front front s h = ap (trim_right is_space) (trim_left-front front s h)

Spells-trimmed :
    (s word : Bytes) → trim_space word ≡ word → Spells s word → trim_space (to_lower s) ≡ word
Spells-trimmed s word tight (front, mid, back, cut, white_l, white_r, lower) =
    ap trim_space (
      ap to_lower cut
      ∙ to_lower-append front (mid ++ back)
      ∙ ap (λ r. to_lower front ++ r) (to_lower-append mid back))
    ∙ trim_space-front (to_lower front) (to_lower mid ++ to_lower back)
        (AllSpace-lower front white_l)
    ∙ trim_space-back (to_lower mid) (to_lower back) (AllSpace-lower back white_r)
    ∙ ap trim_space lower
    ∙ tight

-- A text, trimmed and in lower case, is a word without white space around it exactly if it spells
-- the word.
pub trimmed_iff :
    (s word : Bytes) → trim_space word ≡ word → (trim_space (to_lower s) ≡ word) ↔ Spells s word
trimmed_iff s word tight = (trimmed-Spells s word, Spells-trimmed s word tight)

-- The text up to the first separator, or all of it.
abbrev pub IsCut : ℕ → Bytes → Bytes → Type 0
IsCut sep s head =
    All (λ c. c ≢ sep) head × ((s ≡ head) ⊎ ((tail : Bytes) × (s ≡ head ++ sep ∷ tail)))

later-IsCut :
    (sep c : ℕ) (s head : Bytes) → c ≢ sep → IsCut sep s head → IsCut sep (c ∷ s) (c ∷ head)
later-IsCut sep c s head ne (h, inl e) = ((ne, h), inl (ap (λ r. c ∷ r) e))
later-IsCut sep c s head ne (h, inr (tail, e)) = ((ne, h), inr (tail, ap (λ r. c ∷ r) e))

before-IsCut : (sep : ℕ) (s : Bytes) → IsCut sep s (before sep s)
unfolding before
before-IsCut sep [] = (tt, inl refl)
before-IsCut sep (c ∷ s) = elim (Bool-cases (c == sep)) [
  | inl same ↦ rw same (tt, inr (s, ap (λ b. b ∷ s) ((==_iff c sep).0 same)))
  | inr other ↦
      rw other
        (later-IsCut sep c s (before sep s) (λ e. grind (arith, other, e)) (before-IsCut sep s))
]

IsCut-before : (sep : ℕ) (s head : Bytes) → IsCut sep s head → before sep s ≡ head
unfolding before
IsCut-before sep [] [] h = refl
IsCut-before sep [] (d ∷ head) (h, inl e) = cc e
IsCut-before sep [] (d ∷ head) (h, inr (tail, e)) = cc e
IsCut-before sep (c ∷ s) [] (h, inl e) = cc e
IsCut-before sep (c ∷ s) [] (h, inr (tail, e)) = let same : c ≡ sep = cc e in ground (arith, same)
IsCut-before sep (c ∷ s) (d ∷ head) ((ne, h), inl e) =
    let first : c ≡ d = cc e in
    let rest : s ≡ head = cc e in ground (arith, first, IsCut-before sep s head (h, inl rest))
IsCut-before sep (c ∷ s) (d ∷ head) ((ne, h), inr (tail, e)) =
    let first : c ≡ d = cc e in
    let rest : s ≡ head ++ sep ∷ tail = cc e in
    ground (arith, first, IsCut-before sep s head (h, inr (tail, rest)))

pub before_iff : (sep : ℕ) (s head : Bytes) → (before sep s ≡ head) ↔ IsCut sep s head
before_iff sep s head = (λ e. subst (IsCut sep s) e (before-IsCut sep s), IsCut-before sep s head)
