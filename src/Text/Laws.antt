-- ===== src/Text/Laws.antt =====
-- Laws of the string functions.
use easy_rpc_go.Base.{
  ℕ, ◌≡◌, refl, ap, ◌↔◌, Bool, true, false, [], ◌∷◌, ◌++◌, length, drop, arith, ◌==◌,
}
use easy_rpc_go.Text.{
  Bytes, eq_text, lower_byte, upper_byte, to_lower, equal_fold, has_prefix, canonical_from,
  canonical_header_key,
}

pub eq_text_iff : (s t : Bytes) → (eq_text s t ≡ true) ↔ (s ≡ t)
unfolding eq_text
eq_text_iff [] [] = ground arith
eq_text_iff [] (b ∷ t) = ground arith
eq_text_iff (a ∷ s) [] = ground arith
eq_text_iff (a ∷ s) (b ∷ t) = ground (arith, eq_text_iff s t)

pub eq_text_refl : (s : Bytes) → eq_text s s ≡ true
eq_text_refl s = (eq_text_iff s s).1 refl

pub lower_byte_idem : (c : ℕ) → lower_byte (lower_byte c) ≡ lower_byte c
unfolding lower_byte
lower_byte_idem c = ground arith

pub to_lower_idem : (s : Bytes) → to_lower (to_lower s) ≡ to_lower s
unfolding to_lower
to_lower_idem [] = refl
to_lower_idem (c ∷ s) = cc (lower_byte_idem c, to_lower_idem s)

pub to_lower-append : (s t : Bytes) → to_lower (s ++ t) ≡ to_lower s ++ to_lower t
unfolding to_lower
to_lower-append [] t = refl
to_lower-append (c ∷ s) t = ap (λ r. lower_byte c ∷ r) (to_lower-append s t)

pub has_prefix-append : (p s : Bytes) → has_prefix (p ++ s) p ≡ true
unfolding has_prefix
has_prefix-append [] s = refl
has_prefix-append (a ∷ p) s = ground (arith, has_prefix-append p s)

-- A prefix that is there can be cut off and put back.
pub has_prefix_restore : (s p : Bytes) → has_prefix s p ≡ true → p ++ drop (length p) s ≡ s
unfolding has_prefix
has_prefix_restore s [] h = refl
has_prefix_restore [] (b ∷ p) h = cc
has_prefix_restore (a ∷ s) (b ∷ p) h = ground (arith, has_prefix_restore s p)

lower-upper : (c : ℕ) → lower_byte (upper_byte c) ≡ lower_byte c
unfolding lower_byte upper_byte
lower-upper c = ground arith

to_lower-canonical_from : (u : Bool) (s : Bytes) → to_lower (canonical_from u s) ≡ to_lower s
unfolding to_lower canonical_from
to_lower-canonical_from u [] = refl
to_lower-canonical_from true (c ∷ s) = cc (lower-upper c, to_lower-canonical_from (c == b'-') s)
to_lower-canonical_from false (c ∷ s) =
    cc (lower_byte_idem c, to_lower-canonical_from (c == b'-') s)

-- The canonical form of a name differs from it in case alone.
pub to_lower-canonical : (s : Bytes) → to_lower (canonical_header_key s) ≡ to_lower s
unfolding canonical_header_key
to_lower-canonical s = ground (arith, to_lower-canonical_from true s)

pub equal_fold_iff : (s t : Bytes) → (equal_fold s t ≡ true) ↔ (to_lower s ≡ to_lower t)
unfolding equal_fold
equal_fold_iff s t = eq_text_iff (to_lower s) (to_lower t)
