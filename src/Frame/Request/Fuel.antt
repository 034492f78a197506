-- ===== src/Frame/Request/Fuel.antt =====
-- The loop of countFrames ends (server.go: countFrames).
use easy_rpc_go.Base.{ℕ, zero, suc, ◌+◌, ◌≤◌, ◌≡◌, refl, arith, [], ◌∷◌, length, length-drop, drop}
use easy_rpc_go.Text.{Bytes}
use easy_rpc_go.Frame.{parse_header}
use easy_rpc_go.Frame.Request.{count_from, count_frames, count_from_nil}

shorter :
    (k : ℕ) (b : ℕ) (s : Bytes) (m : ℕ) → length (b ∷ s) ≤ suc m → length (drop (5 + k) (b ∷ s)) ≤ m
shorter k b s m h = omega (arith, h, length-drop (5 + k) (b ∷ s))

same_rounds :
    (m n : ℕ) (s : Bytes) (k : ℕ)
    → length s ≤ m
    → length s ≤ n
    → count_from m s k ≡ count_from n s k
unfolding count_from
same_rounds m n [] k h i = rw (count_from_nil m k, count_from_nil n k) refl
same_rounds zero n (b ∷ s) k h i = absurd (omega arith)
same_rounds (suc m) zero (b ∷ s) k h i = absurd (omega arith)
same_rounds (suc m) (suc n) (b ∷ s) k h i =
    rw
      (same_rounds m n (drop (5 + (parse_header (b ∷ s)).size) (b ∷ s)) (k + 1)
        (shorter (parse_header (b ∷ s)).size b s m h) (shorter (parse_header (b ∷ s)).size b s n i))
      refl

-- The loop of countFrames ends: with any number of rounds from the length of the body on it counts
-- the same as with that length.
pub count_from-count_frames :
    (fuel : ℕ) (body : Bytes) → length body ≤ fuel → count_from fuel body 0 ≡ count_frames body
unfolding count_frames
count_from-count_frames fuel body h = same_rounds fuel (length body) body 0 h (omega arith)
