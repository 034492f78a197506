-- ===== src/Base/Distinct.antt =====
-- Lists whose elements differ in a key, in any order: the entries of a Go map, as `range` meets
-- them.
use mathlib.Core.Path.{sym, subst, ◌∙◌, ap}
use mathlib.Core.Logic.{◌≢◌}
use mathlib.Core.List.{List, [], ◌∷◌, ◌++◌, map, Permᴰ}
use easy_rpc_go.Base.Lists.{All, All-append, All_left}

module _ {ℓ κ} {A : Type ℓ} (P : A → Type κ) where
  pub All-perm : {xs ys : List A} → Permᴰ xs ys → All P xs → All P ys
  All-perm Permᴰ.nil h = h
  All-perm (Permᴰ.cons e p) (px, h) = (subst P e px, All-perm p h)
  All-perm (Permᴰ.swap e f) (pa, (pb, h)) = (subst P f pb, (subst P e pa, h))
  All-perm (Permᴰ.trans p q) h = All-perm q (All-perm p h)

module _ {ℓ κ} {A : Type ℓ} {K : Type κ} (key : A → K) where
  -- No two elements have the same key.
  abbrev pub Distinct : List A → Type (ℓ ⊔ κ)
  Distinct [] = Unit
  Distinct (x ∷ xs) = All (λ y. key x ≢ key y) xs × Distinct xs

  pub Distinct-perm : {xs ys : List A} → Permᴰ xs ys → Distinct xs → Distinct ys
  Distinct-perm Permᴰ.nil h = h
  Distinct-perm (Permᴰ.cons {b} {l₁} {l₂} e p) (fresh, h) = (
    All-perm (λ y. key b ≢ key y) p (subst (λ a. All (λ y. key a ≢ key y) l₁) e fresh),
    Distinct-perm p h,
  )
  Distinct-perm (Permᴰ.swap {a} {b} {a'} {b'} {l} e f) ((ne, fa), (fb, h)) = (
    (λ q. ne (ap key e ∙ (sym q ∙ ap key (sym f))), subst (λ c. All (λ y. key c ≢ key y) l) f fb),
    (subst (λ c. All (λ y. key c ≢ key y) l) e fa, h),
  )
  Distinct-perm (Permᴰ.trans p q) h = Distinct-perm q (Distinct-perm p h)

  All_middle :
      {x : A} (xs : List A) (y : A) (ys : List A)
      → All (λ z. key x ≢ key z) (xs ++ y ∷ ys)
      → key x ≢ key y
  All_middle [] y ys (h, _) = h
  All_middle (z ∷ xs) y ys (_, h) = All_middle xs y ys h

  -- An element differs from all those in front of it.
  pub Distinct-middle :
      (xs : List A) (x : A) (ys : List A) → Distinct (xs ++ x ∷ ys) → All (λ y. key x ≢ key y) xs
  Distinct-middle [] x ys d = tt
  Distinct-middle (z ∷ xs) x ys (f, d) =
      (λ e. All_middle xs x ys f (sym e), Distinct-middle xs x ys d)

  pub Distinct-left : (xs ys : List A) → Distinct (xs ++ ys) → Distinct xs
  Distinct-left [] ys d = tt
  Distinct-left (x ∷ xs) ys (f, d) = (All_left (λ y. key x ≢ key y) xs ys f, Distinct-left xs ys d)

  pub Distinct-append :
      (xs ys : List A)
      → Distinct xs
      → Distinct ys
      → All (λ x. All (λ y. key x ≢ key y) ys) xs
      → Distinct (xs ++ ys)
  Distinct-append [] ys dx dy a = dy
  Distinct-append (x ∷ xs) ys (f, dx) dy (g, a) =
      (All-append (λ y. key x ≢ key y) xs ys f g, Distinct-append xs ys dx dy a)

module _ {ℓ κ} {A : Type ℓ} {K : Type κ} (key : A → K) where
  All-map_fresh {ℓ' κ'} :
      {B : Type ℓ'} {L : Type κ'} (key' : B → L) (g : A → B)
      → ((x y : A) → key x ≢ key y → key' (g x) ≢ key' (g y))
      → (x : A) (ys : List A) → All (λ y. key x ≢ key y) ys
      → All (λ z. key' (g x) ≢ key' z) (map g ys)
  All-map_fresh key' g keep x [] a = tt
  All-map_fresh key' g keep x (y ∷ ys) (p, a) = (keep x y p, All-map_fresh key' g keep x ys a)

  -- A map that keeps keys apart keeps a list distinct.
  pub Distinct-map {ℓ' κ'} :
      {B : Type ℓ'} {L : Type κ'} (key' : B → L) (g : A → B)
      → ((x y : A) → key x ≢ key y → key' (g x) ≢ key' (g y))
      → (xs : List A) → Distinct key xs
      → Distinct key' (map g xs)
  Distinct-map key' g keep [] d = tt
  Distinct-map key' g keep (x ∷ xs) (f, d) =
      (All-map_fresh key' g keep x xs f, Distinct-map key' g keep xs d)

  All_weaken {κ'} :
      {L : Type κ'} (key' : A → L)
      → ((x y : A) → key x ≢ key y → key' x ≢ key' y)
      → (x : A) (ys : List A) → All (λ y. key x ≢ key y) ys
      → All (λ y. key' x ≢ key' y) ys
  All_weaken key' keep x [] a = tt
  All_weaken key' keep x (y ∷ ys) (p, a) = (keep x y p, All_weaken key' keep x ys a)

  pub Distinct-weaken {κ'} :
      {L : Type κ'} (key' : A → L)
      → ((x y : A) → key x ≢ key y → key' x ≢ key' y)
      → (xs : List A) → Distinct key xs
      → Distinct key' xs
  Distinct-weaken key' keep [] d = tt
  Distinct-weaken key' keep (x ∷ xs) (f, d) =
      (All_weaken key' keep x xs f, Distinct-weaken key' keep xs d)
