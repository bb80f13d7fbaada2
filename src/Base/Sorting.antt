-- ===== src/Base/Sorting.antt =====
-- `ORDER BY`: rows sorted by a key, ascending or descending; rows of one key keep their order.
use Prim.Native.Nat.{ℕ, zero, suc, ◌≤◌}
use mathlib.Core.Path.{◌≡◌, refl}
use mathlib.Core.Bool.{Bool}
use mathlib.Core.List.{List, [], ◌∷◌}
use native.Mathlib.Omega.{arith}
use messageries.Base.{All, All-take, count, if◌then◌else◌, leb, take}

module _ {ℓ} {A : Type ℓ} (key : A → ℕ) where
  abbrev pub insert_asc : A → List A → List A
  insert_asc a [] = a ∷ []
  insert_asc a (x ∷ xs) = if leb (key a) (key x) then a ∷ x ∷ xs else x ∷ insert_asc a xs

  unfoldable pub sort_asc : List A → List A
  sort_asc [] = []
  sort_asc (x ∷ xs) = insert_asc x (sort_asc xs)

  abbrev pub insert_desc : A → List A → List A
  insert_desc a [] = a ∷ []
  insert_desc a (x ∷ xs) = if leb (key x) (key a) then a ∷ x ∷ xs else x ∷ insert_desc a xs

  unfoldable pub sort_desc : List A → List A
  sort_desc [] = []
  sort_desc (x ∷ xs) = insert_desc x (sort_desc xs)

  abbrev pub Ascends : List A → Type 0
  Ascends [] = Unit
  Ascends (x ∷ xs) = All (λ y. key x ≤ key y) xs × Ascends xs

  abbrev pub Descends : List A → Type 0
  Descends [] = Unit
  Descends (x ∷ xs) = All (λ y. key y ≤ key x) xs × Descends xs

module _ {ℓ} {A : Type ℓ} (key : A → ℕ) where
  insert_asc-All {κ} :
      (P : A → Type κ) (a : A) (xs : List A) → P a → All P xs → All P (insert_asc key a xs)
  insert_asc-All P a [] p h = (p, tt)
  insert_asc-All P a (x ∷ xs) p h = ground (arith, insert_asc-All P a xs p h.1)

  insert_desc-All {κ} :
      (P : A → Type κ) (a : A) (xs : List A) → P a → All P xs → All P (insert_desc key a xs)
  insert_desc-All P a [] p h = (p, tt)
  insert_desc-All P a (x ∷ xs) p h = ground (arith, insert_desc-All P a xs p h.1)

  pub sort_asc-All {κ} : (P : A → Type κ) (xs : List A) → All P xs → All P (sort_asc key xs)
  unfolding sort_asc
  sort_asc-All P [] h = tt
  sort_asc-All P (x ∷ xs) h = insert_asc-All P x (sort_asc key xs) h.0 (sort_asc-All P xs h.1)

  pub sort_desc-All {κ} : (P : A → Type κ) (xs : List A) → All P xs → All P (sort_desc key xs)
  unfolding sort_desc
  sort_desc-All P [] h = tt
  sort_desc-All P (x ∷ xs) h = insert_desc-All P x (sort_desc key xs) h.0 (sort_desc-All P xs h.1)

  le-All : (m n : ℕ) (xs : List A) → m ≤ n → All (λ y. n ≤ key y) xs → All (λ y. m ≤ key y) xs
  le-All m n [] h a = tt
  le-All m n (x ∷ xs) h a = (omega arith, le-All m n xs h a.1)

  ge-All : (m n : ℕ) (xs : List A) → m ≤ n → All (λ y. key y ≤ m) xs → All (λ y. key y ≤ n) xs
  ge-All m n [] h a = tt
  ge-All m n (x ∷ xs) h a = (omega arith, ge-All m n xs h a.1)

  insert_asc-Ascends : (a : A) (xs : List A) → Ascends key xs → Ascends key (insert_asc key a xs)
  insert_asc-Ascends a [] h = (tt, tt)
  insert_asc-Ascends a (x ∷ xs) h = ground (
    arith,
    le-All (key a) (key x) xs,
    insert_asc-Ascends a xs h.1,
    insert_asc-All (λ y. key x ≤ key y) a xs,
  )

  insert_desc-Descends :
      (a : A) (xs : List A) → Descends key xs → Descends key (insert_desc key a xs)
  insert_desc-Descends a [] h = (tt, tt)
  insert_desc-Descends a (x ∷ xs) h = ground (
    arith,
    ge-All (key x) (key a) xs,
    insert_desc-Descends a xs h.1,
    insert_desc-All (λ y. key y ≤ key x) a xs,
  )

  pub sort_asc-Ascends : (xs : List A) → Ascends key (sort_asc key xs)
  unfolding sort_asc
  sort_asc-Ascends [] = tt
  sort_asc-Ascends (x ∷ xs) = insert_asc-Ascends x (sort_asc key xs) (sort_asc-Ascends xs)

  pub sort_desc-Descends : (xs : List A) → Descends key (sort_desc key xs)
  unfolding sort_desc
  sort_desc-Descends [] = tt
  sort_desc-Descends (x ∷ xs) = insert_desc-Descends x (sort_desc key xs) (sort_desc-Descends xs)

  -- Sorting keeps every row.
  insert_asc-count :
      (p : A → Bool) (a : A) (xs : List A) → count p (insert_asc key a xs) ≡ count p (a ∷ xs)
  insert_asc-count p a [] = refl
  insert_asc-count p a (x ∷ xs) = ground (arith, insert_asc-count p a xs)

  pub sort_asc-count : (p : A → Bool) (xs : List A) → count p (sort_asc key xs) ≡ count p xs
  unfolding sort_asc
  sort_asc-count p [] = refl
  sort_asc-count p (x ∷ xs) =
      ground (arith, insert_asc-count p x (sort_asc key xs), sort_asc-count p xs)

  pub Ascends-take : (n : ℕ) (xs : List A) → Ascends key xs → Ascends key (take n xs)
  Ascends-take zero xs h = tt
  Ascends-take (suc n) [] h = tt
  Ascends-take (suc n) (x ∷ xs) h = (All-take (λ y. key x ≤ key y) n xs h.0, Ascends-take n xs h.1)

  pub Descends-take : (n : ℕ) (xs : List A) → Descends key xs → Descends key (take n xs)
  Descends-take zero xs h = tt
  Descends-take (suc n) [] h = tt
  Descends-take (suc n) (x ∷ xs) h =
      (All-take (λ y. key y ≤ key x) n xs h.0, Descends-take n xs h.1)
