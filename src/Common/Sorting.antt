-- ===== src/Common/Sorting.antt =====
-- `Array.prototype.sort` with a comparator that is read through `le a b`, "the comparator is not
-- positive": a stable sort.
use nestjs_graphql_fastify_a.Common.Tests.{if◌then◌else◌, if_elim}
use nestjs_graphql_fastify_a.Common.Lists.{All, length}
use Prim.Native.Nat.{suc}
use mathlib.Core.Path.{◌≡◌, refl, ap, ◌∙◌}
use mathlib.Core.Logic.{◌⊎◌, inl, inr}
use mathlib.Core.Bool.{Bool, true, false}
use mathlib.Core.List.{List, [], ◌∷◌, Perm}
use mathlib.Core.List.Perm
use native.Mathlib.Omega.{arith}

module _ {ℓ} {A : Type ℓ} (le : A → A → Bool) where
  -- An item goes in front of the first one that it is not greater than.
  unfoldable pub insert_sorted : A → List A → List A
  insert_sorted a [] = a ∷ []
  insert_sorted a (x ∷ xs) = if le a x then a ∷ x ∷ xs else x ∷ insert_sorted a xs

  unfoldable pub sort : List A → List A
  unfolding insert_sorted
  sort [] = []
  sort (x ∷ xs) = insert_sorted x (sort xs)

  abbrev pub IsSorted : List A → Type 0
  IsSorted [] = Unit
  IsSorted (x ∷ xs) = All (λ y. le x y ≡ true) xs × IsSorted xs

  insert_sorted-perm : (a : A) (xs : List A) → Perm (insert_sorted a xs) (a ∷ xs)
  unfolding insert_sorted
  insert_sorted-perm a [] = Perm.rfl
  insert_sorted-perm a (x ∷ xs) =
      if_elim (λ r. Perm r (a ∷ x ∷ xs)) (le a x) (λ _. Perm.rfl)
        (λ _. Perm.trans (Perm.cons x (insert_sorted-perm a xs)) (Perm.swap a x xs))

  -- Sorting loses nothing and makes nothing up.
  pub sort-perm : (xs : List A) → Perm (sort xs) xs
  unfolding sort
  sort-perm [] = Perm.nil
  sort-perm (x ∷ xs) = Perm.trans (insert_sorted-perm x (sort xs)) (Perm.cons x (sort-perm xs))

  length-insert_sorted : (a : A) (xs : List A) → length (insert_sorted a xs) ≡ suc (length xs)
  unfolding insert_sorted
  length-insert_sorted a [] = refl
  length-insert_sorted a (x ∷ xs) = ground (arith, length-insert_sorted a xs)

  pub length-sort : (xs : List A) → length (sort xs) ≡ length xs
  unfolding sort
  length-sort [] = refl
  length-sort (x ∷ xs) = length-insert_sorted x (sort xs) ∙ ap suc (length-sort xs)

  insert_sorted-All {κ} :
      (P : A → Type κ) (a : A) (xs : List A) → P a → All P xs → All P (insert_sorted a xs)
  unfolding insert_sorted
  insert_sorted-All P a [] p h = (p, tt)
  insert_sorted-All P a (x ∷ xs) p (q, h) =
      if_elim (All P) (le a x) (λ _. (p, (q, h))) (λ _. (q, insert_sorted-All P a xs p h))

  pub sort-All {κ} : (P : A → Type κ) (xs : List A) → All P xs → All P (sort xs)
  unfolding sort
  sort-All P [] h = tt
  sort-All P (x ∷ xs) (p, h) = insert_sorted-All P x (sort xs) p (sort-All P xs h)

  -- A comparator that orders the items.
  pub record IsOrder : Type ℓ where
    pub total : (a b : A) → (le a b ≡ true) ⊎ (le b a ≡ true)
    pub transitive : (a b c : A) → le a b ≡ true → le b c ≡ true → le a c ≡ true

  module _ (o : IsOrder) where
    All-trans :
        (a x : A) (xs : List A)
        → le a x ≡ true
        → All (λ y. le x y ≡ true) xs
        → All (λ y. le a y ≡ true) xs
    All-trans a x [] h k = tt
    All-trans a x (y ∷ xs) h (k, ks) = (o.transitive a x y h k, All-trans a x xs h ks)

    swapped : (a x : A) → le a x ≡ false → le x a ≡ true
    swapped a x h = elim (o.total a x) [ inl e ↦ ground arith | inr e ↦ e ]

    insert_sorted-IsSorted : (a : A) (xs : List A) → IsSorted xs → IsSorted (insert_sorted a xs)
    unfolding insert_sorted
    insert_sorted-IsSorted a [] s = (tt, tt)
    insert_sorted-IsSorted a (x ∷ xs) (below, s) =
        if_elim IsSorted (le a x) (λ h. ((h, All-trans a x xs h below), (below, s)))
          (λ h. (
            insert_sorted-All (λ y. le x y ≡ true) a xs (swapped a x h) below,
            insert_sorted-IsSorted a xs s,
          ))

    pub sort-IsSorted : (xs : List A) → IsSorted (sort xs)
    unfolding sort
    sort-IsSorted [] = tt
    sort-IsSorted (x ∷ xs) = insert_sorted-IsSorted x (sort xs) (sort-IsSorted xs)
