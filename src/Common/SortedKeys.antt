-- ===== src/Common/SortedKeys.antt =====
-- Sorting and the text keys of the items: the keys stay the same, and stay distinct.
use mathlib.Core.Path.{◌≡◌, refl, ◌∙◌}
use mathlib.Core.Bool.{Bool, false}
use mathlib.Core.List.{List, [], ◌∷◌, map}
use Prim.Native.String.{String}
use native.Mathlib.Omega.{arith}
use text.Mathlib.TextEquality.{eq_iff}
use nestjs_graphql_fastify_a.Common.Maps.{contains, Distinct}
use nestjs_graphql_fastify_a.Common.Sorting.{sort, insert_sorted}

module _ {ℓ} {A : Type ℓ} (key : A → String) (le : A → A → Bool) where
  contains-insert_sorted :
      (k : String) (a : A) (xs : List A)
      → contains k (map key (insert_sorted le a xs)) ≡ contains k (map key (a ∷ xs))
  unfolding contains insert_sorted
  contains-insert_sorted k a [] = refl
  contains-insert_sorted k a (x ∷ xs) = ground (arith, contains-insert_sorted k a xs)

  pub contains-sort :
      (k : String) (xs : List A) → contains k (map key (sort le xs)) ≡ contains k (map key xs)
  unfolding sort contains
  contains-sort k [] = refl
  contains-sort k (x ∷ xs) =
      ground (arith, contains-insert_sorted k x (sort le xs), contains-sort k xs)

  insert_sorted-Distinct :
      (a : A) (xs : List A)
      → contains (key a) (map key xs) ≡ false
      → Distinct (map key xs)
      → Distinct (map key (insert_sorted le a xs))
  unfolding insert_sorted contains
  insert_sorted-Distinct a [] h d = (refl, tt)
  insert_sorted-Distinct a (x ∷ xs) h (p, d) = ground (
    arith,
    insert_sorted-Distinct a xs,
    contains-insert_sorted (key x) a xs,
    p,
    d,
    eq_iff (key x) (key a),
    eq_iff (key a) (key x),
  )

  pub sort-Distinct : (xs : List A) → Distinct (map key xs) → Distinct (map key (sort le xs))
  unfolding sort
  sort-Distinct [] d = tt
  sort-Distinct (x ∷ xs) (p, d) =
      insert_sorted-Distinct x (sort le xs) (contains-sort (key x) xs ∙ p) (sort-Distinct xs d)
