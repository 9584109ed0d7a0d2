-- ===== src/UiContainers/Favorites.antt =====
-- The favourites: what a toggle changes, and that they come first.
use mathlib.Core.List.{Perm}
use nestjs_graphql_fastify_a.Common.{
  String, Bool, true, false, not, ◌&&◌, List, [], ◌∷◌, contains, contains-add, leb, ◌==◌, string_eq,
  if◌then◌else◌, ◌≡◌, refl, arith, eq_iff, ◌⊎◌, inl, inr,
}
use nestjs_graphql_fastify_a.Common.Sorting.{IsSorted, IsOrder, sort-IsSorted, sort-perm}
use nestjs_graphql_fastify_a.UiContainers.{
  delete_item, toggle_favorite, by_favorite, sort_by_favorite,
}

contains-delete_item :
    (j id : String) (favorites : List String)
    → contains j (delete_item id favorites) ≡ (contains j favorites && not (id == j))
unfolding delete_item contains
contains-delete_item j id [] = refl
contains-delete_item j id (favorite ∷ favorites) =
    ground (
      arith,
      contains-delete_item j id favorites,
      eq_iff favorite id,
      eq_iff favorite j,
      eq_iff id j,
    )

-- A toggle changes whether its own id is a favourite, and no other one.
pub contains-toggle_favorite :
    (j id : String) (favorites : List String)
    → contains j (toggle_favorite id favorites)
      ≡ (if id == j then not (contains j favorites) else contains j favorites)
unfolding toggle_favorite
contains-toggle_favorite j id favorites =
    ground (arith, contains-delete_item j id favorites, contains-add j id favorites, eq_iff id j)

-- A second toggle of the same id takes the first one back, for every id.
pub toggle_favorite-toggle_favorite :
    (j id : String) (favorites : List String)
    → contains j (toggle_favorite id (toggle_favorite id favorites)) ≡ contains j favorites
toggle_favorite-toggle_favorite j id favorites = ground (
  arith,
  contains-toggle_favorite j id (toggle_favorite id favorites),
  contains-toggle_favorite j id favorites,
)

by_favorite-IsOrder : {A : Type 0} (is_favorite : A → Bool) → IsOrder (by_favorite is_favorite)
by_favorite-IsOrder is_favorite = record {
  total = λ a b. total_at (is_favorite a) (is_favorite b);
  transitive = λ a b c h k. ground (arith, h, k);
}
  where
    rank_le : Bool → Bool → Bool
    rank_le a b = leb (if a then 0 else 1) (if b then 0 else 1)

    total_at : (a b : Bool) → (rank_le a b ≡ true) ⊎ (rank_le b a ≡ true)
    total_at true b = inl (ground arith)
    total_at false true = inr refl
    total_at false false = inl refl

-- The list shows all its items, each as often as before, and no item that is no favourite before one
-- that is.
pub sort_by_favorite_lem :
    {A : Type 0} (is_favorite : A → Bool) (items : List A)
    → Perm (sort_by_favorite is_favorite items) items
      × IsSorted (by_favorite is_favorite) (sort_by_favorite is_favorite items)
unfolding sort_by_favorite
sort_by_favorite_lem is_favorite items =
    let le = by_favorite is_favorite in
    (sort-perm le items, sort-IsSorted le (by_favorite-IsOrder is_favorite) items)
