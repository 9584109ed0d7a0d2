-- ===== src/UiContainers.antt =====
-- The list of containers in the browser
-- (apps/ui/src/features/live-stream/components/ContainerList.tsx): the search, the groups of the
-- services, the favourites and their order. `toLowerCase` and the storage of the browser are
-- parameters.
mod Groups
mod Favorites
mod Tests
use nestjs_graphql_fastify_a.Common.{
  ℕ, String, Bool, true, false, not, ◌||◌, Option, none, some, List, [], ◌∷◌, ◌++◌, map, contains,
  add, filter, insert, lookup, leb, ◌==◌, string_eq, if◌then◌else◌, or_default,
}
use nestjs_graphql_fastify_a.Common.Text.{template, trim, truthy, truthy?, includes}
use nestjs_graphql_fastify_a.Common.Sorting.{sort}

pub record Container : Type 0 where
  pub id : String
  pub name : String
  pub image : String
  pub status : String
  pub state : String
  pub created : ℕ
  pub ports : List String
  pub service_name : Option String
  pub task_slot : Option String
  pub node_name : Option String

-- `serviceMap`: the containers of each service, under its name
abbrev pub ServiceMap : Type 0
ServiceMap = List (String × List Container)

-- `list.push(c)` for the list of the service's name
unfoldable pub push_container : String → Container → ServiceMap → ServiceMap
push_container name c services =
    insert name (or_default (lookup name services) [] ++ c ∷ []) services

-- One round of the loop of `groupByService`
unfoldable pub group_one : Container → ServiceMap × List Container → ServiceMap × List Container
group_one c (services, standalone) =
    if truthy? c.service_name
    then (push_container (or_default c.service_name "") c services, standalone)
    else (services, standalone ++ c ∷ [])

unfoldable pub group_from :
    ServiceMap × List Container → List Container → ServiceMap × List Container
group_from groups [] = groups
group_from groups (c ∷ cs) = group_from (group_one c groups) cs

-- `groupByService`; a `ServiceGroup` is an entry of the map.
unfoldable pub group_by_service : List Container → ServiceMap × List Container
unfolding group_from
group_by_service containers = group_from ([], []) containers

-- `type: 'service' | 'container'`
pub data FavoriteType : Type 0 where
  service : FavoriteType
  container : FavoriteType

unfoldable pub make_favorite_id : FavoriteType → String → String
make_favorite_id service key = template ("service-" ∷ key ∷ [])
make_favorite_id container key = template ("container-" ∷ key ∷ [])

-- `Set.delete`
unfoldable pub delete_item : String → List String → List String
delete_item id favorites = filter (λ favorite. not (favorite == id)) favorites

-- `toggleFavorite`
unfoldable pub toggle_favorite : String → List String → List String
toggle_favorite id favorites =
    if contains id favorites then delete_item id favorites else add id favorites

-- `favorited(type, key)`
unfoldable pub favorited : List String → FavoriteType → String → Bool
favorited favorites type key = contains (make_favorite_id type key) favorites

-- `fA - fB <= 0`
abbrev pub by_favorite : {A : Type 0} → (A → Bool) → A → A → Bool
by_favorite is_favorite a b = leb (if is_favorite a then 0 else 1) (if is_favorite b then 0 else 1)

-- `sortByFavorite`
unfoldable pub sort_by_favorite : {A : Type 0} → (A → Bool) → List A → List A
sort_by_favorite is_favorite items = sort (by_favorite is_favorite) items

module _ (to_lower_case : String → String) where
  unfoldable pub is_found : String → Container → Bool
  is_found q c =
      if includes q (to_lower_case c.name)
      then true
      else elim c.service_name [ none ↦ false | some name ↦ includes q (to_lower_case name) ]

  -- `filtered`
  unfoldable pub filtered : String → List Container → List Container
  filtered search_query containers =
      let q = to_lower_case (trim search_query) in
      if not (truthy q) then containers else filter (is_found q) containers

  -- What the list shows: the services and the containers of none
  unfoldable pub shown_list :
      (search_query : String)
      → (show_favorites_only : Bool) → (favorites : List String) → List Container
      → ServiceMap × List Container
  shown_list search_query show_favorites_only favorites containers =
      let groups = group_by_service (filtered search_query containers) in
      let is_service = λ (group : String × List Container). favorited favorites service group.0 in
      let is_container = λ (c : Container). favorited favorites container c.id in
      (
        sort_by_favorite is_service
            (if show_favorites_only then filter is_service groups.0 else groups.0),
        sort_by_favorite is_container
            (if show_favorites_only then filter is_container groups.1 else groups.1),
      )
