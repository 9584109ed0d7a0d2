-- ===== src/UiContainers/Tests.antt =====
-- The list of containers at a concrete list.
use mathlib.Core.List.{Perm}
use nestjs_graphql_fastify_a.Common.{
  ℕ, String, false, Option, none, some, List, [], ◌∷◌, ◌++◌, map, length, All, DistinctKeys,
  contains, insert, lookup, ◌≡◌, refl,
}
use nestjs_graphql_fastify_a.Common.Text.{truthy?, trim, includes, starts_with}
use nestjs_graphql_fastify_a.Common.Sorting.{sort, insert_sorted}
use nestjs_graphql_fastify_a.UiContainers.{
  Container, group_by_service, group_one, push_container, shown_list, filtered, is_found, favorited,
  make_favorite_id, sort_by_favorite,
}
use nestjs_graphql_fastify_a.UiContainers.Groups.{members, IsGroup, group_by_service_lem}

abbrev container_of : String → Option String → Container
container_of name service_name = record {
  id = name;
  name = name;
  image = "node:22";
  status = "Up";
  state = "running";
  created = 0;
  ports = [];
  service_name = service_name;
  task_slot = none;
  node_name = none;
}

abbrev four : List Container
four =
    container_of "auth.1" (some "auth")
    ∷ container_of "redis" none
    ∷ container_of "gateway.1" (some "gateway")
    ∷ container_of "auth.2" (some "auth")
    ∷ []

four_groups :
    map {B = String × ℕ} (λ group. (group.0, length group.1)) (group_by_service four).0
    ≡ ("auth", 2) ∷ ("gateway", 1) ∷ []
unfolding group_by_service group_one push_container insert lookup
four_groups = refl

group_by_service_lem_example :
    let groups = group_by_service four in
    Perm (members groups.0 ++ groups.1) four
    × DistinctKeys groups.0
    × All IsGroup groups.0
    × All (λ c. truthy? c.service_name ≡ false) groups.1
group_by_service_lem_example = group_by_service_lem four

abbrev unchanged_case : String → String
unchanged_case s = s

-- A favourite service comes first.
gateway_first :
    map (λ group. group.0) (shown_list unchanged_case " a " false ("service-gateway" ∷ []) four).0
    ≡ "gateway" ∷ "auth" ∷ []
unfolding shown_list filtered is_found group_by_service group_one push_container insert lookup
    favorited make_favorite_id sort_by_favorite sort insert_sorted contains trim includes
    starts_with
gateway_first = refl
