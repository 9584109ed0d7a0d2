-- ===== src/UiServiceLog/Tests.antt =====
-- The log of a service with two containers.
use nestjs_graphql_fastify_a.Common.{
  String, true, some, List, [], ◌∷◌, contains, keys, insert, lookup, delete, string_eq, ◌≡◌, refl,
}
use nestjs_graphql_fastify_a.UiServiceLog.{
  Replica, Viewer, ViewerEvent, viewer_of, color_at, initial_active, initial_colors, on_data,
  container_started, container_stopped, entry, toggled, answered, view, view_all,
  ensure_active_container, get_container_color, toggle_pause, synced, sync_from,
}
use nestjs_graphql_fastify_a.UiServiceLog.Colors.{HasColor, view_all-HasColor}
use nestjs_graphql_fastify_a.UiServiceLog.Active.{is_active, active_has_color}

abbrev replica : String → Replica
replica id = record { id = id; service_name = some "auth"; node_name = some "node-1" }

abbrev two_replicas : Viewer
two_replicas = viewer_of "auth" (replica "a1" ∷ replica "a2" ∷ [])

abbrev some_events : List ViewerEvent
some_events =
    entry container_stopped "a1"
    ∷ entry container_started "a3"
    ∷ toggled
    ∷ toggled
    ∷ answered (some (replica "a1" ∷ replica "a3" ∷ []))
    ∷ []

third_color : lookup "a3" (view_all some_events two_replicas).colors ≡ some "text-green-400"
unfolding viewer_of view_all view on_data insert delete lookup keys contains toggle_pause
    ensure_active_container get_container_color initial_active initial_colors synced sync_from
    color_at
third_color = refl

first_color : HasColor "a1" "text-cyan-400" two_replicas
unfolding viewer_of insert lookup initial_colors color_at
first_color = refl

view_all-HasColor_example : HasColor "a1" "text-cyan-400" (view_all some_events two_replicas)
view_all-HasColor_example =
    view_all-HasColor "a1" "text-cyan-400" some_events two_replicas first_color

a3_active : is_active "a3" (view_all some_events two_replicas) ≡ true
unfolding viewer_of view_all view on_data insert delete lookup keys contains toggle_pause
    ensure_active_container get_container_color initial_active initial_colors synced sync_from
    color_at
a3_active = refl

active_has_color_example : contains "a3" (keys (view_all some_events two_replicas).colors) ≡ true
active_has_color_example =
    active_has_color "a3" "auth" (replica "a1" ∷ replica "a2" ∷ []) some_events a3_active
