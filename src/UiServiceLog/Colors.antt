-- ===== src/UiServiceLog/Colors.antt =====
-- The colours of the containers are stable.
use nestjs_graphql_fastify_a.Common.{
  ◌-◌, String, not, Option, none, some, List, [], ◌∷◌, contains, keys, insert, lookup,
  lookup-insert, ◌==◌, nat_eq, string_eq, if◌then◌else◌, if_elim, lookup_of_absent, ◌≡◌, arith,
  eq_iff,
}
use nestjs_graphql_fastify_a.Common.Text.{truthy}
use nestjs_graphql_fastify_a.UiServiceLog.{
  Viewer, Replica, get_container_color, color_at, ensure_active_container, on_data, EntryEvent,
  container_started, container_stopped, a_line, sync_from, is_ours, synced, toggle_pause,
  ViewerEvent, entry, toggled, answered, view, view_all,
}

-- The container `id` has the colour `color`.
abbrev pub HasColor : String → String → Viewer → Type 0
HasColor id color v = lookup id v.colors ≡ some color

get_container_color-HasColor :
    (id color other : String) (v : Viewer)
    → HasColor id color v
    → HasColor id color (get_container_color other v)
unfolding get_container_color
get_container_color-HasColor id color other v h =
    if_elim (HasColor id color) (contains other (keys v.colors)) (λ _. h)
      (λ new. ground (
        arith,
        lookup-insert other id (color_at v.color_index) v.colors,
        lookup_of_absent other v.colors,
        eq_iff other id,
        h,
        new,
      ))

ensure_active_container-HasColor :
    (id color other : String) (node_name : Option String) (v : Viewer)
    → HasColor id color v
    → HasColor id color (ensure_active_container other node_name v)
unfolding ensure_active_container
ensure_active_container-HasColor id color other node_name v h =
    if_elim (HasColor id color) (not (truthy other)) (λ _. h)
      (λ _. get_container_color-HasColor id color other v h)

on_data-HasColor :
    (id color other : String) (event : EntryEvent) (v : Viewer)
    → HasColor id color v
    → HasColor id color (on_data event other v)
unfolding on_data
on_data-HasColor id color other container_started v h =
    ensure_active_container-HasColor id color other none v h
on_data-HasColor id color other container_stopped v h = h
on_data-HasColor id color other a_line v h =
    ensure_active_container-HasColor id color other none v h

sync_from-HasColor :
    (id color : String) (next : List (String × Option String)) (cs : List Replica) (v : Viewer)
    → HasColor id color v
    → HasColor id color (sync_from next cs v).1
unfolding sync_from
sync_from-HasColor id color next [] v h = h
sync_from-HasColor id color next (c ∷ cs) v h =
    let ours = is_ours v.service c in
    sync_from-HasColor id color (if ours then insert c.id c.node_name next else next) cs
      (if ours then get_container_color c.id v else v)
      (if_elim (HasColor id color) ours (λ _. get_container_color-HasColor id color c.id v h)
        (λ _. h))

synced-HasColor :
    (id color : String) (reply : Option (List Replica)) (v : Viewer)
    → HasColor id color v
    → HasColor id color (synced reply v)
unfolding synced
synced-HasColor id color none v h = h
synced-HasColor id color (some containers) v h = sync_from-HasColor id color [] containers v h

view-HasColor :
    (id color : String) (event : ViewerEvent) (v : Viewer)
    → HasColor id color v
    → HasColor id color (view event v)
unfolding view toggle_pause
view-HasColor id color (entry event other) v h =
    if_elim (HasColor id color) v.is_paused (λ _. h)
      (λ _. on_data-HasColor id color other event v h)
view-HasColor id color toggled v h = if_elim (HasColor id color) v.is_paused (λ _. h) (λ _. h)
view-HasColor id color (answered reply) v h =
    if_elim (HasColor id color) (v.syncs == 0) (λ _. h)
      (λ _. synced-HasColor id color reply (record v { syncs = v.syncs - 1 }) h)

-- A container that has a colour keeps it, whatever happens: stops and restarts of containers, pauses,
-- and answers of the server.
pub view_all-HasColor :
    (id color : String) (events : List ViewerEvent) (v : Viewer)
    → HasColor id color v
    → HasColor id color (view_all events v)
unfolding view_all
view_all-HasColor id color [] v h = h
view_all-HasColor id color (event ∷ events) v h =
    view_all-HasColor id color events (view event v) (view-HasColor id color event v h)
