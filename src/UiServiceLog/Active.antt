-- ===== src/UiServiceLog/Active.antt =====
-- Which containers are active, and that they all have a colour.
use nestjs_graphql_fastify_a.Common.{
  ℕ, suc, ◌-◌, String, Bool, true, false, not, ◌&&◌, ◌||◌, Option, none, some, List, [], ◌∷◌,
  contains, keys, insert, lookup, contains-insert, contains-delete, delete-DistinctKeys,
  insert-DistinctKeys, DistinctKeys, is_some-lookup, ◌==◌, nat_eq, string_eq, if◌then◌else◌,
  if_elim, or_default, or_else, is_some, ◌≡◌, refl, arith, eq_iff,
}
use nestjs_graphql_fastify_a.Common.Text.{truthy, truthy?}
use nestjs_graphql_fastify_a.UiServiceLog.{
  Viewer, Replica, get_container_color, color_at, ensure_active_container, with_node, on_data,
  EntryEvent, container_started, container_stopped, a_line, sync_from, is_ours, synced,
  toggle_pause, initial_active, initial_colors, viewer_of, ViewerEvent, entry, toggled, answered,
  view, view_all, same_node,
}

abbrev pub is_active : String → Viewer → Bool
is_active id v = contains id (keys v.active)

contains-with_node :
    (j id : String) (node_name : Option String) (active : List (String × Option String))
    → contains j (keys (with_node id node_name active)) ≡ (id == j || contains j (keys active))
contains-with_node j id node_name active = ground (
  arith,
  contains-insert j id (or_else node_name (or_default (lookup id active) none)) active,
  is_some-lookup id active,
  eq_iff id j,
)

active-get_container_color :
    (id : String) (v : Viewer) → (get_container_color id v).active ≡ v.active
unfolding get_container_color
active-get_container_color id v =
    if_elim (λ (t : Viewer). t.active ≡ v.active) (contains id (keys v.colors)) (λ _. refl)
      (λ _. refl)

contains-get_container_color :
    (j id : String) (v : Viewer)
    → contains j (keys (get_container_color id v).colors) ≡ (id == j || contains j (keys v.colors))
unfolding get_container_color
contains-get_container_color j id v =
    ground (arith, contains-insert j id (color_at v.color_index) v.colors, eq_iff id j)

with_node-DistinctKeys :
    (id : String) (node_name : Option String) (active : List (String × Option String))
    → DistinctKeys active
    → DistinctKeys (with_node id node_name active)
with_node-DistinctKeys id node_name active d =
    if_elim DistinctKeys
      (is_some (lookup id active)
        && (not (truthy? node_name) || same_node (or_default (lookup id active) none) node_name))
      (λ _. d) (λ _. insert-DistinctKeys id _ active d)

-- Whether an entry of this kind shows that its container runs
abbrev pub shows_running : EntryEvent → Bool
shows_running container_started = true
shows_running container_stopped = false
shows_running a_line = true

is_active-ensure :
    (j id : String) (v : Viewer)
    → truthy id ≡ true
    → is_active j (ensure_active_container id none v) ≡ (id == j || is_active j v)
unfolding ensure_active_container
is_active-ensure j id v t =
    rw (t, active-get_container_color id v) (contains-with_node j id none v.active)

-- After an entry its container is active, unless the entry tells that it stopped, and then it is not;
-- every other container is active if it was. This holds for entries that name a container.
pub on_data_lem :
    (j id : String) (event : EntryEvent) (v : Viewer)
    → DistinctKeys v.active
    → truthy id ≡ true
    → is_active j (on_data event id v) ≡ (if id == j then shows_running event else is_active j v)
unfolding on_data
on_data_lem j id container_started v d t = ground (arith, is_active-ensure j id v t)
on_data_lem j id container_stopped v d t = ground (arith, contains-delete j id v.active d)
on_data_lem j id a_line v d t = ground (arith, is_active-ensure j id v t)

abbrev has_color : String → List (String × String) → Bool
has_color j colors = contains j (keys colors)

-- The active containers are a map, and container `j` has a colour if it is active.
pub record IsColored (j : String) (v : Viewer) : Type 0 where
  pub distinct : DistinctKeys v.active
  pub colored : (not (contains j (keys v.active)) || contains j (keys v.colors)) ≡ true

ensure_active_container-IsColored :
    (j id : String) (v : Viewer) → IsColored j v → IsColored j (ensure_active_container id none v)
unfolding ensure_active_container
ensure_active_container-IsColored j id v h =
    if_elim (IsColored j) (not (truthy id)) (λ _. h)
      (λ _.
        let same = active-get_container_color id v in
        record {
          distinct = rw same (with_node-DistinctKeys id none v.active h.distinct);
          colored =
              rw (same, contains-get_container_color j id v)
                (ground (arith, contains-with_node j id none v.active, h.colored));
        })

still_colored :
    (j : String) (ours : Bool) (next : List (String × Option String)) (c : Replica) (v : Viewer)
    → (not (contains j (keys next)) || has_color j v.colors) ≡ true
    → (not (contains j (keys (if ours then insert c.id c.node_name next else next)))
        || has_color j (if ours then get_container_color c.id v else v).colors)
      ≡ true
still_colored j true next c v h =
    ground
      (arith, contains-insert j c.id c.node_name next, contains-get_container_color j c.id v, h)
still_colored j false next c v h = h

sync_from-IsColored :
    (j : String) (next : List (String × Option String)) (cs : List Replica) (v : Viewer)
    → DistinctKeys next
    → (not (contains j (keys next)) || has_color j v.colors) ≡ true
    → let r = sync_from next cs v in
      DistinctKeys r.0 × ((not (contains j (keys r.0)) || has_color j r.1.colors) ≡ true)
unfolding sync_from
sync_from-IsColored j next [] v d h = (d, h)
sync_from-IsColored j next (c ∷ cs) v d h =
    let ours = is_ours v.service c in
    sync_from-IsColored j (if ours then insert c.id c.node_name next else next) cs
      (if ours then get_container_color c.id v else v)
      (if_elim DistinctKeys ours (λ _. insert-DistinctKeys c.id c.node_name next d) (λ _. d))
      (still_colored j ours next c v h)

synced-IsColored :
    (j : String) (reply : Option (List Replica)) (v : Viewer)
    → IsColored j v
    → IsColored j (synced reply v)
unfolding synced
synced-IsColored j none v h = h
synced-IsColored j (some containers) v h =
    let r =
      sync_from-IsColored j [] containers v (unfold keys in tt) (unfold keys contains in refl) in
    record { distinct = r.0; colored = r.1 }

on_data-IsColored :
    (j id : String) (event : EntryEvent) (v : Viewer)
    → IsColored j v
    → IsColored j (on_data event id v)
unfolding on_data
on_data-IsColored j id container_started v h = ensure_active_container-IsColored j id v h
on_data-IsColored j id container_stopped v h = record {
  distinct = delete-DistinctKeys id v.active h.distinct;
  colored = ground (arith, contains-delete j id v.active h.distinct, h.colored);
}
on_data-IsColored j id a_line v h = ensure_active_container-IsColored j id v h

view-IsColored :
    (j : String) (event : ViewerEvent) (v : Viewer) → IsColored j v → IsColored j (view event v)
unfolding view toggle_pause
view-IsColored j (entry event id) v h =
    if_elim (IsColored j) v.is_paused (λ _. h) (λ _. on_data-IsColored j id event v h)
view-IsColored j toggled v h =
    if_elim (IsColored j) v.is_paused (λ _. record { distinct = h.distinct; colored = h.colored })
      (λ _. record { distinct = h.distinct; colored = h.colored })
view-IsColored j (answered reply) v h =
    if_elim (IsColored j) (v.syncs == 0) (λ _. h)
      (λ _.
        synced-IsColored j reply (record v { syncs = v.syncs - 1 })
          (record { distinct = h.distinct; colored = h.colored }))

view_all-IsColored :
    (j : String) (events : List ViewerEvent) (v : Viewer)
    → IsColored j v
    → IsColored j (view_all events v)
unfolding view_all
view_all-IsColored j [] v h = h
view_all-IsColored j (event ∷ events) v h =
    view_all-IsColored j events (view event v) (view-IsColored j event v h)

-- What the component is shown with first: each of its containers is active and has a colour.
initial-IsColored :
    (j : String) (active : List (String × Option String)) (colors : List (String × String)) (i : ℕ)
    (cs : List Replica)
    → DistinctKeys active
    → (not (contains j (keys active)) || has_color j colors) ≡ true
    → DistinctKeys (initial_active active cs)
      × ((not (contains j (keys (initial_active active cs)))
            || has_color j (initial_colors colors i cs))
          ≡ true)
unfolding initial_active initial_colors
initial-IsColored j active colors i [] d h = (d, h)
initial-IsColored j active colors i (c ∷ cs) d h =
    initial-IsColored j (insert c.id c.node_name active) (insert c.id (color_at i) colors) (suc i)
      cs (insert-DistinctKeys c.id c.node_name active d)
      (ground (
        arith,
        contains-insert j c.id c.node_name active,
        contains-insert j c.id (color_at i) colors,
        h,
      ))

viewer_of-IsColored :
    (j service : String) (containers : List Replica) → IsColored j (viewer_of service containers)
unfolding viewer_of
viewer_of-IsColored j service containers =
    let first =
      initial-IsColored j [] [] 0 containers (unfold keys in tt) (unfold keys contains in refl) in
    record { distinct = first.0; colored = first.1 }

-- From the first display of a service's log on, whatever happens in whatever order, each container
-- that is active has a colour.
pub active_has_color :
    (j service : String) (containers : List Replica) (events : List ViewerEvent)
    → let v = view_all events (viewer_of service containers) in
      is_active j v ≡ true → contains j (keys v.colors) ≡ true
active_has_color j service containers events h =
    let colored =
      (view_all-IsColored j events _ (viewer_of-IsColored j service containers)).colored in
    ground (arith, colored, h)
