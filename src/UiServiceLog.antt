-- ===== src/UiServiceLog.antt =====
-- The containers that the log of a service shows
-- (apps/ui/src/features/live-stream/components/ServiceLogViewer.tsx): which ones are active, and their
-- colours. The lines themselves go to the buffer of UiBuffer, the server's answers are events.
mod Colors
mod Active
mod Tests
use nestjs_graphql_fastify_a.Common.{
  ℕ, zero, suc, ◌+◌, ◌-◌, ◌%◌, String, Bool, true, false, not, ◌||◌, ◌&&◌, Option, none, some, List,
  [], ◌∷◌, contains, keys, insert, lookup, delete, length, get_elem?, ◌==◌, nat_eq, string_eq,
  if◌then◌else◌, or_default, or_else, is_some,
}
use nestjs_graphql_fastify_a.Common.Text.{truthy, truthy?}

-- The fields of a `Container` that are read
pub record Replica : Type 0 where
  pub id : String
  pub service_name : Option String
  pub node_name : Option String

-- `REPLICA_COLORS`
abbrev pub replica_colors : List String
replica_colors =
    "text-cyan-400" ∷ "text-yellow-400" ∷ "text-green-400" ∷ "text-pink-400" ∷ "text-orange-400"
    ∷ "text-indigo-400" ∷ []

-- `REPLICA_COLORS[i % REPLICA_COLORS.length]`
unfoldable pub color_at : ℕ → String
color_at i = or_default (get_elem? replica_colors (i % length replica_colors)) ""

-- The node of each active container, the colour of each container that was seen, whether the stream
-- is paused, and how many queries for the containers are not answered.
pub record Viewer : Type 0 where
  pub service : String
  pub active : List (String × Option String)
  pub colors : List (String × String)
  pub color_index : ℕ
  pub is_paused : Bool
  pub syncs : ℕ

unfoldable pub initial_active :
    List (String × Option String) → List Replica → List (String × Option String)
initial_active active [] = active
initial_active active (c ∷ cs) = initial_active (insert c.id c.node_name active) cs

-- `new Map(service.containers.map((c, i) => …))`
unfoldable pub initial_colors : List (String × String) → ℕ → List Replica → List (String × String)
unfolding color_at
initial_colors colors i [] = colors
initial_colors colors i (c ∷ cs) = initial_colors (insert c.id (color_at i) colors) (suc i) cs

-- The state when the component is shown first
unfoldable pub viewer_of : String → List Replica → Viewer
viewer_of service containers = record {
  service = service;
  active = initial_active [] containers;
  colors = initial_colors [] 0 containers;
  color_index = length containers;
  is_paused = false;
  syncs = 0;
}

-- `getContainerColor`, as far as it changes the state
unfoldable pub get_container_color : String → Viewer → Viewer
unfolding color_at
get_container_color id v = if contains id (keys v.colors) then v else record v {
  colors = insert id (color_at v.color_index) v.colors;
  color_index = suc v.color_index;
}

-- `current.nodeName === nodeName`, for a name that is there
abbrev pub same_node : Option String → Option String → Bool
same_node none node_name = false
same_node (some known) none = false
same_node (some known) (some node_name) = known == node_name

-- `prev.get(containerId)` and what is set for it
abbrev pub with_node :
    String → Option String → List (String × Option String) → List (String × Option String)
with_node id node_name active =
    let current = lookup id active in
    let known = or_default current none in
    if is_some current && (not (truthy? node_name) || same_node known node_name)
    then active
    else insert id (or_else node_name known) active

-- `ensureActiveContainer`
unfoldable pub ensure_active_container : String → Option String → Viewer → Viewer
ensure_active_container id node_name v =
    if not (truthy id)
    then v
    else let t = get_container_color id v in record t { active = with_node id node_name t.active }

-- What the subscription delivers: an event of a container, or a line of it
pub data EntryEvent : Type 0 where
  container_started : EntryEvent
  container_stopped : EntryEvent
  a_line : EntryEvent

-- `onData`
unfoldable pub on_data : EntryEvent → (container_id : String) → Viewer → Viewer
on_data container_started id v = ensure_active_container id none v
on_data container_stopped id v = record v { active = delete id v.active }
on_data a_line id v = ensure_active_container id none v

-- `container.serviceName === service.serviceName`
abbrev pub is_ours : String → Replica → Bool
is_ours service c = or_default c.service_name "" == service && is_some c.service_name

-- The loop of `syncServiceContainers`: the map `next` and the colours
unfoldable pub sync_from :
    List (String × Option String) → List Replica → Viewer → List (String × Option String) × Viewer
sync_from next [] v = (next, v)
sync_from next (c ∷ cs) v =
    let ours = is_ours v.service c in
    sync_from (if ours then insert c.id c.node_name next else next) cs
      (if ours then get_container_color c.id v else v)

-- `syncServiceContainers` from its `await` on; `none` where the query fails.
unfoldable pub synced : Option (List Replica) → Viewer → Viewer
synced none v = v
synced (some containers) v = let (next, t) = sync_from [] containers v in record t { active = next }

-- `togglePause`, with `resumeStream`
unfoldable pub toggle_pause : Viewer → Viewer
toggle_pause v =
    if v.is_paused
    then record v { is_paused = false; syncs = suc v.syncs }
    else record v { is_paused = true }

pub data ViewerEvent : Type 0 where
  entry : EntryEvent → String → ViewerEvent
  toggled : ViewerEvent
  answered : Option (List Replica) → ViewerEvent

-- A paused viewer gets no entries; an answer without its query is no event.
unfoldable pub view : ViewerEvent → Viewer → Viewer
view (entry event id) v = if v.is_paused then v else on_data event id v
view toggled v = toggle_pause v
view (answered reply) v =
    if v.syncs == 0 then v else synced reply (record v { syncs = v.syncs - 1 })

unfoldable pub view_all : List ViewerEvent → Viewer → Viewer
view_all [] v = v
view_all (event ∷ events) v = view_all events (view event v)
