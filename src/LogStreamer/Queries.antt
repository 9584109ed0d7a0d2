-- ===== src/LogStreamer/Queries.antt =====
-- apps/gateway/src/log-streamer-proxy/log-streamer-proxy.service.ts: `listContainers` and
-- `getContainerStats`; apps/gateway/src/common/discover-log-streamers.ts.
pub mod Merging
use nestjs_graphql_fastify_a.Common.{
  ℕ, String, Bool, Option, none, some, List, [], ◌∷◌, ◌++◌, map, if◌then◌else◌, contains,
}
use nestjs_graphql_fastify_a.Common.Text.{to_text, template}
use nestjs_graphql_fastify_a.Common.Settled.{Settled, values, flatten}

-- `discoverLogStreamers`: the addresses that the resolver answers with, or the host name of the
-- fallback url if it fails; `none` if that url does not parse either.
unfoldable pub discover_log_streamers : Option (List String) → Option String → Option (List String)
discover_log_streamers (some addresses) hostname = some addresses
discover_log_streamers none (some hostname) = some (hostname ∷ [])
discover_log_streamers none none = none

-- `array.join(',')`
pub join_comma : List String → String
join_comma [] = ""
join_comma (x ∷ []) = x
join_comma (x ∷ y ∷ ys) = template (x ∷ "," ∷ join_comma (y ∷ ys) ∷ [])

-- `Container`
pub record Container : Type 0 where
  pub id : String
  pub name : String
  pub image : String
  pub status : String
  pub state : String
  pub created : ℕ
  pub ports : List String
  pub service_name : Option String
  pub task_slot : Option String
  pub node_name : Option String

-- `ContainerStats`; its three measures are only carried along.
pub record ContainerStats : Type 0 where
  pub id : String
  pub name : String
  pub cpu_percent : ℕ
  pub mem_usage : ℕ
  pub mem_limit : ℕ

pub base_url : String → ℕ → String
base_url host port = template ("http://" ∷ host ∷ ":" ∷ to_text port ∷ [])

-- `get url` is what the circuit breaker's call of `httpService.get(url)` settles to.
module _ (port : ℕ) (hosts : List String) where
  pub list_containers : (String → Settled (List Container)) → List Container
  list_containers get =
      flatten
        (values (map (λ host. get (template (base_url host port ∷ "/api/containers" ∷ []))) hosts))

-- The loops over the answers, from the ids seen and the statistics kept so far.
abbrev pub Kept : Type 0
Kept = List String × List ContainerStats

keep_one : Kept → ContainerStats → Kept
keep_one (seen, stats) s =
    if contains s.id seen then (seen, stats) else (seen ++ s.id ∷ [], stats ++ s ∷ [])

keep_new : Kept → List ContainerStats → Kept
unfolding keep_one
keep_new kept [] = kept
keep_new kept (s ∷ ss) = keep_new (keep_one kept s) ss

keep_all : Kept → List (List ContainerStats) → Kept
unfolding keep_new
keep_all kept [] = kept
keep_all kept (answer ∷ answers) = keep_all (keep_new kept answer) answers

module _ (port : ℕ) (hosts : List String) where
  pub get_container_stats :
      (String → Settled (List ContainerStats)) → List String → List ContainerStats
  unfolding keep_all
  get_container_stats get [] = []
  get_container_stats get (id ∷ ids) =
      (keep_all ([], [])
        (values (
          map
            (λ host.
              get (template (base_url host port ∷ "/api/stats?ids=" ∷ join_comma (id ∷ ids) ∷ [])))
            hosts))).1
