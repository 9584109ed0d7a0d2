-- ===== src/LogHistory.antt =====
-- apps/gateway/src/log-history/log-history.service.ts: the apps, the search and the statistics of
-- the log files, gathered from every log streamer.
pub mod Search
pub mod Statistics
pub mod Apps
mod Tests
use nestjs_graphql_fastify_a.Common.{
  ℕ, ◌+◌, ◌-◌, ◌<◌, String, Bool, true, false, not, ◌&&◌, ◌||◌, Option, none, some, List, [], ◌∷◌,
  ◌++◌, map, if◌then◌else◌, contains, keys, lookup, insert, ◌==◌, string_eq, or_default, length,
  take, ltb,
}
use nestjs_graphql_fastify_a.Common.Text.{to_text, template, truthy?}
use nestjs_graphql_fastify_a.Common.Settled.{Settled, values}
use nestjs_graphql_fastify_a.Common.Sorting.{sort}

-- GraphQL's `Int`, which has a sign: `negsuc n` is -(n + 1).
pub data ℤ : Type 0 where
  pos : ℕ → ℤ
  negsuc : ℕ → ℤ

-- `String(n)`
abbrev pub int_text : ℤ → String
int_text (pos n) = to_text n
int_text (negsuc n) = template ("-" ∷ to_text (n + 1) ∷ [])

pub record LogLine : Type 0 where
  pub timestamp : Option String
  pub level : Option String
  pub source : Option String
  pub message : String
  pub metadata : Option String
  pub node : String
  pub file : String
  pub line_no : ℕ

pub record LogApp : Type 0 where
  pub name : String
  pub node : String

-- `apps` may be missing in an answer.
pub record LogAppsResponse : Type 0 where
  pub apps : Option (List String)
  pub node : String

-- `lines` may be missing in an answer.
pub record LogSearchResponse : Type 0 where
  pub lines : Option (List LogLine)
  pub node : String
  pub has_more : Bool

pub record LogStatsResponse : Type 0 where
  pub node : String
  pub total_lines : ℕ
  pub error_count : ℕ
  pub warn_count : ℕ
  pub info_count : ℕ
  pub file_count : ℕ

pub record LogSummary : Type 0 where
  pub total_lines : ℕ
  pub error_count : ℕ
  pub warn_count : ℕ
  pub info_count : ℕ
  pub file_count : ℕ

pub record LogSearchInput : Type 0 where
  pub app : String
  pub from : String
  pub from_time : Option String
  pub to : String
  pub to_time : Option String
  pub level : Option String
  pub keyword : Option String
  pub node : Option String
  pub after : Option String
  pub limit : Option ℤ

pub record LogSearchResult : Type 0 where
  pub lines : List LogLine
  pub has_more : Bool
  pub summary : LogSummary

-- The query parameters of a request; a missing value is not sent.
abbrev pub Params : Type 0
Params = List (String × Option String)

-- `input.node && data.node !== input.node` is skipped.
abbrev pub accepts : Option String → String → Bool
accepts node_filter node = not (truthy? node_filter && not (node == or_default node_filter ""))

-- `discoverLogStreamerUrls`, from the discovered addresses
pub discover_log_streamer_urls : ℕ → List String → List String
discover_log_streamer_urls port = map (λ ip. template ("http://" ∷ ip ∷ ":" ∷ to_text port ∷ []))

-- The loops of `listApps`; the key of an app is its name and its node.
pub app_key : LogApp → String
app_key app = template (app.name ∷ "@" ∷ app.node ∷ [])

add_app : LogApp → List (String × LogApp) → List (String × LogApp)
unfolding app_key
add_app app app_map =
    if contains (app_key app) (keys app_map) then app_map else insert (app_key app) app app_map

add_all : List LogApp → List (String × LogApp) → List (String × LogApp)
unfolding add_app
add_all [] app_map = app_map
add_all (app ∷ apps) app_map = add_all apps (add_app app app_map)

-- The apps of one answer; a missing list is an empty one.
pub apps_of : LogAppsResponse → List LogApp
apps_of r = map (λ name. record { name = name; node = r.node }) (or_default r.apps [])

gather_apps : List LogAppsResponse → List (String × LogApp) → List (String × LogApp)
unfolding add_all apps_of
gather_apps [] app_map = app_map
gather_apps (r ∷ rs) app_map = gather_apps rs (add_all (apps_of r) app_map)

-- The loop of `search` over the answers, from the lines and the flag so far
pub lines_of : LogSearchResponse → List LogLine
lines_of r = map (λ (line : LogLine). record line { node = r.node }) (or_default r.lines [])

gather_one : Option String → LogSearchResponse → List LogLine × Bool → List LogLine × Bool
unfolding lines_of
gather_one node_filter r (all_lines, has_more) =
    if accepts node_filter r.node
    then (all_lines ++ lines_of r, r.has_more || has_more)
    else (all_lines, has_more)

gather_lines : Option String → List LogSearchResponse → List LogLine × Bool → List LogLine × Bool
unfolding gather_one
gather_lines _ [] found = found
gather_lines node_filter (r ∷ rs) found =
    gather_lines node_filter rs (gather_one node_filter r found)

-- `mergeStats`
add_stats : LogSummary → LogStatsResponse → LogSummary
add_stats summary r = record {
  total_lines = summary.total_lines + r.total_lines;
  error_count = summary.error_count + r.error_count;
  warn_count = summary.warn_count + r.warn_count;
  info_count = summary.info_count + r.info_count;
  file_count = summary.file_count + r.file_count;
}

merge_from : Option String → List LogStatsResponse → LogSummary → LogSummary
unfolding add_stats
merge_from _ [] summary = summary
merge_from node_filter (r ∷ rs) summary =
    merge_from node_filter rs (if accepts node_filter r.node then add_stats summary r else summary)

abbrev no_stats : LogSummary
no_stats = record {
  total_lines = 0;
  error_count = 0;
  warn_count = 0;
  info_count = 0;
  file_count = 0;
}

pub merge_stats : List (Settled LogStatsResponse) → Option String → LogSummary
unfolding merge_from
merge_stats results node_filter = merge_from node_filter (values results) no_stats

-- The time bounds are added where they are not empty.
time_params : LogSearchInput → Params
time_params input =
    (if truthy? input.from_time then ("fromTime", input.from_time) ∷ [] else [])
    ++ (if truthy? input.to_time then ("toTime", input.to_time) ∷ [] else [])

pub limit_of : LogSearchInput → ℤ
limit_of input = or_default input.limit (pos 100)

pub search_params : LogSearchInput → Params
unfolding time_params limit_of
search_params input =
    ("app", some input.app)
    ∷ ("from", some input.from)
    ∷ ("to", some input.to)
    ∷ ("level", input.level)
    ∷ ("keyword", input.keyword)
    ∷ ("after", input.after)
    ∷ ("limit", some (int_text (limit_of input)))
    ∷ time_params input

pub stats_params : LogSearchInput → Params
unfolding time_params
stats_params input =
    ("app", some input.app) ∷ ("from", some input.from) ∷ ("to", some input.to) ∷ time_params input

-- `length > limit`
abbrev pub exceeds : ℕ → ℤ → Bool
exceeds len (pos n) = ltb n len
exceeds len (negsuc n) = true

-- `lines.slice(0, limit)`: a negative end counts from the last line.
abbrev pub slice_to : ℤ → List LogLine → List LogLine
slice_to (pos n) lines = take n lines
slice_to (negsuc n) lines = take (length lines - (n + 1)) lines

-- `a.localeCompare(b) <= 0` is a parameter, since the order depends on the locale.
module _ (locale_le : String → String → Bool) where
  abbrev pub by_name : LogApp → LogApp → Bool
  by_name a b = locale_le a.name b.name

  pub list_apps : ℕ → List String → (String → Settled LogAppsResponse) → List LogApp
  list_apps port ips get = sort by_name (
      map (λ entry. entry.1)
        (gather_apps
          (values (
            map (λ host. get (template (host ∷ "/api/logs/apps" ∷ [])))
              (discover_log_streamer_urls port ips)))
          []))

  abbrev pub by_timestamp : LogLine → LogLine → Bool
  by_timestamp a b = locale_le (or_default a.timestamp "") (or_default b.timestamp "")

  -- The end of `search`: the lines in the order of their timestamps, cut at the limit.
  page : ℤ → List LogLine × Bool → List LogLine × Bool
  page limit (all_lines, has_more) =
      let sorted = sort by_timestamp all_lines in
      if exceeds (length sorted) limit then (slice_to limit sorted, true) else (sorted, has_more)

  pub search :
      ℕ
      → List String
      → (String → Params → Settled LogSearchResponse)
      → (String → Params → Settled LogStatsResponse)
      → LogSearchInput
      → LogSearchResult
  search port ips get_search get_stats input =
      let hosts = discover_log_streamer_urls port ips in
      let results =
        map (λ host. get_search (template (host ∷ "/api/logs/search" ∷ [])) (search_params input))
          hosts in
      let stats =
        map (λ host. get_stats (template (host ∷ "/api/logs/stats" ∷ [])) (stats_params input))
          hosts in
      let found = page (limit_of input) (gather_lines input.node (values results) ([], false)) in
      record { lines = found.0; has_more = found.1; summary = merge_stats stats input.node }
