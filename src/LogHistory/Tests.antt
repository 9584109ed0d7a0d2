-- ===== src/LogHistory/Tests.antt =====
-- The theorems on the log history at concrete answers of two log streamers.
use nestjs_graphql_fastify_a.Common.{
  ℕ, ◌≤◌, String, Bool, true, false, none, some, List, [], ◌∷◌, map, if◌then◌else◌, length, take,
  ◌==◌, string_eq, ◌≡◌, contains, Distinct, arith,
}
use nestjs_graphql_fastify_a.Common.Settled.{Settled, fulfilled, rejected, flatten}
use nestjs_graphql_fastify_a.Common.Sorting.{sort, IsSorted, IsOrder}
use nestjs_graphql_fastify_a.LogHistory.{
  pos, LogLine, LogAppsResponse, LogSearchResponse, LogStatsResponse, LogSearchInput, Params,
  search, list_apps, by_name, by_timestamp, limit_of, apps_of,
}
use nestjs_graphql_fastify_a.LogHistory.Search.{kept, search_lines, all_lines, search_answers}
use nestjs_graphql_fastify_a.LogHistory.Apps.{list_apps_lem, app_keys, apps_answers}

-- A locale that puts "a" first and tells no other texts apart.
abbrev locale : String → String → Bool
locale a b = if b == "a" then a == "a" else true

locale-IsOrder : IsOrder locale
locale-IsOrder = record { total = λ a b. ground arith; transitive = λ a b c p q. ground arith }

abbrev line : String → LogLine
line time = record {
  timestamp = some time;
  level = none;
  source = none;
  message = "m";
  metadata = none;
  node = "";
  file = "f";
  line_no = 1;
}

abbrev found_at : String → Params → Settled LogSearchResponse
found_at url _ =
    if url == "http://x:1/api/logs/search"
    then fulfilled
        (record { lines = some (line "b" ∷ line "a" ∷ []); node = "n1"; has_more = false })
    else rejected

abbrev stats_at : String → Params → Settled LogStatsResponse
stats_at _ _ = rejected

abbrev wanted : LogSearchInput
wanted = record {
  app = "app";
  from = "2025-01-01";
  from_time = none;
  to = "2025-01-02";
  to_time = some "10:00";
  level = none;
  keyword = none;
  node = some "n1";
  after = none;
  limit = some (pos 1);
}

abbrev hosts : List String
hosts = "x" ∷ "y" ∷ []

search_lines_example :
    let found = search locale 1 hosts found_at stats_at wanted in
    let gathered = all_lines wanted.node (search_answers 1 hosts found_at wanted) in
    (found.lines
      ≡ take (kept (limit_of wanted) (length gathered)) (sort (by_timestamp locale) gathered))
    × IsSorted (by_timestamp locale) found.lines
    × (length found.lines ≤ kept (limit_of wanted) (length gathered))
search_lines_example = search_lines locale 1 hosts found_at stats_at wanted locale-IsOrder

abbrev stats_of : String → ℕ → LogStatsResponse
stats_of node n = record {
  node = node;
  total_lines = n;
  error_count = 1;
  warn_count = 0;
  info_count = 2;
  file_count = 3;
}

abbrev results : List (Settled LogStatsResponse)
results = fulfilled (stats_of "n1" 5) ∷ rejected ∷ fulfilled (stats_of "n2" 7) ∷ []

abbrev apps_at : String → Settled LogAppsResponse
apps_at url =
    if url == "http://x:1/api/logs/apps"
    then fulfilled (record { apps = some ("web" ∷ "a" ∷ "web" ∷ []); node = "n1" })
    else fulfilled (record { apps = none; node = "n2" })

list_apps_lem_example :
    let apps = list_apps locale 1 hosts apps_at in
    IsSorted (by_name locale) apps
    × Distinct (app_keys apps)
    × (contains "web@n1" (app_keys apps)
        ≡ contains "web@n1" (app_keys (flatten (map apps_of (apps_answers 1 hosts apps_at)))))
list_apps_lem_example = list_apps_lem locale 1 hosts apps_at "web@n1" locale-IsOrder
