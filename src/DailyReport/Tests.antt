-- ===== src/DailyReport/Tests.antt =====
-- The daily error report at concrete logs.
use Prim.Native.Nat.{min}
use Prim.Native.String.{count}
use nestjs_graphql_fastify_a.Common.{
  ◌<◌, String, Bool, true, false, none, some, List, [], ◌∷◌, map, insert, lookup, add, length,
  Distinct, contains, ◌≡◌, ◌⊎◌, refl, inl, string_eq, ◌==◌, if◌then◌else◌,
}
use nestjs_graphql_fastify_a.Common.Text.{slice_to}
use nestjs_graphql_fastify_a.Common.Sorting.{IsSorted, IsOrder, sort, insert_sorted}
use nestjs_graphql_fastify_a.DailyReport.{
  Reply, failed, replied, ReportLine, line_key, results_of, by_timestamp, by_count,
  truncate_message, fetch_errors_for_app, group_errors, slack_char_limit, build_slack_message,
  fetch_app_list, count_messages, first_line, lines_of, unique_lines, fetch_json, total_errors,
}
use nestjs_graphql_fastify_a.DailyReport.Script.{Environment, main, deliver, errors_of, report_on}
use nestjs_graphql_fastify_a.DailyReport.Groups.{times, counted, sum_counts, group_errors_lem}
use nestjs_graphql_fastify_a.DailyReport.Collected.{fetch_errors_for_app_lem}
use nestjs_graphql_fastify_a.DailyReport.Message.{report_text, kept, build_slack_message_lem}
use nestjs_graphql_fastify_a.DailyReport.Outcomes.{HasNothingToSay, main-HasNothingToSay}

abbrev line_at : String → String → ReportLine
line_at t m = record { timestamp = some t; message = some m }

abbrev three_lines : List ReportLine
three_lines =
    line_at "2026-01-09T10:00:00" "refused\n  at connect"
    ∷ line_at "2026-01-09T11:00:00" "timeout"
    ∷ line_at "2026-01-09T12:00:00" "refused\n  at retry"
    ∷ []

grouped : group_errors three_lines ≡ ("refused", 2) ∷ ("timeout", 1) ∷ []
unfolding group_errors count_messages truncate_message first_line slice_to sort insert_sorted insert
    lookup
grouped = refl

group_errors_lem_example :
    let groups = group_errors three_lines in
    (counted "refused" groups ≡ times "refused" three_lines)
    × Distinct (map (λ entry. entry.0) groups)
    × (sum_counts groups ≡ length three_lines)
    × IsSorted by_count groups
group_errors_lem_example = group_errors_lem three_lines "refused"

abbrev same_url : String → String
same_url s = s

-- Both instances answer with the same lines.
abbrev answer_lines : String → Reply (List ReportLine)
answer_lines url = replied 200 (some three_lines)

abbrev any_order : String → String → Bool
any_order a b = true

any_order-IsOrder : IsOrder any_order
any_order-IsOrder = record { total = λ a b. inl refl; transitive = λ a b c h k. refl }

abbrev two_ips : List String
two_ips = "10.0.0.1" ∷ "10.0.0.2" ∷ []

collected :
    length (fetch_errors_for_app same_url answer_lines any_order "auth" "2026-01-09" two_ips "4003")
    ≡ 3
unfolding fetch_errors_for_app results_of lines_of unique_lines contains add sort insert_sorted
    fetch_json
collected = refl

fetch_errors_for_app_lem_example :
    let errors =
      fetch_errors_for_app same_url answer_lines any_order "auth" "2026-01-09" two_ips "4003" in
    IsSorted (by_timestamp any_order) errors
    × Distinct (map line_key errors)
    × (contains "2026-01-09T11:00:00|timeout" (map line_key errors)
        ≡ contains "2026-01-09T11:00:00|timeout"
            (map line_key (results_of same_url answer_lines "auth" "2026-01-09" "4003" two_ips)))
fetch_errors_for_app_lem_example =
    fetch_errors_for_app_lem same_url answer_lines any_order "auth" "2026-01-09" two_ips "4003"
      "2026-01-09T11:00:00|timeout" any_order-IsOrder

abbrev one_app : List (String × List ReportLine)
one_app = ("auth", three_lines) ∷ []

build_slack_message_lem_example :
    let full = report_text "2026-01-09" one_app in
    let text = (build_slack_message "2026-01-09" one_app).0 in
    (count text ≡ min slack_char_limit (count full))
    × (slice_to kept text ≡ slice_to kept full)
    × ((text ≡ full) ⊎ (slack_char_limit < count full))
build_slack_message_lem_example = build_slack_message_lem "2026-01-09" one_app

abbrev quiet_day : Environment
quiet_day = record {
  slack_webhook_url = some "https://hooks.slack.com/services/x";
  log_streamer_host = "tasks.log-streamer";
  log_streamer_port = "4003";
  report_no_errors = false;
  yesterday = "2026-01-09";
  encode = same_url;
  locale_le = any_order;
  resolve4 = λ host. some two_ips;
  fetch_apps = λ url. replied 200 (some ("auth" ∷ "gateway" ∷ []));
  fetch_lines = λ url. replied 200 (some []);
  post = λ text. replied 200 (some "ok");
}

quiet_day_ends : (main quiet_day).exit_code ≡ 0
unfolding main report_on deliver results_of errors_of fetch_errors_for_app lines_of unique_lines
    contains add sort fetch_json fetch_app_list build_slack_message total_errors
quiet_day_ends = refl

quiet_day_says : (main quiet_day).posted ≡ none
unfolding main report_on deliver results_of errors_of fetch_errors_for_app lines_of unique_lines
    contains add sort fetch_json fetch_app_list build_slack_message total_errors
quiet_day_says = refl

main-HasNothingToSay_example : HasNothingToSay quiet_day
main-HasNothingToSay_example = main-HasNothingToSay quiet_day quiet_day_ends quiet_day_says

-- The second instance is asked where the first one fails.
second_instance :
    fetch_app_list
      (λ url.
        if url == "http://10.0.0.1:4003/api/logs/apps"
        then failed
        else replied 200 (some ("auth" ∷ [])))
      "4003"
      two_ips
    ≡ some ("auth" ∷ [])
unfolding fetch_app_list fetch_json
second_instance = refl
