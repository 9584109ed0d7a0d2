-- ===== src/DailyReport/Script.antt =====
-- How the script ends: `postSlack` and `main` of scripts/daily-error-report.mjs.
use nestjs_graphql_fastify_a.Common.{
  ℕ, String, Bool, false, not, ◌&&◌, Option, none, some, List, [], ◌∷◌, ◌==◌, string_eq, nat_eq,
  if◌then◌else◌,
}
use nestjs_graphql_fastify_a.Common.Text.{truthy?}
use nestjs_graphql_fastify_a.DailyReport.{
  Reply, failed, replied, is_ok, ReportLine, fetch_app_list, fetch_errors_for_app,
  build_slack_message,
}

-- How the script ended: its exit code, and the text that it handed to Slack.
pub record Outcome : Type 0 where
  pub exit_code : ℕ
  pub posted : Option String

-- The environment variables and what the network answers.
pub record Environment : Type 0 where
  pub slack_webhook_url : Option String
  pub log_streamer_host : String
  pub log_streamer_port : String
  pub report_no_errors : Bool
  pub yesterday : String
  pub encode : String → String
  pub locale_le : String → String → Bool
  pub resolve4 : String → Option (List String)
  pub fetch_apps : String → Reply (List String)
  pub fetch_lines : String → Reply (List ReportLine)
  pub post : String → Reply String

abbrev pub exit_failure : Outcome
exit_failure = record { exit_code = 1; posted = none }

-- `postSlack`: whether it returns.
unfoldable pub post_slack : Reply String → Bool
post_slack failed = false
post_slack (replied status body) = is_ok status

module _ (env : Environment) where
  unfoldable pub errors_of : List String → List String → List (String × List ReportLine)
  errors_of ips [] = []
  errors_of ips (app ∷ apps) =
      (
        app,
        fetch_errors_for_app env.encode env.fetch_lines env.locale_le app env.yesterday ips
            env.log_streamer_port,
      )
      ∷ errors_of ips apps

  -- Steps 5 and 6 of `main`
  unfoldable pub deliver : List (String × List ReportLine) → Outcome
  deliver app_errors =
      let message = build_slack_message env.yesterday app_errors in
      if message.1 == 0 && not env.report_no_errors
      then record { exit_code = 0; posted = none }
      else record {
        exit_code = if post_slack (env.post message.0) then 0 else 1;
        posted = some message.0;
      }

  -- Steps 3 and 4
  unfoldable pub report_on : List String → Outcome
  unfolding deliver errors_of
  report_on ips = elim (fetch_app_list env.fetch_apps env.log_streamer_port ips) [
    | none ↦ exit_failure
    | some apps ↦ deliver (errors_of ips apps)
  ]

  -- `main`
  unfoldable pub main : Outcome
  unfolding report_on
  main =
      if not (truthy? env.slack_webhook_url)
      then exit_failure
      else elim (env.resolve4 env.log_streamer_host) [
        | none ↦ exit_failure
        | some ips ↦ report_on ips
      ]
