-- ===== src/DailyReport/Outcomes.antt =====
-- What it means that the script ends well and sends nothing.
use nestjs_graphql_fastify_a.Common.{
  String, false, none, some, List, [], ◌∷◌, ◌++◌, length, All, ◌≡◌, refl, ap, arith, Bool-cases,
  Option-cases, inl, inr, contains,
}
use nestjs_graphql_fastify_a.Common.Text.{truthy?}
use nestjs_graphql_fastify_a.Common.Sorting.{length-sort}
use nestjs_graphql_fastify_a.DailyReport.{
  ReportLine, unique_lines, results_of, lines_of, fetch_app_list, by_timestamp,
  fetch_errors_for_app, total_errors, build_slack_message,
}
use nestjs_graphql_fastify_a.DailyReport.Script.{Environment, errors_of, deliver, report_on, main}

unique_lines-nil : (lines : List ReportLine) → length (unique_lines [] lines) ≡ 0 → lines ≡ []
unfolding unique_lines contains
unique_lines-nil [] h = refl
unique_lines-nil (line ∷ lines) h = absurd (omega (arith, h))

append-nil_left : {A : Type 0} (xs ys : List A) → xs ++ ys ≡ [] → (xs ≡ []) × (ys ≡ [])
append-nil_left [] ys h = (refl, h)
append-nil_left (x ∷ xs) ys h = absurd (ground (arith, ap length h))

module _ (env : Environment) where
  -- No instance has answered with an error of this app.
  abbrev pub IsQuiet : List String → String → Type 0
  IsQuiet ips app =
      All
        (λ ip. lines_of env.encode env.fetch_lines app env.yesterday env.log_streamer_port ip ≡ [])
        ips

  results_of-IsQuiet :
      (app : String) (ips : List String)
      → results_of env.encode env.fetch_lines app env.yesterday env.log_streamer_port ips ≡ []
      → IsQuiet ips app
  unfolding results_of
  results_of-IsQuiet app [] h = tt
  results_of-IsQuiet app (ip ∷ ips) h =
      let (here, there) = append-nil_left _ _ h in (here, results_of-IsQuiet app ips there)

  errors_of-IsQuiet :
      (ips apps : List String) → total_errors (errors_of env ips apps) ≡ 0 → All (IsQuiet ips) apps
  unfolding total_errors errors_of fetch_errors_for_app
  errors_of-IsQuiet ips [] h = tt
  errors_of-IsQuiet ips (app ∷ apps) h =
      let results =
        results_of env.encode env.fetch_lines app env.yesterday env.log_streamer_port ips in
      let unique = unique_lines [] results in
      (
        results_of-IsQuiet app ips (
            unique_lines-nil results
              (omega (arith, h, length-sort (by_timestamp env.locale_le) unique))),
        errors_of-IsQuiet ips apps (omega (arith, h)),
      )

  deliver-silent :
      (ips apps : List String)
      → (deliver env (errors_of env ips apps)).posted ≡ none
      → All (IsQuiet ips) apps × (env.report_no_errors ≡ false)
  unfolding deliver build_slack_message
  deliver-silent ips apps h =
      let total = total_errors (errors_of env ips apps) in
      let quiet : (total ≡ 0) × (env.report_no_errors ≡ false) = ground (arith, h) in
      (errors_of-IsQuiet ips apps quiet.0, quiet.1)

  -- Why the script said nothing and ended well.
  pub record HasNothingToSay : Type 0 where
    pub ips : List String
    pub apps : List String
    pub resolved : env.resolve4 env.log_streamer_host ≡ some ips
    pub listed : fetch_app_list env.fetch_apps env.log_streamer_port ips ≡ some apps
    pub quiet : All (IsQuiet ips) apps
    pub not_wanted : env.report_no_errors ≡ false

  report_on-silent :
      (ips : List String)
      → env.resolve4 env.log_streamer_host ≡ some ips
      → (report_on env ips).exit_code ≡ 0
      → (report_on env ips).posted ≡ none
      → HasNothingToSay
  unfolding report_on
  report_on-silent ips e ends says =
      elim (Option-cases (fetch_app_list env.fetch_apps env.log_streamer_port ips)) [
        | inl l ↦ absurd (ground (arith, l, ends))
        | inr (apps, l) ↦
            let all_quiet = deliver-silent ips apps (ground (arith, l, says)) in
            record {
              ips = ips;
              apps = apps;
              resolved = e;
              listed = l;
              quiet = all_quiet.0;
              not_wanted = all_quiet.1;
            }
      ]

  -- The script ends with exit code 0 and no message only if the instances were found, the first of
  -- them that answered listed the apps, none of the instances answered with an error line for any of
  -- these apps, and a report without errors is not wanted.
  pub main-HasNothingToSay : (main env).exit_code ≡ 0 → (main env).posted ≡ none → HasNothingToSay
  unfolding main
  main-HasNothingToSay ends says = elim (Bool-cases (truthy? env.slack_webhook_url)) [
    | inl hook ↦ elim (Option-cases (env.resolve4 env.log_streamer_host)) [
      | inl e ↦ absurd (ground (arith, hook, e, ends))
      | inr (ips, e) ↦
          report_on-silent ips e (ground (arith, hook, e, ends)) (ground (arith, hook, e, says))
    ]
    | inr hook ↦ absurd (ground (arith, hook, ends))
  ]
