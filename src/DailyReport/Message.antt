-- ===== src/DailyReport/Message.antt =====
-- The length of the text for Slack.
use Prim.Native.String.{count, [], ◌∷◌}
use Prim.Native.String.{◌++◌ as ◌⧺◌}
use Prim.Native.String.count as counts
use Prim.Native.String.append
use text.Mathlib.TextLemmas.{length-append, append-nil}
use nestjs_graphql_fastify_a.Common.{
  ℕ, zero, suc, ◌-◌, ◌≤◌, ◌<◌, min, String, List, if_elim, ltb, ◌≡◌, refl, ap, arith, ltb→lt, ◌⊎◌,
  inl, inr,
}
use nestjs_graphql_fastify_a.Common.Text.{slice_to, template}
use nestjs_graphql_fastify_a.DailyReport.{
  ReportLine, slack_char_limit, notice, limited, join_lines, all_parts, build_slack_message,
}

count-slice_to : (n : ℕ) (s : String) → count (slice_to n s) ≡ min n (count s)
unfolding slice_to
count-slice_to zero s = omega (arith, counts.nil)
count-slice_to (suc n) [] = omega (arith, counts.nil)
count-slice_to (suc n) (c ∷ s) =
    omega (arith, counts.cons c (slice_to n s), counts.cons c s, count-slice_to n s)

slice_to-append :
    (n : ℕ) (s t : String) → n ≤ count s → slice_to n (slice_to n s ⧺ t) ≡ slice_to n s
unfolding slice_to
slice_to-append zero s t h = refl
slice_to-append (suc n) [] t h = absurd (omega (arith, counts.nil))
slice_to-append (suc n) (c ∷ s) t h =
    rw (append.cons c (slice_to n s) t)
      (ap (◌∷◌ c) (slice_to-append n s t (omega (arith, counts.cons c s))))

-- The report before the cut
abbrev pub report_text : String → List (String × List ReportLine) → String
report_text date app_errors = join_lines (
    List.◌∷◌
      (template (List.◌∷◌ "*Daily ERROR Log Report (" (List.◌∷◌ date (List.◌∷◌ ")*" List.[]))))
      (List.◌∷◌ "" (all_parts app_errors)))

-- What of the report is kept where it is cut
abbrev pub kept : ℕ
kept = slack_char_limit - count notice

count-limited : (text : String) → count (limited text) ≡ min slack_char_limit (count text)
unfolding limited
count-limited text =
    if_elim (λ t. count t ≡ min slack_char_limit (count text)) (ltb slack_char_limit (count text))
      (λ long. omega (
        arith,
        ltb→lt slack_char_limit (count text) long,
        ap count (append-nil notice),
        length-append (slice_to kept text) (notice ⧺ ""),
        count-slice_to kept text,
      ))
      (λ short. ground (arith, short))

slice_to-limited : (text : String) → slice_to kept (limited text) ≡ slice_to kept text
unfolding limited
slice_to-limited text =
    if_elim (λ t. slice_to kept t ≡ slice_to kept text) (ltb slack_char_limit (count text))
      (λ long.
        slice_to-append kept text (notice ⧺ "")
          (omega (arith, ltb→lt slack_char_limit (count text) long)))
      (λ short. refl)

limited_or_long : (text : String) → (limited text ≡ text) ⊎ (slack_char_limit < count text)
unfolding limited
limited_or_long text =
    if_elim (λ t. (t ≡ text) ⊎ (slack_char_limit < count text)) (ltb slack_char_limit (count text))
      (λ long. inr (ltb→lt slack_char_limit (count text) long)) (λ short. inl refl)

-- The text for Slack has the length of the report, but never more than Slack's limit, it agrees with
-- the report on all that is kept where the report is cut, and it is the report itself unless that is
-- longer than the limit.
pub build_slack_message_lem :
    (date : String) (app_errors : List (String × List ReportLine))
    → let full = report_text date app_errors in
      let text = (build_slack_message date app_errors).0 in
      (count text ≡ min slack_char_limit (count full))
      × (slice_to kept text ≡ slice_to kept full)
      × ((text ≡ full) ⊎ (slack_char_limit < count full))
unfolding build_slack_message
build_slack_message_lem date app_errors =
    let full = report_text date app_errors in
    (count-limited full, slice_to-limited full, limited_or_long full)
