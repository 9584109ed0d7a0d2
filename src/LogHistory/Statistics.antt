-- ===== src/LogHistory/Statistics.antt =====
-- The merged statistics are the sums over the accepted answers.
use nestjs_graphql_fastify_a.Common.{
  ℕ, ◌+◌, String, Option, List, [], ◌∷◌, filter, ◌≡◌, arith, Bool-cases, inl, inr,
}
use nestjs_graphql_fastify_a.Common.Settled.{Settled, values}
use nestjs_graphql_fastify_a.LogHistory.{
  LogStatsResponse, LogSummary, accepts, add_stats, merge_from, merge_stats, no_stats,
}

pub sum_of : (LogStatsResponse → ℕ) → List LogStatsResponse → ℕ
sum_of f [] = 0
sum_of f (r ∷ rs) = f r + sum_of f rs

-- The answers that arrived from a node that the filter lets pass.
abbrev pub accepted : Option String → List (Settled LogStatsResponse) → List LogStatsResponse
accepted node_filter results = filter (λ r. accepts node_filter r.node) (values results)

merge_from_lem :
    (wanted : Option String) (rs : List LogStatsResponse) (s : LogSummary)
    → let t = merge_from wanted rs s in
      let kept = filter (λ r. accepts wanted r.node) rs in
      (t.total_lines ≡ s.total_lines + sum_of (λ r. r.total_lines) kept)
      × (t.error_count ≡ s.error_count + sum_of (λ r. r.error_count) kept)
      × (t.warn_count ≡ s.warn_count + sum_of (λ r. r.warn_count) kept)
      × (t.info_count ≡ s.info_count + sum_of (λ r. r.info_count) kept)
      × (t.file_count ≡ s.file_count + sum_of (λ r. r.file_count) kept)
unfolding merge_from sum_of
merge_from_lem wanted [] s = omega arith
merge_from_lem wanted (r ∷ rs) s = elim (Bool-cases (accepts wanted r.node)) [
  | inl passed ↦ ground (arith, merge_from_lem wanted rs (add_stats s r))
  | inr skipped ↦ ground (arith, merge_from_lem wanted rs s)
]

-- Each total of the summary is the sum of that total over the answers that arrived from an
-- accepted node: a rejected request, or a node that the filter leaves out, adds nothing.
pub merge_stats_lem :
    (results : List (Settled LogStatsResponse)) (wanted : Option String)
    → let t = merge_stats results wanted in
      let kept = accepted wanted results in
      (t.total_lines ≡ sum_of (λ r. r.total_lines) kept)
      × (t.error_count ≡ sum_of (λ r. r.error_count) kept)
      × (t.warn_count ≡ sum_of (λ r. r.warn_count) kept)
      × (t.info_count ≡ sum_of (λ r. r.info_count) kept)
      × (t.file_count ≡ sum_of (λ r. r.file_count) kept)
unfolding merge_stats
merge_stats_lem results wanted = omega (arith, merge_from_lem wanted (values results) no_stats)
