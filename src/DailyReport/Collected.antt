-- ===== src/DailyReport/Collected.antt =====
-- The errors of one app: every key once, in the order of the timestamps.
use nestjs_graphql_fastify_a.Common.{
  String, Bool, not, ◌&&◌, List, [], ◌∷◌, map, Distinct, contains, add, contains-add, string_eq,
  ◌≡◌, refl, ◌∙◌, arith, eq_iff,
}
use nestjs_graphql_fastify_a.Common.Sorting.{IsSorted, IsOrder, sort-IsSorted}
use nestjs_graphql_fastify_a.Common.SortedKeys.{sort-Distinct, contains-sort}
use nestjs_graphql_fastify_a.DailyReport.{
  Reply, ReportLine, line_key, unique_lines, results_of, by_timestamp, fetch_errors_for_app,
}

abbrev line_keys : List ReportLine → List String
line_keys = map line_key

contains-unique_lines :
    (key : String) (seen : List String) (lines : List ReportLine)
    → contains key (line_keys (unique_lines seen lines))
      ≡ (contains key (line_keys lines) && not (contains key seen))
unfolding unique_lines contains
contains-unique_lines key seen [] = refl
contains-unique_lines key seen (line ∷ lines) = ground (
  arith,
  contains-unique_lines key seen lines,
  contains-unique_lines key (add (line_key line) seen) lines,
  contains-add key (line_key line) seen,
  eq_iff (line_key line) key,
)

unique_lines-Distinct :
    (seen : List String) (lines : List ReportLine) → Distinct (line_keys (unique_lines seen lines))
unfolding unique_lines
unique_lines-Distinct seen [] = tt
unique_lines-Distinct seen (line ∷ lines) = ground (
  arith,
  unique_lines-Distinct seen lines,
  unique_lines-Distinct (add (line_key line) seen) lines,
  contains-unique_lines (line_key line) (add (line_key line) seen) lines,
  contains-add (line_key line) (line_key line) seen,
  eq_iff (line_key line) (line_key line),
)

-- Where the locale's order is total and transitive, the errors of an app are sorted by timestamp, no
-- two of them have the same key of timestamp and message, and a key is among them exactly if some
-- instance's answer for the app has a line with that key.
pub fetch_errors_for_app_lem :
    (encode : String → String) (fetch : String → Reply (List ReportLine))
    (locale_le : String → String → Bool) (app date : String) (ips : List String) (port key : String)
    → IsOrder locale_le
    → let errors = fetch_errors_for_app encode fetch locale_le app date ips port in
      IsSorted (by_timestamp locale_le) errors
      × Distinct (map line_key errors)
      × (contains key (map line_key errors)
          ≡ contains key (map line_key (results_of encode fetch app date port ips)))
unfolding fetch_errors_for_app contains
fetch_errors_for_app_lem encode fetch locale_le app date ips port key o =
    let results = results_of encode fetch app date port ips in
    let unique = unique_lines [] results in
    let le = by_timestamp locale_le in
    (
      sort-IsSorted le
          (record { total = λ a b. o.total _ _; transitive = λ a b c. o.transitive _ _ _ }) unique,
      sort-Distinct line_key le unique (unique_lines-Distinct [] results),
      contains-sort line_key le key unique ∙ ground (arith, contains-unique_lines key [] results),
    )
