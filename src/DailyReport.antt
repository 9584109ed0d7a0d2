-- ===== src/DailyReport.antt =====
-- The daily error report (scripts/daily-error-report.mjs): the apps and their errors that the log
-- streamer instances answer with, the groups of equal messages, and the text for Slack; Script is the
-- end of the script. What `fetch` and the name lookup answer, `encodeURIComponent` and `localeCompare`
-- are parameters.
mod Groups
mod Collected
mod Message
mod Script
mod Outcomes
mod Tests
use Prim.Native.Char.{code}
use Prim.Native.String.{count}
use Prim.Native.String as Str
use nestjs_graphql_fastify_a.Common.{
  ℕ, zero, suc, ◌+◌, ◌-◌, ◌<◌, String, Bool, true, false, not, ◌&&◌, Option, none, some, List, [],
  ◌∷◌, ◌++◌, length, contains, add, insert, lookup, ltb, leb, ◌==◌, string_eq, nat_eq,
  if◌then◌else◌, or_default, map,
}
use nestjs_graphql_fastify_a.Common.Text.{template, slice_to, to_text, truthy, truthy?}
use nestjs_graphql_fastify_a.Common.Sorting.{sort}

-- What `fetch` answers: nothing (a network error or the time limit), or a status and a body. The
-- body is missing where it is no JSON of the expected shape, which makes the script throw too.
pub data Reply (A : Type 0) : Type 0 where
  failed : Reply A
  replied : (status : ℕ) (body : Option A) → Reply A

-- `res.ok`
abbrev pub is_ok : ℕ → Bool
is_ok status = leb 200 status && leb status 299

-- `fetchJson`: `none` where it throws.
unfoldable pub fetch_json : {A : Type 0} → Reply A → Option A
fetch_json failed = none
fetch_json (replied status body) = if is_ok status then body else none

-- A log line of a search answer; a field that is not there is `none`.
pub record ReportLine : Type 0 where
  pub timestamp : Option String
  pub message : Option String

abbrev pub apps_url : (ip port : String) → String
apps_url ip port = template ("http://" ∷ ip ∷ ":" ∷ port ∷ "/api/logs/apps" ∷ [])

-- `fetchAppList`: the first instance that answers.
unfoldable pub fetch_app_list :
    (String → Reply (List String)) → String → List String → Option (List String)
fetch_app_list fetch port [] = none
fetch_app_list fetch port (ip ∷ ips) =
    let rest = fetch_app_list fetch port ips in
    elim (fetch_json (fetch (apps_url ip port))) [ some names ↦ some names | none ↦ rest ]

module _ (encode : String → String) (fetch : String → Reply (List ReportLine)) where
  abbrev pub search_url : (app date port ip : String) → String
  search_url app date port ip = template (
      "http://"
      ∷ ip
      ∷ ":"
      ∷ port
      ∷ "/api/logs/search"
      ∷ "?app="
      ∷ encode app
      ∷ "&from="
      ∷ date
      ∷ "&to="
      ∷ date
      ∷ "&level=ERROR&limit=500"
      ∷ [])

  -- The lines that one instance adds: none where it fails.
  unfoldable pub lines_of : (app date port ip : String) → List ReportLine
  lines_of app date port ip = or_default (fetch_json (fetch (search_url app date port ip))) []

  -- The first loop of `fetchErrorsForApp`.
  unfoldable pub results_of : (app date port : String) → List String → List ReportLine
  results_of app date port [] = []
  results_of app date port (ip ∷ ips) = lines_of app date port ip ++ results_of app date port ips

-- A field in a template literal. The log streamers leave a field out or send a text, never `null`.
abbrev pub shown : Option String → String
shown none = "undefined"
shown (some s) = s

abbrev pub line_key : ReportLine → String
line_key line = template (shown line.timestamp ∷ "|" ∷ shown line.message ∷ [])

-- The loop that keeps a line whose key is new.
unfoldable pub unique_lines : (seen : List String) → List ReportLine → List ReportLine
unique_lines seen [] = []
unique_lines seen (line ∷ lines) =
    let kept = unique_lines (add (line_key line) seen) lines in
    let skipped = unique_lines seen lines in
    if contains (line_key line) seen then skipped else line ∷ kept

-- `(a.timestamp || '').localeCompare(b.timestamp || '') <= 0`
abbrev pub by_timestamp : (String → String → Bool) → ReportLine → ReportLine → Bool
by_timestamp locale_le a b = locale_le (or_default a.timestamp "") (or_default b.timestamp "")

-- `fetchErrorsForApp`
unfoldable pub fetch_errors_for_app :
    (encode : String → String)
    → (String → Reply (List ReportLine))
    → (locale_le : String → String → Bool) → (app date : String) → List String
    → (port : String) → List ReportLine
unfolding results_of
fetch_errors_for_app encode fetch locale_le app date ips port =
    sort (by_timestamp locale_le) (unique_lines [] (results_of encode fetch app date port ips))

-- `text.split('\n')[0]`
unfoldable pub first_line : String → String
first_line Str.[] = ""
first_line (Str.◌∷◌ c s) = let rest = first_line s in if code c == 10 then "" else Str.◌∷◌ c rest

-- `truncateMessage` with its default `max`
unfoldable pub truncate_message : Option String → String
unfolding slice_to first_line
truncate_message none = ""
truncate_message (some s) =
    let line = first_line s in
    if leb (count line) 200 then line else template (slice_to 200 line ∷ "..." ∷ [])

-- `counts.set(msg, (counts.get(msg) || 0) + 1)` for each error
unfoldable pub count_messages : List (String × ℕ) → List ReportLine → List (String × ℕ)
count_messages counts [] = counts
count_messages counts (line ∷ lines) =
    let msg = truncate_message line.message in
    count_messages (insert msg (or_default (lookup msg counts) 0 + 1) counts) lines

-- `b.count - a.count <= 0`
abbrev pub by_count : String × ℕ → String × ℕ → Bool
by_count a b = leb b.1 a.1

-- `groupErrors`
unfoldable pub group_errors : List ReportLine → List (String × ℕ)
group_errors errors = sort by_count (count_messages [] errors)

abbrev pub slack_char_limit : ℕ
slack_char_limit = 40000

abbrev pub notice : String
notice = "\n\n:warning: _Report truncated due to Slack message size limit._"

-- The lines of the groups of one app
unfoldable pub group_parts : List (String × ℕ) → List String
group_parts [] = []
group_parts ((message, n) ∷ groups) =
    let suffix = if ltb 1 n then template (" _(" ∷ to_text n ∷ "건)_" ∷ []) else "" in
    template ("> • " ∷ message ∷ suffix ∷ []) ∷ group_parts groups

-- The lines of one app: the header, the groups and an empty line.
unfoldable pub app_parts : String × List ReportLine → List String
unfolding group_parts
app_parts (app, errors) =
    if length errors == 0
    then template (":white_check_mark: *" ∷ app ∷ "* — ERROR: 0건" ∷ []) ∷ "" ∷ []
    else template (":red_circle: *" ∷ app ∷ "* — ERROR: " ∷ to_text (length errors) ∷ "건" ∷ [])
      ∷ (group_parts (group_errors errors) ++ "" ∷ [])

unfoldable pub all_parts : List (String × List ReportLine) → List String
unfolding app_parts
all_parts [] = []
all_parts (a ∷ as_) = app_parts a ++ all_parts as_

-- `totalErrors` after the loop
unfoldable pub total_errors : List (String × List ReportLine) → ℕ
total_errors [] = 0
total_errors ((app, errors) ∷ rest) = length errors + total_errors rest

-- `parts.join('\n')`
unfoldable pub join_lines : List String → String
join_lines [] = ""
join_lines (part ∷ []) = part
join_lines (part ∷ next ∷ parts) = template (part ∷ "\n" ∷ join_lines (next ∷ parts) ∷ [])

-- The cut at Slack's limit
unfoldable pub limited : String → String
unfolding slice_to
limited text =
    if ltb slack_char_limit (count text)
    then template (slice_to (slack_char_limit - count notice) text ∷ notice ∷ [])
    else text

-- `buildSlackMessage`: the text and `totalErrors`
unfoldable pub build_slack_message : String → List (String × List ReportLine) → String × ℕ
unfolding all_parts
build_slack_message date app_errors = (
  limited (
      join_lines
        (template ("*Daily ERROR Log Report (" ∷ date ∷ ")*" ∷ []) ∷ "" ∷ all_parts app_errors)),
  total_errors app_errors,
)
