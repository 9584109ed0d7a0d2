-- ===== src/UiSearch.antt =====
-- apps/ui/src/hooks/useLogSearch.ts: the matches of a query in the lines of a log, and the walk
-- from one to the next. `toLowerCase` is a parameter, since it stands on the tables of Unicode.
pub mod Matches
mod Tests
use Prim.Native.String
use nestjs_graphql_fastify_a.Common.{
  ℕ, suc, ◌+◌, ◌-◌, ◌%◌, min, String, Bool, true, false, not, ◌&&◌, ◌||◌, Option, none, some, List,
  [], ◌∷◌, filter, if◌then◌else◌, ltb, ◌==◌, nat_eq, string_eq,
}
use nestjs_graphql_fastify_a.Common.Text.{truthy, starts_with, includes}

-- `MatchInfo`
pub record MatchInfo : Type 0 where
  pub log_index : ℕ
  pub match_count : ℕ

-- `SearchMode`
pub data SearchMode : Type 0 where
  filters finds : SearchMode

abbrev pub is_find : SearchMode → Bool
is_find filters = false
is_find finds = true

-- `text.length`, in characters
unfoldable pub text_length : String → ℕ
text_length String.[] = 0
text_length (String.◌∷◌ c s) = suc (text_length s)

-- The loop of `countMatches`, from a position before which so many characters are passed over:
-- occurrences do not overlap.
unfoldable pub count_from : (query : String) (skip : ℕ) (text : String) → ℕ
count_from query skip String.[] = 0
count_from query (suc skip) (String.◌∷◌ c text) = count_from query skip text
count_from query ℕ.zero (String.◌∷◌ c text) =
    let after_match = count_from query (text_length query - 1) text in
    let later = count_from query 0 text in
    if starts_with query (String.◌∷◌ c text) then suc after_match else later

module _ (to_lower_case : String → String) where
  -- `countMatches`
  unfoldable pub count_matches : (text query : String) → ℕ
  unfolding count_from
  count_matches text query =
      if truthy query then count_from (to_lower_case query) 0 (to_lower_case text) else 0

  -- A line that the filter shows; the lines are given by their messages.
  unfoldable pub is_shown : (query message : String) → Bool
  is_shown query message = includes (to_lower_case query) (to_lower_case message)

  unfoldable pub filtered_logs : SearchMode → String → List String → List String
  filtered_logs mode query logs =
      if is_find mode || not (truthy query) then logs else filter (is_shown query) logs

  -- The loop that computes `matches`, from the index of the first line
  unfoldable pub matches_from : ℕ → String → List String → List MatchInfo
  matches_from i query [] = []
  matches_from i query (message ∷ logs) =
      let rest = matches_from (suc i) query logs in
      let count = count_matches message query in
      if ltb 0 count then record { log_index = i; match_count = count } ∷ rest else rest

  unfoldable pub matches : SearchMode → String → List String → List MatchInfo
  matches mode query logs =
      if not (is_find mode) || not (truthy query) then [] else matches_from 0 query logs

-- `totalMatches`
unfoldable pub total_matches : List MatchInfo → ℕ
total_matches [] = 0
total_matches (m ∷ ms) = m.match_count + total_matches ms

unfoldable pub clamped_index : ℕ → ℕ → ℕ
clamped_index total current = if ltb 0 total then min current (total - 1) else 0

-- The loop that finds the line and the position in it; `none` is that it runs to its end.
unfoldable pub locate : (remaining : ℕ) → List MatchInfo → Option (ℕ × ℕ)
locate remaining [] = none
locate remaining (m ∷ ms) =
    let rest = locate (remaining - m.match_count) ms in
    if ltb remaining m.match_count then some (m.log_index, remaining) else rest

-- `next` and `prev`
unfoldable pub next : (total current : ℕ) → ℕ
next total current = if total == 0 then current else (current + 1) % total

-- `prev - 1 + totalMatches`, which is not negative where there is a match.
unfoldable pub prev : (total current : ℕ) → ℕ
prev total current = if total == 0 then current else (current + total - 1) % total
