-- ===== src/UiSearch/Tests.antt =====
-- The theorems on the search at a log of two lines.
use nestjs_graphql_fastify_a.Common.{ℕ, ◌+◌, ◌<◌, String, some, List, [], ◌∷◌, ◌++◌, ◌≡◌, arith}
use nestjs_graphql_fastify_a.UiSearch.{MatchInfo, total_matches, locate}
use nestjs_graphql_fastify_a.UiSearch.Matches.{locate_lem}

-- A table of letters that are all in lower case.
abbrev lower : String → String
lower text = text

abbrev found : List MatchInfo
found = record { log_index = 0; match_count = 2 } ∷ record { log_index = 4; match_count = 1 } ∷ []

locate_lem_example :
    (before : List MatchInfo) × (m : MatchInfo) × (after : List MatchInfo) × (position : ℕ) × (found
      ≡ before ++ m ∷ after)
    × (locate 2 found ≡ some (m.log_index, position))
    × (total_matches before + position ≡ 2)
    × (position < m.match_count)
unfolding total_matches
locate_lem_example = locate_lem found 2 (omega arith)
