-- ===== src/LogHistory/Search.antt =====
-- What `search` returns, against the lines that the log streamers answered.
use mathlib.Core.List.{Perm}
use nestjs_graphql_fastify_a.Common.{
  ℕ, zero, suc, ◌+◌, ◌-◌, ◌≤◌, String, Bool, true, false, ◌||◌, Option, List, [], ◌∷◌, ◌++◌, map,
  filter, any, length, take, All, ◌≡◌, ◌⊎◌, refl, ap, ◌∙◌, arith, Bool-cases, inl, inr,
  append_assoc, append-nil, length-take,
}
use nestjs_graphql_fastify_a.Common.Text.{template}
use nestjs_graphql_fastify_a.Common.Settled.{Settled, values, flatten}
use nestjs_graphql_fastify_a.Common.Sorting.{
  sort, sort-perm, length-sort, sort-IsSorted, IsSorted, IsOrder,
}
use nestjs_graphql_fastify_a.LogHistory.{
  ℤ, pos, negsuc, exceeds, LogLine, LogSearchResponse, LogStatsResponse, LogSearchInput,
  LogSearchResult, Params, accepts, lines_of, gather_one, gather_lines, page, search, by_timestamp,
  limit_of, search_params, discover_log_streamer_urls,
}

-- The answers that the filter lets pass, and all their lines with the node that answered.
abbrev pub passed : Option String → List LogSearchResponse → List LogSearchResponse
passed node = filter (λ r. accepts node r.node)

abbrev pub all_lines : Option String → List LogSearchResponse → List LogLine
all_lines node rs = flatten (map lines_of (passed node rs))

gather_lines_lem :
    (wanted : Option String) (rs : List LogSearchResponse) (lines : List LogLine) (more : Bool)
    → gather_lines wanted rs (lines, more)
      ≡ (lines ++ all_lines wanted rs, any (λ r. r.has_more) (passed wanted rs) || more)
unfolding gather_lines gather_one flatten
gather_lines_lem wanted [] lines more = rw append-nil
gather_lines_lem wanted (r ∷ rs) lines more = elim (Bool-cases (accepts wanted r.node)) [
  | inl pass ↦
      rw (pass, gather_one)
        (gather_lines_lem wanted rs (lines ++ lines_of r) (r.has_more || more)
          ∙ pair_path (append_assoc lines (lines_of r) (all_lines wanted rs))
              (or_rotate (any (λ r. r.has_more) (passed wanted rs)) r.has_more more))
  | inr stop ↦ rw (stop, gather_one) (gather_lines_lem wanted rs lines more)
]
  where
    pair_path :
        {xs ys : List LogLine} {b c : Bool}
        → xs ≡ ys
        → b ≡ c
        → ◌≡◌ {A = List LogLine × Bool} (xs, b) (ys, c)
    pair_path p q = cc

    or_rotate : (a b c : Bool) → (a || (b || c)) ≡ ((b || a) || c)
    or_rotate a b c = ground arith

take-All {ℓ κ} : {A : Type ℓ} (P : A → Type κ) (n : ℕ) (xs : List A) → All P xs → All P (take n xs)
take-All P zero xs h = tt
take-All P (suc n) [] h = tt
take-All P (suc n) (x ∷ xs) (p, h) = (p, take-All P n xs h)

take-IsSorted {ℓ} :
    {A : Type ℓ} (le : A → A → Bool) (n : ℕ) (xs : List A)
    → IsSorted le xs
    → IsSorted le (take n xs)
take-IsSorted le zero xs s = tt
take-IsSorted le (suc n) [] s = tt
take-IsSorted le (suc n) (x ∷ xs) (below, s) =
    (take-All (λ y. le x y ≡ true) n xs below, take-IsSorted le n xs s)

take_all {ℓ} : {A : Type ℓ} (n : ℕ) (xs : List A) → length xs ≤ n → take n xs ≡ xs
take_all zero [] h = refl
take_all zero (x ∷ xs) h = absurd (omega arith)
take_all (suc n) [] h = refl
take_all (suc n) (x ∷ xs) h = ap (◌∷◌ x) (take_all n xs (omega arith))

-- How many of so many lines a limit keeps: so many first ones, or, where it is negative, all but so
-- many last ones.
abbrev pub kept : ℤ → ℕ → ℕ
kept (pos n) total = n
kept (negsuc n) total = total - (n + 1)

module _ (locale_le : String → String → Bool) where
  -- The two branches of the cut in one form.
  page_lem :
      (limit : ℤ) (lines : List LogLine) (more : Bool)
      → let sorted = sort (by_timestamp locale_le) lines in
        page locale_le limit (lines, more)
        ≡ (take (kept limit (length sorted)) sorted, exceeds (length sorted) limit || more)
  unfolding page
  page_lem (pos n) lines more = ground (arith, take_all n (sort (by_timestamp locale_le) lines))
  page_lem (negsuc n) lines more = refl

  found_page :
      (wanted : Option String) (limit : ℤ) (rs : List LogSearchResponse)
      → let sorted = sort (by_timestamp locale_le) (all_lines wanted rs) in
        page locale_le limit (gather_lines wanted rs ([], false)) ≡ (
          take (kept limit (length sorted)) sorted,
          exceeds (length sorted) limit || (any (λ r. r.has_more) (passed wanted rs) || false),
        )
  found_page wanted limit rs =
      ap (page locale_le limit) (gather_lines_lem wanted rs [] false) ∙ page_lem limit _ _

-- The answers to a search that arrived, in the order of the hosts.
abbrev pub search_answers :
    ℕ
    → List String
    → (String → Params → Settled LogSearchResponse)
    → LogSearchInput
    → List LogSearchResponse
search_answers port ips get_search input = values (
    map (λ host. get_search (template (host ∷ "/api/logs/search" ∷ [])) (search_params input))
      (discover_log_streamer_urls port ips))

by_timestamp-IsOrder :
    (locale_le : String → String → Bool) → IsOrder locale_le → IsOrder (by_timestamp locale_le)
by_timestamp-IsOrder locale_le o = record {
  total = λ a b. o.total _ _;
  transitive = λ a b c. o.transitive _ _ _;
}

kept_all :
    (limit : ℤ) (lines : List LogLine)
    → exceeds (length lines) limit ≡ false
    → take (kept limit (length lines)) lines ≡ lines
kept_all (pos n) lines h = take_all n lines (ground arith)
kept_all (negsuc n) lines h = cc

module _ (locale_le : String → String → Bool) (port : ℕ) (ips : List String)
    (get_search : String → Params → Settled LogSearchResponse)
    (get_stats : String → Params → Settled LogStatsResponse) (input : LogSearchInput) where
  abbrev found : LogSearchResult
  found = search locale_le port ips get_search get_stats input

  abbrev gathered : List LogLine
  gathered = all_lines input.node (search_answers port ips get_search input)

  -- Where the locale's order is total and transitive, the lines found are sorted by timestamp, and
  -- they are the first ones of all lines that the accepted answers hold: up to the limit, or, where
  -- the limit is -n, all but the last n.
  pub search_lines :
      IsOrder locale_le
      → (found.lines
          ≡ take (kept (limit_of input) (length gathered)) (sort (by_timestamp locale_le) gathered))
        × IsSorted (by_timestamp locale_le) found.lines
        × (length found.lines ≤ kept (limit_of input) (length gathered))
  unfolding search
  search_lines o =
      rw
        (found_page locale_le input.node (limit_of input)
          (search_answers port ips get_search input))
        (
          rw (length-sort (by_timestamp locale_le) gathered) refl,
          take-IsSorted (by_timestamp locale_le) _ _
              (sort-IsSorted (by_timestamp locale_le) (by_timestamp-IsOrder locale_le o) gathered),
          rw (length-sort (by_timestamp locale_le) gathered) (
              omega (
                arith,
                length-take (kept (limit_of input) (length gathered))
                    (sort (by_timestamp locale_le) gathered),
              )),
        )

  -- More lines are announced exactly if an accepted answer announced more or there are more than
  -- the limit, and always where it is negative; and either more are announced or the lines found are
  -- all lines of the accepted answers.
  pub search_has_more :
      (found.has_more ≡ (
        exceeds (length gathered) (limit_of input)
        || any (λ r. r.has_more) (passed input.node (search_answers port ips get_search input))))
      × ((found.has_more ≡ true) ⊎ Perm found.lines gathered)
  unfolding search
  search_has_more =
      let limit = limit_of input in
      let sorted = sort (by_timestamp locale_le) gathered in
      let answers = search_answers port ips get_search input in
      let more =
        exceeds (length sorted) limit
        || (any (λ r. r.has_more) (passed input.node answers) || false) in
      rw (found_page locale_le input.node limit answers) (
        rw (length-sort (by_timestamp locale_le) gathered) (ground arith),
        elim (Bool-cases more) [
          | inl announced ↦ inl announced
          | inr e ↦ inr (
              rw (kept_all limit sorted (ground arith))
                (sort-perm (by_timestamp locale_le) gathered))
        ],
      )
