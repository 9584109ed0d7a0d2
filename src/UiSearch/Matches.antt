-- ===== src/UiSearch/Matches.antt =====
-- The matches are where the filter finds them, and the walk goes through them in turn.
use native.Mathlib.Nat.{mod-eq_of_lt, mod_self, add-mod_right}
use nestjs_graphql_fastify_a.Common.{
  ℕ, zero, suc, ◌+◌, ◌-◌, ◌<◌, String, true, false, some, List, [], ◌∷◌, ◌++◌, ltb, ◌==◌, nat_eq,
  string_eq, ◌≡◌, refl, ap, ◌∙◌, arith, Bool-cases, inl, inr, ltb→lt,
}
use nestjs_graphql_fastify_a.Common.Text.{truthy, starts_with, includes}
use nestjs_graphql_fastify_a.UiSearch.{
  MatchInfo, count_from, count_matches, is_shown, total_matches, locate, next, prev,
}

count_from-includes :
    (query text : String)
    → truthy query ≡ true
    → ltb 0 (count_from query 0 text) ≡ includes query text
unfolding count_from includes
count_from-includes query String.[] h = ground (arith, h)
count_from-includes query (String.◌∷◌ c text) h =
    elim (Bool-cases (starts_with query (String.◌∷◌ c text))) [
      | inl here ↦ rw here (ground arith)
      | inr later ↦ rw later (count_from-includes query text h)
    ]

-- A line has a match exactly if the filter shows it, for a query that is not empty, also in lower
-- case.
pub count_matches-is_shown :
    (to_lower_case : String → String) (message query : String)
    → truthy query ≡ true
    → truthy (to_lower_case query) ≡ true
    → ltb 0 (count_matches to_lower_case message query) ≡ is_shown to_lower_case query message
unfolding count_matches is_shown
count_matches-is_shown to_lower_case message query h k =
    rw h (count_from-includes (to_lower_case query) (to_lower_case message) k)

-- An index below the number of all matches is found: in a line whose matches before it and the
-- position in it add up to the index, at a position that the line has.
pub locate_lem :
    (ms : List MatchInfo) (i : ℕ)
    → i < total_matches ms
    → (before : List MatchInfo) × (m : MatchInfo) × (after : List MatchInfo) × (position : ℕ) × (ms
        ≡ before ++ m ∷ after)
      × (locate i ms ≡ some (m.log_index, position))
      × (total_matches before + position ≡ i)
      × (position < m.match_count)
unfolding locate total_matches
locate_lem [] i h = absurd (omega arith)
locate_lem (m ∷ ms) i h = elim (Bool-cases (ltb i m.match_count)) [
  | inl here ↦ ([], m, ms, i, refl, rw here refl, omega arith, ground (arith, here))
  | inr later ↦
      let (before, n, after, position, e, found, adds, fits) =
        locate_lem ms (i - m.match_count) (ground (arith, h, later)) in
      (
        m ∷ before,
        n,
        after,
        position,
        ap (◌∷◌ m) e,
        rw later found,
        ground (arith, adds, later),
        fits,
      )
]

next_inside : (n i : ℕ) → i + 1 < n → next n i ≡ i + 1
unfolding next
next_inside n i h =
    let some_match : (n == 0) ≡ false = ground (arith, h) in rw some_match (mod-eq_of_lt h)

next_at_end : (n i : ℕ) → i + 1 ≡ n → next n i ≡ 0
unfolding next
next_at_end n i h =
    let some_match : (n == 0) ≡ false = ground (arith, h) in rw some_match (rw h (mod_self n))

prev_inside : (n i : ℕ) → i + 1 < n → prev n (i + 1) ≡ i
unfolding prev
prev_inside n i h =
    let some_match : (n == 0) ≡ false = ground (arith, h) in
    let e : i + 1 + n - 1 ≡ i + n = omega arith in
    rw some_match (rw e (add-mod_right i n ∙ mod-eq_of_lt (omega (arith, h))))

prev_at_start : (n : ℕ) → 0 < n → prev n 0 ≡ n - 1
unfolding prev
prev_at_start n h =
    let some_match : (n == 0) ≡ false = ground (arith, h) in
    let e : 0 + n - 1 ≡ n - 1 = omega arith in
    rw some_match (rw e (mod-eq_of_lt (omega (arith, h))))

prev-of_next : (total i : ℕ) → i < total → prev total (next total i) ≡ i
prev-of_next total i h = elim (Bool-cases (ltb (i + 1) total)) [
  | inl inside ↦
      let k : i + 1 < total = ltb→lt _ _ inside in
      rw (next_inside total i k) (prev_inside total i k)
  | inr outside ↦
      let k : i + 1 ≡ total = ground (arith, outside, h) in
      rw (next_at_end total i k) (prev_at_start total (omega (arith, h)) ∙ omega (arith, k))
]

next-of_prev : (total i : ℕ) → i < total → next total (prev total i) ≡ i
next-of_prev total zero h =
    rw (prev_at_start total h) (next_at_end total (total - 1) (omega (arith, h)))
next-of_prev total (suc i) h =
    let e : suc i ≡ i + 1 = omega arith in
    rw (e, prev_inside total i (omega (arith, h))) (next_inside total i (omega (arith, h)))

next_stays : (total i : ℕ) → i < total → next total i < total
next_stays total i h = elim (Bool-cases (ltb (i + 1) total)) [
  | inl inside ↦
      let k : i + 1 < total = ltb→lt _ _ inside in omega (arith, next_inside total i k, k)
  | inr outside ↦
      let k : i + 1 ≡ total = ground (arith, outside, h) in omega (arith, next_at_end total i k, h)
]

prev_stays : (total i : ℕ) → i < total → prev total i < total
prev_stays total zero h = omega (arith, prev_at_start total h, h)
prev_stays total (suc i) h =
    let e : suc i ≡ i + 1 = omega arith in
    rw (e, prev_inside total i (omega (arith, h))) (omega (arith, h))

-- The walk to the next match and the walk back undo each other at every match, also from the last
-- match to the first, and both stay among the matches.
pub next-prev :
    (total i : ℕ)
    → i < total
    → (prev total (next total i) ≡ i)
      × (next total (prev total i) ≡ i)
      × (next total i < total)
      × (prev total i < total)
next-prev total i h =
    (prev-of_next total i h, next-of_prev total i h, next_stays total i h, prev_stays total i h)
