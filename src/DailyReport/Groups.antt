-- ===== src/DailyReport/Groups.antt =====
-- The groups of equal error messages.
use nestjs_graphql_fastify_a.Common.{
  ℕ, suc, ◌+◌, String, Bool, List, [], ◌∷◌, map, Distinct, DistinctKeys, keys, insert, lookup,
  insert-DistinctKeys, ◌==◌, string_eq, if◌then◌else◌, or_default, ◌≡◌, refl, ap, arith, eq_iff,
  ◌⊎◌, inl, inr, length, Bool-cases,
}
use nestjs_graphql_fastify_a.Common.Sorting.{sort, insert_sorted, IsSorted, IsOrder, sort-IsSorted}
use nestjs_graphql_fastify_a.Common.SortedKeys.{sort-Distinct}
use nestjs_graphql_fastify_a.DailyReport.{
  ReportLine, truncate_message, count_messages, by_count, group_errors,
}

-- How many errors show as `msg`
abbrev pub times : String → List ReportLine → ℕ
times msg [] = 0
times msg (line ∷ lines) =
    let rest = times msg lines in if truncate_message line.message == msg then suc rest else rest

-- The sum of the counts of the groups with the message `msg`
abbrev pub counted : String → List (String × ℕ) → ℕ
counted msg [] = 0
counted msg ((first, n) ∷ groups) =
    let rest = counted msg groups in if first == msg then n + rest else rest

abbrev pub sum_counts : List (String × ℕ) → ℕ
sum_counts [] = 0
sum_counts ((first, n) ∷ groups) = n + sum_counts groups

abbrev incremented : String → List (String × ℕ) → List (String × ℕ)
incremented msg m = insert msg (or_default (lookup msg m) 0 + 1) m

counted-incremented :
    (asked msg : String) (m : List (String × ℕ))
    → counted asked (incremented msg m)
      ≡ (if msg == asked then suc (counted asked m) else counted asked m)
unfolding insert lookup
counted-incremented asked msg [] = ground arith
counted-incremented asked msg ((first, n) ∷ m) =
    ground (
      arith,
      counted-incremented asked msg m,
      eq_iff msg asked,
      eq_iff first msg,
      eq_iff first asked,
    )

sum_counts-incremented :
    (msg : String) (m : List (String × ℕ)) → sum_counts (incremented msg m) ≡ suc (sum_counts m)
unfolding insert lookup
sum_counts-incremented msg [] = ground arith
sum_counts-incremented msg ((first, n) ∷ m) = ground (arith, sum_counts-incremented msg m)

counted-count_messages :
    (asked : String) (m : List (String × ℕ)) (lines : List ReportLine)
    → counted asked (count_messages m lines) ≡ counted asked m + times asked lines
unfolding count_messages
counted-count_messages asked m [] = ground arith
counted-count_messages asked m (line ∷ lines) =
    let msg = truncate_message line.message in
    ground (
      arith,
      counted-count_messages asked (incremented msg m) lines,
      counted-incremented asked msg m,
    )

sum_counts-count_messages :
    (m : List (String × ℕ)) (lines : List ReportLine)
    → sum_counts (count_messages m lines) ≡ sum_counts m + length lines
unfolding count_messages
sum_counts-count_messages m [] = ground arith
sum_counts-count_messages m (line ∷ lines) =
    let msg = truncate_message line.message in
    ground
      (arith, sum_counts-count_messages (incremented msg m) lines, sum_counts-incremented msg m)

count_messages-DistinctKeys :
    (m : List (String × ℕ)) (lines : List ReportLine)
    → DistinctKeys m
    → DistinctKeys (count_messages m lines)
unfolding count_messages
count_messages-DistinctKeys m [] d = d
count_messages-DistinctKeys m (line ∷ lines) d =
    count_messages-DistinctKeys (incremented (truncate_message line.message) m) lines
      (insert-DistinctKeys _ _ m d)

counted-insert_sorted :
    (asked : String) (g : String × ℕ) (gs : List (String × ℕ))
    → counted asked (insert_sorted by_count g gs) ≡ counted asked (g ∷ gs)
unfolding insert_sorted
counted-insert_sorted asked (first, n) [] = refl
counted-insert_sorted asked (first, n) ((second, k) ∷ gs) =
    ground (arith, counted-insert_sorted asked (first, n) gs)

counted-sort :
    (asked : String) (gs : List (String × ℕ)) → counted asked (sort by_count gs) ≡ counted asked gs
unfolding sort
counted-sort asked [] = refl
counted-sort asked (g ∷ gs) =
    ground (arith, counted-insert_sorted asked g (sort by_count gs), counted-sort asked gs)

sum_counts-insert_sorted :
    (g : String × ℕ) (gs : List (String × ℕ))
    → sum_counts (insert_sorted by_count g gs) ≡ sum_counts (g ∷ gs)
unfolding insert_sorted
sum_counts-insert_sorted (first, n) [] = refl
sum_counts-insert_sorted (first, n) ((second, k) ∷ gs) =
    ground (arith, sum_counts-insert_sorted (first, n) gs)

sum_counts-sort : (gs : List (String × ℕ)) → sum_counts (sort by_count gs) ≡ sum_counts gs
unfolding sort
sum_counts-sort [] = refl
sum_counts-sort (g ∷ gs) =
    ground (arith, sum_counts-insert_sorted g (sort by_count gs), sum_counts-sort gs)

by_count-IsOrder : IsOrder by_count
by_count-IsOrder = record {
  total = λ a b. at_least a b (Bool-cases (by_count a b));
  transitive = λ a b c h k. ground (arith, h, k);
}
  where
    at_least :
        (a b : String × ℕ)
        → (by_count a b ≡ Bool.true) ⊎ (by_count a b ≡ Bool.false)
        → (by_count a b ≡ Bool.true) ⊎ (by_count b a ≡ Bool.true)
    at_least a b (inl h) = inl h
    at_least a b (inr h) = inr (ground (arith, h))

keys-map : (m : List (String × ℕ)) → keys m ≡ map (λ entry. entry.0) m
unfolding keys
keys-map [] = refl
keys-map ((k, n) ∷ m) = ap (◌∷◌ k) (keys-map m)

-- For every message, the groups count exactly the errors that show as that message, no message has
-- two groups, the counts add up to the number of errors, and a group never follows one with a
-- smaller count.
pub group_errors_lem :
    (errors : List ReportLine) (msg : String)
    → let groups = group_errors errors in
      (counted msg groups ≡ times msg errors)
      × Distinct (map (λ entry. entry.0) groups)
      × (sum_counts groups ≡ length errors)
      × IsSorted by_count groups
unfolding group_errors keys
group_errors_lem errors msg =
    let m = count_messages [] errors in
    (
      ground (arith, counted-sort msg m, counted-count_messages msg [] errors),
      sort-Distinct (λ entry. entry.0) by_count m
          (rw (← keys-map m) (count_messages-DistinctKeys [] errors tt)),
      ground (arith, sum_counts-sort m, sum_counts-count_messages [] errors),
      sort-IsSorted by_count by_count-IsOrder m,
    )
