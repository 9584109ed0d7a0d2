-- ===== src/LogStreamer/Queries/Merging.antt =====
-- How the answers of the log streamers are merged.
use mathlib.Core.List.{map-append}
use nestjs_graphql_fastify_a.Common.{
  or_else, is_some, ℕ, String, Option, List, [], ◌∷◌, ◌++◌, map, contains, find, ◌≡◌, refl, ◌==◌,
  string_eq, arith, eq_iff, Distinct, snoc-Distinct, append_assoc, append-nil, Bool-cases, inl, inr,
}
use nestjs_graphql_fastify_a.Common.Text.{template}
use nestjs_graphql_fastify_a.Common.Settled.{Settled, values, flatten}
use nestjs_graphql_fastify_a.LogStreamer.Queries.{
  ContainerStats, Kept, keep_one, keep_new, keep_all, get_container_stats, base_url, join_comma,
}

abbrev pub ids_of : List ContainerStats → List String
ids_of = map (λ s. s.id)

abbrev pub first_of_id : String → List ContainerStats → Option ContainerStats
first_of_id id = find (λ s. s.id == id)

-- What the loop keeps of the statistics `given` so far: each id once, with its first entry.
record IsMerge (given : List ContainerStats) (kept : Kept) : Type 0 where
  seen : kept.0 ≡ ids_of kept.1
  distinct : Distinct (ids_of kept.1)
  firsts : (id : String) → first_of_id id kept.1 ≡ first_of_id id given

find_append :
    (id : String) (xs ys : List ContainerStats)
    → first_of_id id (xs ++ ys) ≡ or_else (first_of_id id xs) (first_of_id id ys)
find_append id [] ys = refl
find_append id (x ∷ xs) ys = ground (arith, find_append id xs ys)

is_some-first_of_id :
    (id : String) (xs : List ContainerStats) → is_some (first_of_id id xs) ≡ contains id (ids_of xs)
unfolding contains
is_some-first_of_id id [] = refl
is_some-first_of_id id (x ∷ xs) = ground (arith, is_some-first_of_id id xs)

keep_one-IsMerge :
    (given : List ContainerStats) (kept : Kept) (s : ContainerStats)
    → IsMerge given kept
    → IsMerge (given ++ s ∷ []) (keep_one kept s)
unfolding keep_one
keep_one-IsMerge given (seen, stats) s m = elim (Bool-cases (contains s.id seen)) [
  | inl old ↦
      rw (old, keep_one)
        (record {
          seen = m.seen;
          distinct = m.distinct;
          firsts = λ id. ground (
            arith,
            find_append id given (s ∷ []),
            m.firsts id,
            eq_iff s.id id,
            is_some-first_of_id s.id stats,
            m.seen,
            old,
          );
        })
  | inr new ↦
      rw (new, keep_one)
        (record {
          seen = rw (m.seen, map-append);
          distinct =
              rw map-append (snoc-Distinct s.id (ids_of stats) (rw (← m.seen) new) m.distinct);
          firsts = λ id.
              ground
                (arith, find_append id given (s ∷ []), find_append id stats (s ∷ []), m.firsts id);
        })
]

keep_new-IsMerge :
    (given : List ContainerStats) (kept : Kept) (answer : List ContainerStats)
    → IsMerge given kept
    → IsMerge (given ++ answer) (keep_new kept answer)
unfolding keep_new
keep_new-IsMerge given kept [] m = rw append-nil m
keep_new-IsMerge given kept (s ∷ answer) m =
    rw append_assoc at (
      keep_new-IsMerge (given ++ s ∷ []) (keep_one kept s) answer (keep_one-IsMerge given kept s m))

keep_all-IsMerge :
    (given : List ContainerStats) (kept : Kept) (answers : List (List ContainerStats))
    → IsMerge given kept
    → IsMerge (given ++ flatten answers) (keep_all kept answers)
unfolding keep_all flatten
keep_all-IsMerge given kept [] m = rw append-nil m
keep_all-IsMerge given kept (answer ∷ answers) m = rw append_assoc at (
    keep_all-IsMerge (given ++ answer) (keep_new kept answer) answers
      (keep_new-IsMerge given kept answer m))

-- What the log streamers answer to a request for the statistics of `ids`, in the order of the
-- hosts, the rejected requests left out.
abbrev pub answered :
    ℕ → List String → (String → Settled (List ContainerStats)) → List String → List ContainerStats
answered port hosts get ids = flatten (
    values (
      map (λ host. get (template (base_url host port ∷ "/api/stats?ids=" ∷ join_comma ids ∷ [])))
        hosts))

-- The merged statistics name each container once, with the first entry that a host answered for
-- it, and every container that some host answered for; no id asked for gives no statistics.
pub get_container_stats_lem :
    (port : ℕ) (hosts : List String) (get : String → Settled (List ContainerStats)) (id : String)
    (ids : List String) (container : String)
    → let stats = get_container_stats port hosts get (id ∷ ids) in
      Distinct (ids_of stats)
      × (first_of_id container stats ≡ first_of_id container (answered port hosts get (id ∷ ids)))
      × (get_container_stats port hosts get [] ≡ [])
unfolding get_container_stats
get_container_stats_lem port hosts get id ids container =
    let m =
      keep_all-IsMerge [] ([], []) _ (record { seen = refl; distinct = tt; firsts = λ i. refl }) in
    (m.distinct, m.firsts container, refl)
