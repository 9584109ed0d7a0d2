-- ===== src/UiBuffer/Tests.antt =====
-- The theorem on the buffer at a bound of two lines.
use nestjs_graphql_fastify_a.Common.{ℕ, ◌≤◌, false, List, [], ◌∷◌, length, ltb, leb, ◌≡◌, arith}
use nestjs_graphql_fastify_a.UiBuffer.{Buffer, newest, flushed}
use nestjs_graphql_fastify_a.UiBuffer.Newest.{
  Action, adds, flushes, clears, after, added, buffer_newest,
}

abbrev actions : List (Action ℕ)
actions = adds 9 ∷ clears ∷ adds 1 ∷ adds 2 ∷ flushes ∷ adds 3 ∷ []

abbrev empty : Buffer ℕ
empty = record { logs = []; batch = []; frame_requested = false; batch_start = 0 }

buffer_newest_example :
    let b = after ltb leb 2 actions empty in
    ((flushed ltb leb 2 false b.logs b.batch).0 ≡ newest 2 (added ltb leb 2 actions []))
    × (length b.logs ≤ 2)
buffer_newest_example = buffer_newest ltb leb 2 actions (omega arith)
