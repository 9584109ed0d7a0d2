-- ===== src/UiBuffer.antt =====
-- apps/ui/src/hooks/useLogBuffer.ts: the bounded buffer of the lines of a log.
pub mod Newest
mod Tests
use nestjs_graphql_fastify_a.Common.{
  ℕ, ◌-◌, String, Bool, true, false, ◌&&◌, Option, none, some, List, [], ◌∷◌, ◌++◌, length, drop,
  any, if◌then◌else◌, ltb, ◌==◌, nat_eq,
}
use nestjs_graphql_fastify_a.Common.Sorting.{sort}

-- The state of the hook: the lines shown, the batch that waits for the next frame, whether a frame
-- is requested, and where the last batch starts.
pub record Buffer {ℓ} (T : Type ℓ) : Type ℓ where
  pub logs : List T
  pub batch : List T
  pub frame_requested : Bool
  pub batch_start : ℕ

-- `slice(-maxLines)`, which is the whole list for 0
unfoldable pub newest {ℓ} : {T : Type ℓ} → ℕ → List T → List T
newest max_lines lines = if max_lines == 0 then lines else drop (length lines - max_lines) lines

-- `timestamp <` on texts and the order of `localeCompare` are parameters.
module _ {ℓ} {T : Type ℓ} (earlier : T → T → Bool) (locale_le : T → T → Bool) where
  unfoldable pub last_of : List T → Option T
  last_of [] = none
  last_of (x ∷ []) = some x
  last_of (x ∷ y ∷ rest) = last_of (y ∷ rest)

  -- Some line of the batch is earlier than the last line shown.
  unfoldable pub is_late : List T → List T → Bool
  is_late logs batch = elim (last_of logs) [
    | none ↦ false
    | some line ↦ any (λ e. earlier e line) batch
  ]

  -- The update of the lines in `flushBatch`, with the start of the batch
  unfoldable pub flushed : (max_lines : ℕ) (sorts : Bool) (logs batch : List T) → List T × ℕ
  flushed max_lines sorts logs batch =
      let resorts = sorts && is_late logs batch in
      let next = if resorts then sort locale_le (logs ++ batch) else logs ++ batch in
      let start = if resorts then length next else length logs in
      if ltb max_lines (length next)
      then (newest max_lines next, start - (length next - max_lines))
      else (next, start)

  unfoldable pub flush_batch : (max_lines : ℕ) (sorts : Bool) → Buffer T → Buffer T
  flush_batch max_lines sorts b =
      let update = flushed max_lines sorts b.logs b.batch in
      if ltb 0 (length b.batch)
      then record { logs = update.0; batch = []; frame_requested = false; batch_start = update.1 }
      else record {
        logs = b.logs;
        batch = b.batch;
        frame_requested = false;
        batch_start = b.batch_start;
      }

unfoldable pub add_log {ℓ} : {T : Type ℓ} → T → Buffer T → Buffer T
add_log log b = record {
  logs = b.logs;
  batch = b.batch ++ log ∷ [];
  frame_requested = true;
  batch_start = b.batch_start;
}

unfoldable pub clear_logs {ℓ} : {T : Type ℓ} → Buffer T → Buffer T
clear_logs b = record { logs = []; batch = []; frame_requested = false; batch_start = 0 }
