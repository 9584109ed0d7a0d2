-- ===== src/UiBuffer/Newest.antt =====
-- The buffer shows the newest lines.
use nestjs_graphql_fastify_a.Common.{
  ℕ, zero, suc, ◌+◌, ◌-◌, ◌≤◌, ◌<◌, Bool, false, List, [], ◌∷◌, ◌++◌, length, drop, ltb, ◌==◌,
  nat_eq, ◌≡◌, refl, sym, ap, ◌∙◌, arith, Bool-cases, inl, inr, if_elim, length-append, length-drop,
  append-nil, append_assoc,
}
use nestjs_graphql_fastify_a.UiBuffer.{Buffer, newest, flushed, flush_batch, add_log, clear_logs}

module _ {ℓ} {T : Type ℓ} where
  drop_append :
      (a k : ℕ) (xs ys : List T)
      → k ≤ length xs
      → drop a (drop k xs ++ ys) ≡ drop (k + a) (xs ++ ys)
  drop_append a zero xs ys h = let e : 0 + a ≡ a = omega arith in rw e refl
  drop_append a (suc k) [] ys h = absurd (omega arith)
  drop_append a (suc k) (x ∷ xs) ys h =
      let e : suc k + a ≡ suc (k + a) = omega arith in rw e (drop_append a k xs ys (omega arith))

  newest-drop : (m : ℕ) (xs : List T) → 0 < m → newest m xs ≡ drop (length xs - m) xs
  unfolding newest
  newest-drop m xs h = let e : (m == 0) ≡ false = ground (arith, h) in rw e refl

  length-newest : (m : ℕ) (xs : List T) → 0 < m → length (newest m xs) ≤ m
  length-newest m xs h = rw (newest-drop m xs h) (omega (arith, length-drop (length xs - m) xs))

  newest_all : (m : ℕ) (xs : List T) → length xs ≤ m → newest m xs ≡ xs
  unfolding newest
  newest_all m xs h =
      let e : length xs - m ≡ 0 = omega arith in
      if_elim (λ r. r ≡ xs) (m == 0) (λ _. refl) (λ _. rw e refl)

  -- Older lines that are dropped first make no difference.
  newest_append :
      (m : ℕ) (xs ys : List T) → 0 < m → newest m (newest m xs ++ ys) ≡ newest m (xs ++ ys)
  newest_append m xs ys h =
      let k = length xs - m in
      let kept = drop k xs ++ ys in
      let e : k + (length kept - m) ≡ length (xs ++ ys) - m =
        omega (arith, length-append xs ys, length-append (drop k xs) ys, length-drop k xs) in
      rw (newest-drop m xs h) (
        newest-drop m kept h
        ∙ drop_append (length kept - m) k xs ys (omega arith)
        ∙ rw e (sym (newest-drop m (xs ++ ys) h)))

-- What the component that uses the hook does, and what happens to it.
pub data Action {ℓ} (T : Type ℓ) : Type ℓ where
  adds : T → Action T
  flushes clears : Action T

module _ {ℓ} {T : Type ℓ} (earlier locale_le : T → T → Bool) (m : ℕ) where
  unfoldable pub after : List (Action T) → Buffer T → Buffer T
  after [] b = b
  after (adds log ∷ actions) b = after actions (add_log log b)
  after (flushes ∷ actions) b = after actions (flush_batch earlier locale_le m false b)
  after (clears ∷ actions) b = after actions (clear_logs b)

  -- The lines added since the buffer was last cleared.
  unfoldable pub added : List (Action T) → List T → List T
  added [] lines = lines
  added (adds log ∷ actions) lines = added actions (lines ++ log ∷ [])
  added (flushes ∷ actions) lines = added actions lines
  added (clears ∷ actions) lines = added actions []

  -- The lines shown and waiting are as good as all lines added, and those shown are bounded.
  pub record IsNewest (lines : List T) (b : Buffer T) : Type ℓ where
    pub same : newest m (b.logs ++ b.batch) ≡ newest m lines
    pub bounded : length b.logs ≤ m

  flushed_logs :
      (b : Buffer T)
      → (flushed earlier locale_le m false b.logs b.batch).0 ≡ newest m (b.logs ++ b.batch)
  unfolding flushed
  flushed_logs b = elim (Bool-cases (ltb m (length (b.logs ++ b.batch)))) [
    | inl over ↦ rw over refl
    | inr fits ↦ rw fits (sym (newest_all m (b.logs ++ b.batch) (ground (arith, fits))))
  ]

  flush-IsNewest :
      (lines : List T) (b : Buffer T)
      → 0 < m
      → IsNewest lines b
      → IsNewest lines (flush_batch earlier locale_le m false b)
  unfolding flush_batch
  flush-IsNewest lines b h k =
      let all = b.logs ++ b.batch in
      if_elim (IsNewest lines) (ltb 0 (length b.batch))
        (λ _. record {
          same = rw (flushed_logs b) (newest_append m all [] h ∙ rw append-nil k.same);
          bounded = rw (flushed_logs b) (length-newest m all h);
        })
        (λ _. record { same = k.same; bounded = k.bounded })

  after-IsNewest :
      (actions : List (Action T)) (lines : List T) (b : Buffer T)
      → 0 < m
      → IsNewest lines b
      → IsNewest (added actions lines) (after actions b)
  unfolding after added add_log clear_logs
  after-IsNewest [] lines b h k = k
  after-IsNewest (adds log ∷ actions) lines b h k =
      after-IsNewest actions (lines ++ log ∷ []) (add_log log b) h (record {
        same =
            ap (newest m) (sym (append_assoc b.logs b.batch (log ∷ [])))
            ∙ sym (newest_append m (b.logs ++ b.batch) (log ∷ []) h)
            ∙ rw k.same (newest_append m lines (log ∷ []) h);
        bounded = k.bounded;
      })
  after-IsNewest (flushes ∷ actions) lines b h k =
      after-IsNewest actions lines (flush_batch earlier locale_le m false b) h
        (flush-IsNewest lines b h k)
  after-IsNewest (clears ∷ actions) lines b h k =
      after-IsNewest actions [] (clear_logs b) h (record { same = refl; bounded = omega arith })

  -- Where lines are not sorted and the bound is not 0: after any additions, frames and clearings of
  -- an empty buffer, the lines that a frame makes of those shown and waiting are the newest ones, up
  -- to the bound, of all that were added since the last clearing, and no more than the bound are
  -- shown.
  pub buffer_newest :
      (actions : List (Action T))
      → 0 < m
      → let b =
          after actions
            (record { logs = []; batch = []; frame_requested = false; batch_start = 0 }) in
        ((flushed earlier locale_le m false b.logs b.batch).0 ≡ newest m (added actions []))
        × (length b.logs ≤ m)
  buffer_newest actions h =
      let empty : Buffer T = record {
        logs = [];
        batch = [];
        frame_requested = false;
        batch_start = 0;
      } in
      let k = after-IsNewest actions [] empty h (record { same = refl; bounded = omega arith }) in
      (flushed_logs (after actions empty) ∙ k.same, k.bounded)
