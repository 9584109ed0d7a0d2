-- ===== src/UiAuth/Timers.antt =====
-- The refresh timer.
use nestjs_graphql_fastify_a.Common.{
  ℕ, ◌+◌, ◌-◌, ◌≤◌, not, Option, none, some, List, [], ◌∷◌, All, length, filter, ◌==◌, nat_eq, ◌≡◌,
  refl, arith, Option-cases, inl, inr,
}
use nestjs_graphql_fastify_a.UiAuth.{
  State, stop_refresh_timer, start_refresh_timer, get_time_until_expiry, refresh_ahead,
}

-- At most one timer is pending, and it is the one that `refreshTimer` names.
pub record IsSingle (s : State) : Type 0 where
  pub at_most_one : length s.pending ≤ 1
  pub named : All (λ entry. s.refresh_timer ≡ some entry.0) s.pending

filter_named :
    (id : ℕ) (entries : List (ℕ × ℕ)) (timer : Option ℕ)
    → timer ≡ some id
    → All (λ entry. timer ≡ some entry.0) entries
    → filter (λ entry. not (entry.0 == id)) entries ≡ []
filter_named id [] timer e h = refl
filter_named id ((i, due) ∷ entries) timer e (p, h) =
    ground (arith, e, p, filter_named id entries timer e h)

none_pending :
    (entries : List (ℕ × ℕ)) (timer : Option ℕ)
    → timer ≡ none
    → All (λ entry. timer ≡ some entry.0) entries
    → entries ≡ []
none_pending [] timer e h = refl
none_pending (entry ∷ entries) timer e (p, h) = absurd (ground (arith, e, p))

-- Stopping leaves no timer pending.
pub pending-stop_refresh_timer :
    (s : State)
    → IsSingle s
    → ((stop_refresh_timer s).pending ≡ []) × ((stop_refresh_timer s).refresh_timer ≡ none)
unfolding stop_refresh_timer
pending-stop_refresh_timer s h = elim (Option-cases s.refresh_timer) [
  | inl e ↦ rw (e, stop_refresh_timer) (none_pending s.pending s.refresh_timer e h.named, e)
  | inr (id, e) ↦
      rw (e, stop_refresh_timer) (filter_named id s.pending s.refresh_timer e h.named, refl)
]

-- Stopping changes nothing but the timer.
pub stop_refresh_timer_frame :
    (s : State)
    → let t = stop_refresh_timer s in
      (t.stored ≡ s.stored)
      × (t.next_timer ≡ s.next_timer)
      × (t.is_authenticated ≡ s.is_authenticated)
      × (t.user ≡ s.user)
unfolding stop_refresh_timer
stop_refresh_timer_frame s = elim (Option-cases s.refresh_timer) [
  | inl e ↦ rw (e, stop_refresh_timer) (refl, refl, refl, refl)
  | inr (id, e) ↦ rw (e, stop_refresh_timer) (refl, refl, refl, refl)
]

-- After a start one timer is pending: the new one.
pub pending-start_refresh_timer :
    (now : ℕ) (s : State)
    → IsSingle s
    → let due = now + (get_time_until_expiry now s.stored - refresh_ahead) in
      ((start_refresh_timer now s).pending ≡ (s.next_timer, due) ∷ [])
      × ((start_refresh_timer now s).refresh_timer ≡ some s.next_timer)
unfolding start_refresh_timer
pending-start_refresh_timer now s h =
    let frame = stop_refresh_timer_frame s in
    rw ((pending-stop_refresh_timer s h).0, frame.0, frame.1) (refl, refl)

pub start_refresh_timer_frame :
    (now : ℕ) (s : State)
    → let t = start_refresh_timer now s in
      (t.stored ≡ s.stored) × (t.is_authenticated ≡ s.is_authenticated) × (t.user ≡ s.user)
unfolding start_refresh_timer
start_refresh_timer_frame now s =
    let frame = stop_refresh_timer_frame s in (frame.0, frame.2, frame.3)

pub start_refresh_timer-IsSingle :
    (now : ℕ) (s : State) → IsSingle s → IsSingle (start_refresh_timer now s)
start_refresh_timer-IsSingle now s h =
    let (pending, timer) = pending-start_refresh_timer now s h in
    record { at_most_one = rw pending (omega arith); named = rw (pending, timer) (refl, tt) }

pub stop_refresh_timer-IsSingle : (s : State) → IsSingle s → IsSingle (stop_refresh_timer s)
stop_refresh_timer-IsSingle s h =
    let (pending, timer) = pending-stop_refresh_timer s h in
    record { at_most_one = rw pending (omega arith); named = rw pending tt }

-- A timer that fires is not pending any more; no other one is.
pub fired-IsSingle :
    (s : State) (id : ℕ)
    → IsSingle s
    → IsSingle (record s { pending = filter (λ entry. not (entry.0 == id)) s.pending })
fired-IsSingle s id h = record {
  at_most_one = length_le s.pending h.at_most_one;
  named = still_named s.pending h.named;
}
  where
    length_le :
        (entries : List (ℕ × ℕ))
        → length entries ≤ 1
        → length (filter (λ entry. not (entry.0 == id)) entries) ≤ 1
    length_le [] h = omega arith
    length_le ((i, due) ∷ []) h = ground arith
    length_le ((i, due) ∷ entry ∷ entries) h = absurd (omega arith)

    still_named :
        (entries : List (ℕ × ℕ))
        → All (λ entry. s.refresh_timer ≡ some entry.0) entries
        → All
            (λ entry. s.refresh_timer ≡ some entry.0)
            (filter (λ entry. not (entry.0 == id)) entries)
    still_named [] h = tt
    still_named ((i, due) ∷ entries) (p, h) = ground (arith, p, still_named entries h)
