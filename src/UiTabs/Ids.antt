-- ===== src/UiTabs/Ids.antt =====
-- The ids of the tabs under the operations on their list.
use nestjs_graphql_fastify_a.Common.{
  ℕ, zero, suc, ◌+◌, ◌-◌, ◌≤◌, ◌<◌, min, String, Bool, true, false, not, ◌&&◌, ◌||◌, Option, none,
  some, List, [], ◌∷◌, ◌++◌, find, length, if◌then◌else◌, ◌==◌, nat_eq, string_eq, get_elem?,
  is_some, contains, Distinct, ◌≡◌, refl, ap, arith, Bool-cases, inl, inr, if_elim, eq_iff, eq_refl,
}
use nestjs_graphql_fastify_a.UiTabs.{Tab, is_active, has_id, without, index_of, neighbour}

module _ {ℓ} {T : Type ℓ} where
  unfoldable pub ids : List (Tab T) → List String
  ids [] = []
  ids (t ∷ rest) = t.id ∷ ids rest

  pub ids-append : (xs ys : List (Tab T)) → ids (xs ++ ys) ≡ ids xs ++ ids ys
  unfolding ids
  ids-append [] ys = refl
  ids-append (x ∷ xs) ys = ap (◌∷◌ x.id) (ids-append xs ys)

  pub contains-without :
      (j id : String) (xs : List (Tab T))
      → contains j (ids (without id xs)) ≡ (contains j (ids xs) && not (j == id))
  unfolding without ids contains
  contains-without j id [] = refl
  contains-without j id (x ∷ xs) =
      ground (arith, contains-without j id xs, eq_iff x.id id, eq_iff x.id j, eq_iff j id)

  pub without-Distinct :
      (id : String) (xs : List (Tab T)) → Distinct (ids xs) → Distinct (ids (without id xs))
  unfolding without ids
  without-Distinct id [] d = tt
  without-Distinct id (x ∷ xs) (p, d) =
      if_elim (λ r. Distinct (ids r)) (not (has_id id x))
        (λ _. (rw (contains-without x.id id xs, p) refl, without-Distinct id xs d))
        (λ _. without-Distinct id xs d)

  pub length-without :
      (id : String) (xs : List (Tab T))
      → length (without id xs) + (if contains id (ids xs) then 1 else 0) ≤ length xs
  unfolding without ids contains
  length-without id [] = omega arith
  length-without id (x ∷ xs) = ground (arith, length-without id xs, eq_iff x.id id, eq_iff id x.id)

  pub get_elem_in :
      (xs : List (Tab T)) (i : ℕ)
      → i < length xs
      → (t : Tab T) × (get_elem? xs i ≡ some t) × (contains t.id (ids xs) ≡ true)
  unfolding ids contains
  get_elem_in [] i h = absurd (omega arith)
  get_elem_in (x ∷ xs) zero h = (x, refl, ground (arith, eq_refl x.id))
  get_elem_in (x ∷ xs) (suc i) h =
      let (t, e, c) = get_elem_in xs i (omega arith) in (t, e, ground (arith, c))

  pub index_of_found :
      (id : String) (xs : List (Tab T))
      → contains id (ids xs) ≡ true
      → (i : ℕ) × (index_of id xs ≡ some i)
  unfolding index_of ids contains
  index_of_found id [] h = absurd (ground (arith, h))
  index_of_found id (x ∷ xs) h = elim (Bool-cases (has_id id x)) [
    | inl here ↦ (0, rw here refl)
    | inr later ↦
        let (i, e) =
          index_of_found id xs (ground (arith, h, later, eq_iff x.id id, eq_iff id x.id)) in
        (suc i, rw later (rw e refl))
  ]

  pub find_in :
      (p : Tab T → Bool) (xs : List (Tab T)) (t : Tab T)
      → find p xs ≡ some t
      → contains t.id (ids xs) ≡ true
  unfolding ids contains
  find_in p [] t h = absurd (ground (arith, h))
  find_in p (x ∷ xs) t h = elim (Bool-cases (p x)) [
    | inl here ↦ ground (arith, h, eq_refl t.id, eq_iff x.id t.id)
    | inr later ↦ ground (arith, find_in p xs t (ground (arith, h)))
  ]

  pub neighbour_in :
      (i : ℕ) (next : List (Tab T))
      → 0 < length next
      → (t : Tab T) × (neighbour (some i) next ≡ some t.id) × (contains t.id (ids next) ≡ true)
  unfolding neighbour
  neighbour_in i next h =
      let (t, e, c) = get_elem_in next (min i (length next - 1)) (omega arith) in
      (t, rw (e, neighbour) refl, c)

  -- Of two distinct tabs one is not active.
  pub some_inactive :
      (active : Option String) (x y : Tab T) (rest : List (Tab T))
      → Distinct (ids (x ∷ y ∷ rest))
      → is_some (find (λ t. not (is_active active t.id)) (x ∷ y ∷ rest)) ≡ true
  unfolding ids contains
  some_inactive none x y rest d = refl
  some_inactive (some a) x y rest d =
      ground (arith, d, eq_iff x.id a, eq_iff y.id a, eq_iff x.id y.id, eq_iff y.id x.id)

  pub find_first :
      (p : Tab T → Bool) (xs ys : List (Tab T))
      → is_some (find p xs) ≡ true
      → find p (xs ++ ys) ≡ find p xs
  find_first p [] ys h = absurd (ground (arith, h))
  find_first p (x ∷ xs) ys h = elim (Bool-cases (p x)) [
    | inl here ↦ rw here refl
    | inr later ↦ rw later (find_first p xs ys (rw later at h))
  ]

  pub find_none :
      (id : String) (xs : List (Tab T)) → is_some (find (has_id id) xs) ≡ contains id (ids xs)
  unfolding ids contains
  find_none id [] = refl
  find_none id (x ∷ xs) = ground (arith, find_none id xs, eq_iff x.id id, eq_iff id x.id)

  pub contains-snoc :
      (j : String) (xs : List (Tab T)) (tab : Tab T)
      → contains j (ids (xs ++ tab ∷ [])) ≡ (contains j (ids xs) || j == tab.id)
  unfolding ids contains
  contains-snoc j [] tab = ground (arith, eq_iff j tab.id, eq_iff tab.id j)
  contains-snoc j (x ∷ xs) tab = ground (arith, contains-snoc j xs tab)

  pub snoc-ids-Distinct :
      (xs : List (Tab T)) (tab : Tab T)
      → Distinct (ids xs)
      → contains tab.id (ids xs) ≡ false
      → Distinct (ids (xs ++ tab ∷ []))
  unfolding ids contains
  snoc-ids-Distinct [] tab d h = (refl, tt)
  snoc-ids-Distinct (x ∷ xs) tab (p, d) h = (
    ground (arith, contains-snoc x.id xs tab, p, h, eq_iff x.id tab.id, eq_iff tab.id x.id),
    snoc-ids-Distinct xs tab d (ground (arith, h)),
  )
