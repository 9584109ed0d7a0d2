-- ===== src/UiTabs/Bounded.antt =====
-- The tabs stay distinct and within their bound, and the active one stays among them.
use nestjs_graphql_fastify_a.Common.{
  ℕ, ◌≤◌, String, Bool, true, false, not, ◌&&◌, Option, none, some, List, [], ◌∷◌, ◌++◌, find,
  length, if◌then◌else◌, ltb, ◌==◌, nat_eq, string_eq, is_some, contains, Distinct, length-append,
  ◌≡◌, refl, sym, ap, ◌∙◌, arith, Bool-cases, Option-cases, inl, inr, if_elim, eq_iff, eq_refl,
}
use nestjs_graphql_fastify_a.UiTabs.{
  Tab, Tabs, is_active, has_id, without, evict, open_tab, neighbour, activate, close_tab,
}
use nestjs_graphql_fastify_a.UiTabs.Ids.{
  ids, contains-without, without-Distinct, length-without, index_of_found, find_in, neighbour_in,
  some_inactive, find_first, find_none, contains-snoc, snoc-ids-Distinct,
}

-- The active id, if there is one, is among the ids.
abbrev pub among : Option String → List String → Bool
among none is = true
among (some id) is = contains id is

module _ {ℓ} {T : Type ℓ} where
  -- The ids are distinct, there are at most so many, and the active id is one of them.
  pub record IsTabs (max_tabs : ℕ) (s : Tabs T) : Type ℓ where
    pub distinct : Distinct (ids s.tabs)
    pub bounded : length s.tabs ≤ max_tabs
    pub active : among s.active_tab_id (ids s.tabs) ≡ true

  contains-get :
      (id : String) (s : Tabs T)
      → is_active s.active_tab_id id ≡ true
      → among s.active_tab_id (ids s.tabs) ≡ true
      → contains id (ids s.tabs) ≡ true
  contains-get id s h k = elim (Option-cases s.active_tab_id) [
    | inl e ↦ absurd (ground (arith, h, e))
    | inr (a, e) ↦
        let same : id ≡ a = ground (arith, (rw e at h), eq_iff id a) in rw same (rw e at k)
  ]

  still_among :
      (id : String) (s : Tabs T)
      → is_active s.active_tab_id id ≡ false
      → among s.active_tab_id (ids s.tabs) ≡ true
      → among s.active_tab_id (ids (without id s.tabs)) ≡ true
  still_among id s h k = elim (Option-cases s.active_tab_id) [
    | inl e ↦ rw e refl
    | inr (a, e) ↦
        let apart : (id == a) ≡ false = rw e at h in
        let there : contains a (ids s.tabs) ≡ true = rw e at k in
        rw (e, contains-without a id s.tabs, there)
          (ground (arith, apart, eq_iff a id, eq_iff id a))
  ]

  -- Closing a tab never throws where the active tab is one of the tabs: the tab is gone, every other
  -- one stays, and the tabs are as well formed as before.
  pub close_tab_lem :
      (max_tabs : ℕ) (id j : String) (s : Tabs T)
      → IsTabs max_tabs s
      → (t : Tabs T) × (close_tab id s ≡ some t)
        × IsTabs max_tabs t
        × (contains j (ids t.tabs) ≡ (contains j (ids s.tabs) && not (j == id)))
  unfolding close_tab activate
  close_tab_lem max_tabs id j s k =
      let next = without id s.tabs in
      let kept = contains-without j id s.tabs in
      let d = without-Distinct id s.tabs k.distinct in
      let b : length next ≤ max_tabs = omega (arith, length-without id s.tabs, k.bounded) in
      elim (Bool-cases (is_active s.active_tab_id id && ltb 0 (length next))) [
        | inl closes ↦
            let shown : is_active s.active_tab_id id ≡ true = ground (arith, closes) in
            let (i, at) = index_of_found id s.tabs (contains-get id s shown k.active) in
            let (t, e, c) = neighbour_in i next (ground (arith, closes)) in
            (
              record { tabs = next; active_tab_id = some t.id },
              rw closes (ap (activate next) (ap (λ x. neighbour x next) at ∙ e)),
              record { distinct = d; bounded = b; active = c },
              kept,
            )
        | inr other ↦ (
          record {
            tabs = next;
            active_tab_id = if length next == 0 then none else s.active_tab_id;
          },
          rw other refl,
          record {
            distinct = d;
            bounded = b;
            active =
                if_elim (λ a. among a (ids next) ≡ true) (length next == 0) (λ _. refl)
                  λ some_left.
                    let hidden : is_active s.active_tab_id id ≡ false =
                      ground (arith, other, some_left) in
                    still_among id s hidden k.active;
          },
          kept,
        )
      ]

  -- The tab that is evicted, if any, is one of those that were there before.
  evicted :
      (active : Option String) (xs : List (Tab T)) (tab : Tab T)
      → Distinct (ids xs)
      → 2 ≤ length xs
      → (o : Tab T) × (find (λ t. not (is_active active t.id)) (xs ++ tab ∷ []) ≡ some o)
        × (contains o.id (ids xs) ≡ true)
  evicted active [] tab d h = absurd (omega arith)
  evicted active (x ∷ []) tab d h = absurd (omega arith)
  evicted active (x ∷ y ∷ rest) tab d h =
      let p = λ (t : Tab T). not (is_active active t.id) in
      let there = some_inactive active x y rest d in
      elim (Option-cases (find p (x ∷ y ∷ rest))) [
        | inl e ↦ absurd (ground (arith, rw e at there))
        | inr (o, e) ↦
            (o, find_first p (x ∷ y ∷ rest) (tab ∷ []) there ∙ e, find_in p (x ∷ y ∷ rest) o e)
      ]

  -- The new tab is there among distinct tabs within the bound.
  IsOpened : ℕ → String → List (Tab T) → Type 0
  IsOpened max_tabs id xs =
      Distinct (ids xs) × (length xs ≤ max_tabs) × (contains id (ids xs) ≡ true)

  evict-IsOpened :
      (max_tabs : ℕ) (active : Option String) (xs : List (Tab T)) (tab : Tab T)
      → Distinct (ids xs)
      → length xs ≤ max_tabs
      → 2 ≤ max_tabs
      → contains tab.id (ids xs) ≡ false
      → IsOpened max_tabs tab.id (evict max_tabs active (xs ++ tab ∷ []))
  unfolding evict IsOpened
  evict-IsOpened max_tabs active xs tab d b two new =
      let next = xs ++ tab ∷ [] in
      let d' = snoc-ids-Distinct xs tab d new in
      let own : contains tab.id (ids next) ≡ true =
        ground (arith, contains-snoc tab.id xs tab, eq_refl tab.id) in
      elim (Bool-cases (ltb max_tabs (length next))) [
        | inr fits ↦ rw fits (d', ground (arith, fits), own)
        | inl over ↦
            let (o, e, c) =
              evicted active xs tab d (ground (arith, over, length-append xs (tab ∷ []))) in
            let in_next : contains o.id (ids next) ≡ true =
              ground (arith, contains-snoc o.id xs tab, c) in
            rw over (
              rw e (
                without-Distinct o.id next d',
                ground (arith, length-without o.id next, in_next, length-append xs (tab ∷ []), b),
                ground (arith, contains-without tab.id o.id next, own, c, new, eq_iff tab.id o.id),
              ))
      ]

  -- Opening a tab, with a bound of at least two, makes it the active one: the tabs stay distinct and
  -- within the bound, and the tab is one of them, also when another one has to go.
  pub open_tab_lem :
      (max_tabs : ℕ) (tab : Tab T) (s : Tabs T)
      → IsTabs max_tabs s
      → 2 ≤ max_tabs
      → let t = open_tab max_tabs tab s in
        IsTabs max_tabs t × (t.active_tab_id ≡ some tab.id) × (contains tab.id (ids t.tabs) ≡ true)
  unfolding open_tab IsOpened
  open_tab_lem max_tabs tab s k two =
      let known = find_none tab.id s.tabs in
      let (d, b, c) : IsOpened max_tabs tab.id (open_tab max_tabs tab s).tabs =
        if_elim (IsOpened max_tabs tab.id) (is_some (find (has_id tab.id) s.tabs))
          (λ old. (k.distinct, k.bounded, sym known ∙ old))
          (λ new.
            evict-IsOpened max_tabs s.active_tab_id s.tabs tab k.distinct k.bounded two
              (sym known ∙ new)) in
      (record { distinct = d; bounded = b; active = c }, refl, c)
