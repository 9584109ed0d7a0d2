-- ===== src/UiTabs.antt =====
-- apps/ui/src/hooks/useTabs.ts: the tabs of a page, by React's rule that an update function sees
-- the tabs of before and the `activeTabId` of the last render.
pub mod Ids
pub mod Bounded
mod Tests
use nestjs_graphql_fastify_a.Common.{
  ℕ, suc, ◌-◌, min, String, Bool, true, false, not, ◌&&◌, Option, none, some, List, [], ◌∷◌, ◌++◌,
  map, filter, find, length, if◌then◌else◌, ltb, ◌==◌, nat_eq, string_eq, get_elem?, is_some,
  or_default,
}

-- `Tab<T>`
pub record Tab {ℓ} (T : Type ℓ) : Type ℓ where
  pub id : String
  pub label : String
  pub payload : T

-- The state of the hook, and what is persisted.
pub record Tabs {ℓ} (T : Type ℓ) : Type ℓ where
  pub tabs : List (Tab T)
  pub active_tab_id : Option String

-- `id === activeTabId`
abbrev pub is_active : Option String → String → Bool
is_active none id = false
is_active (some active) id = id == active

module _ {ℓ} {T : Type ℓ} where
  abbrev pub has_id : String → Tab T → Bool
  has_id id t = t.id == id

  unfoldable pub without : String → List (Tab T) → List (Tab T)
  without id = filter (λ t. not (has_id id t))

  -- The tabs that are left when one is over the limit.
  unfoldable pub evict : ℕ → Option String → List (Tab T) → List (Tab T)
  evict max_tabs active next =
      if ltb max_tabs (length next)
      then elim (find (λ t. not (is_active active t.id)) next) [
        | none ↦ next
        | some oldest_inactive ↦ without oldest_inactive.id next
      ]
      else next

  unfoldable pub open_tab : ℕ → Tab T → Tabs T → Tabs T
  open_tab max_tabs tab s = record {
    tabs =
        if is_some (find (has_id tab.id) s.tabs)
        then s.tabs
        else evict max_tabs s.active_tab_id (s.tabs ++ tab ∷ []);
    active_tab_id = some tab.id;
  }

  -- `findIndex`; `none` is -1.
  unfoldable pub index_of : String → List (Tab T) → Option ℕ
  index_of id [] = none
  index_of id (t ∷ rest) =
      let later = index_of id rest in
      if has_id id t then some 0 else elim later [ none ↦ none | some i ↦ some (suc i) ]

  -- `next[Math.min(idx, next.length - 1)].id`; `none` is the TypeError of an index of -1.
  unfoldable pub neighbour : Option ℕ → List (Tab T) → Option String
  neighbour none next = none
  neighbour (some idx) next = elim (get_elem? next (min idx (length next - 1))) [
    | none ↦ none
    | some t ↦ some t.id
  ]

  -- What an index that is there makes of the state.
  unfoldable pub activate : List (Tab T) → Option String → Option (Tabs T)
  activate next none = none
  activate next (some id) = some (record { tabs = next; active_tab_id = some id })

  -- `none` is the TypeError that closing an active tab which is not among the tabs throws.
  unfoldable pub close_tab : String → Tabs T → Option (Tabs T)
  close_tab id s =
      let next = without id s.tabs in
      if is_active s.active_tab_id id && ltb 0 (length next)
      then activate next (neighbour (index_of id s.tabs) next)
      else some (record {
        tabs = next;
        active_tab_id = if length next == 0 then none else s.active_tab_id;
      })

  unfoldable pub update_tab_label : String → String → Tabs T → Tabs T
  update_tab_label id label s = record {
    tabs = map (λ t. if has_id id t then record t { label = label } else t) s.tabs;
    active_tab_id = s.active_tab_id;
  }
