-- ===== src/UiTabs/Tests.antt =====
-- The theorems on the tabs at two tabs, of which the first is active.
use nestjs_graphql_fastify_a.Common.{
  ℕ, String, true, some, [], ◌∷◌, string_eq, contains, ◌≡◌, refl, arith,
}
use nestjs_graphql_fastify_a.UiTabs.{Tab, Tabs, open_tab}
use nestjs_graphql_fastify_a.UiTabs.Ids.{ids}
use nestjs_graphql_fastify_a.UiTabs.Bounded.{IsTabs, open_tab_lem}

abbrev tab : String → Tab ℕ
tab id = record { id = id; label = id; payload = 0 }

abbrev tabs : Tabs ℕ
tabs = record { tabs = tab "a" ∷ tab "b" ∷ []; active_tab_id = some "a" }

abbrev kept : String
kept = "b"

tabs-IsTabs : IsTabs 2 tabs
unfolding ids contains
tabs-IsTabs = record { distinct = (refl, (refl, tt)); bounded = omega arith; active = refl }

open_tab_lem_example :
    let t = open_tab 2 (tab "c") tabs in
    IsTabs 2 t × (t.active_tab_id ≡ some "c") × (contains "c" (ids t.tabs) ≡ true)
open_tab_lem_example = open_tab_lem 2 (tab "c") tabs tabs-IsTabs (omega arith)
