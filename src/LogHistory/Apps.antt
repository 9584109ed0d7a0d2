-- ===== src/LogHistory/Apps.antt =====
-- The apps that `listApps` returns.
use mathlib.Core.List.{map-append}
use nestjs_graphql_fastify_a.Common.{
  ℕ, String, Bool, false, ◌||◌, List, [], ◌∷◌, ◌++◌, map, contains, keys, insert, DistinctKeys,
  Distinct, ◌==◌, string_eq, ◌≡◌, refl, ap, ◌∙◌, sym, arith, contains-append, contains-insert,
  insert-DistinctKeys, eq_iff, if_elim,
}
use nestjs_graphql_fastify_a.Common.Text.{template}
use nestjs_graphql_fastify_a.Common.Settled.{Settled, values, flatten}
use nestjs_graphql_fastify_a.Common.Sorting.{sort-IsSorted, IsSorted, IsOrder}
use nestjs_graphql_fastify_a.Common.SortedKeys.{contains-sort, sort-Distinct}
use nestjs_graphql_fastify_a.LogHistory.{
  LogApp, LogAppsResponse, app_key, add_app, add_all, apps_of, gather_apps, list_apps, by_name,
  discover_log_streamer_urls,
}

-- The keys of a list of apps.
abbrev pub app_keys : List LogApp → List String
app_keys = map app_key

abbrev entries : List (String × LogApp) → List LogApp
entries = map (λ entry. entry.1)

-- A map of apps under their keys, each key once.
record IsKeyed (m : List (String × LogApp)) : Type 0 where
  distinct : DistinctKeys m
  keyed : keys m ≡ app_keys (entries m)

insert_new :
    (app : LogApp) (m : List (String × LogApp))
    → contains (app_key app) (keys m) ≡ false
    → insert (app_key app) app m ≡ m ++ (app_key app, app) ∷ []
unfolding insert keys contains
insert_new app [] h = refl
insert_new app ((k, a) ∷ m) h = ground (arith, insert_new app m)

keys-append :
    (m : List (String × LogApp)) (k : String) (a : LogApp)
    → keys (m ++ (k, a) ∷ []) ≡ keys m ++ k ∷ []
unfolding keys
keys-append [] k a = refl
keys-append ((j, b) ∷ m) k a = ap (◌∷◌ j) (keys-append m k a)

add_app-IsKeyed : (app : LogApp) (m : List (String × LogApp)) → IsKeyed m → IsKeyed (add_app app m)
unfolding add_app
add_app-IsKeyed app m h =
    if_elim IsKeyed (contains (app_key app) (keys m)) (λ _. h)
      λ new. record {
        distinct = insert-DistinctKeys (app_key app) app m h.distinct;
        keyed = rw (
          insert_new app m new,
          keys-append m (app_key app) app,
          h.keyed,
          map-append,
          map-append,
        );
      }

contains-add_app :
    (k : String) (app : LogApp) (m : List (String × LogApp))
    → contains k (keys (add_app app m)) ≡ (contains k (keys m) || app_key app == k)
unfolding add_app
contains-add_app k app m =
    ground (arith, contains-insert k (app_key app) app m, eq_iff (app_key app) k)

add_all-IsKeyed :
    (apps : List LogApp) (m : List (String × LogApp)) → IsKeyed m → IsKeyed (add_all apps m)
unfolding add_all
add_all-IsKeyed [] m h = h
add_all-IsKeyed (app ∷ apps) m h = add_all-IsKeyed apps (add_app app m) (add_app-IsKeyed app m h)

contains-add_all :
    (k : String) (apps : List LogApp) (m : List (String × LogApp))
    → contains k (keys (add_all apps m)) ≡ (contains k (keys m) || contains k (app_keys apps))
unfolding add_all contains
contains-add_all k [] m = ground arith
contains-add_all k (app ∷ apps) m =
    ground (arith, contains-add_all k apps (add_app app m), contains-add_app k app m)

gather_apps-IsKeyed :
    (rs : List LogAppsResponse) (m : List (String × LogApp))
    → IsKeyed m
    → IsKeyed (gather_apps rs m)
unfolding gather_apps
gather_apps-IsKeyed [] m h = h
gather_apps-IsKeyed (r ∷ rs) m h = gather_apps-IsKeyed rs _ (add_all-IsKeyed (apps_of r) m h)

contains-gather_apps :
    (k : String) (rs : List LogAppsResponse) (m : List (String × LogApp))
    → contains k (keys (gather_apps rs m))
      ≡ (contains k (keys m) || contains k (app_keys (flatten (map apps_of rs))))
unfolding gather_apps flatten contains
contains-gather_apps k [] m = ground arith
contains-gather_apps k (r ∷ rs) m = ground (
  arith,
  contains-gather_apps k rs (add_all (apps_of r) m),
  contains-add_all k (apps_of r) m,
  ap (contains k) (map-append app_key (apps_of r) (flatten (map apps_of rs))),
  contains-append k (app_keys (apps_of r)) (app_keys (flatten (map apps_of rs))),
)

-- The answers to the request for the apps that arrived, in the order of the hosts.
abbrev pub apps_answers :
    ℕ → List String → (String → Settled LogAppsResponse) → List LogAppsResponse
apps_answers port ips get = values (
    map (λ host. get (template (host ∷ "/api/logs/apps" ∷ [])))
      (discover_log_streamer_urls port ips))

-- Where the locale's order is total and transitive, the apps are sorted by name, no two of them have
-- the same key of name and node, and a key is among them exactly if some log streamer that answered
-- lists an app with that key.
pub list_apps_lem :
    (locale_le : String → String → Bool) (port : ℕ) (ips : List String)
    (get : String → Settled LogAppsResponse) (key : String)
    → IsOrder locale_le
    → let apps = list_apps locale_le port ips get in
      IsSorted (by_name locale_le) apps
      × Distinct (app_keys apps)
      × (contains key (app_keys apps)
          ≡ contains key (app_keys (flatten (map apps_of (apps_answers port ips get)))))
unfolding list_apps keys contains
list_apps_lem locale_le port ips get key o =
    let rs = apps_answers port ips get in
    let m = gather_apps rs [] in
    let h : IsKeyed m = gather_apps-IsKeyed rs [] (record { distinct = tt; keyed = refl }) in
    (
      sort-IsSorted (by_name locale_le)
          (record { total = λ a b. o.total _ _; transitive = λ a b c. o.transitive _ _ _ })
          (entries m),
      sort-Distinct app_key (by_name locale_le) (entries m) (rw (← h.keyed) h.distinct),
      contains-sort app_key (by_name locale_le) key (entries m)
          ∙ ap (contains key) (sym h.keyed)
          ∙ contains-gather_apps key rs [],
    )
