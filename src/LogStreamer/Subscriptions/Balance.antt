-- ===== src/LogStreamer/Subscriptions/Balance.antt =====
-- The counts against the list of the subscribers that are alive, and the upstream frames that the
-- two operations ask for.
use nestjs_graphql_fastify_a.LogStreamer.Subscriptions.{
  Subscriptions, retain_subscription, release_subscription,
}
use nestjs_graphql_fastify_a.Common.{
  ltb, ◌&&◌, ℕ, ◌+◌, ◌-◌, String, Bool, true, false, some, List, [], ◌∷◌, ◌==◌, nat_eq, string_eq,
  or_default, if◌then◌else◌, lookup, keys, DistinctKeys, ◌≡◌, refl, eq_refl, ◌∙◌, arith, eq_iff,
  lookup-insert, lookup-delete, insert-DistinctKeys, delete-DistinctKeys, ◌≢◌,
}

-- How many subscribers the map counts for a key.
abbrev pub count_of : String → Subscriptions → ℕ
count_of key subscriptions = or_default (lookup key subscriptions) 0

-- A map never holds a count of 0, so that a key is present exactly when somebody subscribes.
pub record IsCounted (subscriptions : Subscriptions) : Type 0 where
  pub distinct : DistinctKeys subscriptions
  pub positive : (key : String) → lookup key subscriptions ≢ some 0

pub retain-IsCounted :
    (m : Subscriptions) (key : String) → IsCounted m → IsCounted (retain_subscription m key).0
unfolding retain_subscription
retain-IsCounted m key c = record {
  distinct = insert-DistinctKeys key _ m c.distinct;
  positive = λ j. ground (arith, lookup-insert key j (count_of key m + 1) m, c.positive j);
}

pub release-IsCounted :
    (m : Subscriptions) (key : String) → IsCounted m → IsCounted (release_subscription m key).0
unfolding release_subscription
release-IsCounted m key c = record {
  distinct = ground (
    arith,
    delete-DistinctKeys key m c.distinct,
    insert-DistinctKeys key (count_of key m - 1) m c.distinct,
    c.distinct,
  );
  positive = λ j. ground (
    arith,
    lookup-insert key j (count_of key m - 1) m,
    lookup-delete key j m c.distinct,
    c.positive j,
    c.positive key,
  );
}

pub count_of-retain :
    (m : Subscriptions) (key j : String)
    → count_of j (retain_subscription m key).0
      ≡ (if key == j then count_of j m + 1 else count_of j m)
unfolding retain_subscription
count_of-retain m key j = ground (arith, lookup-insert key j (count_of key m + 1) m, eq_iff key j)

pub count_of-release :
    (m : Subscriptions) (key j : String)
    → IsCounted m
    → count_of j (release_subscription m key).0
      ≡ (if key == j then count_of j m - 1 else count_of j m)
unfolding release_subscription
count_of-release m key j c = ground (
  arith,
  lookup-insert key j (count_of key m - 1) m,
  lookup-delete key j m c.distinct,
  eq_iff key j,
)

pub retain_flag :
    (m : Subscriptions) (key : String) → (retain_subscription m key).1 ≡ (count_of key m == 0)
unfolding retain_subscription
retain_flag m key = ground arith

pub release_flag :
    (m : Subscriptions) (key : String) → (release_subscription m key).1 ≡ (count_of key m == 1)
unfolding release_subscription
release_flag m key = ground arith

-- What subscribers do: a new one for a key, or the end of one.
pub data Change : Type 0 where
  retains releases : String → Change

-- The last answer about key `j` that asked for a frame: one to subscribe or one to unsubscribe.
told : String → String → Bool → Bool → Bool → Bool
told j key asked value upstream = if asked && key == j then value else upstream

pub follow : String → Subscriptions × Bool → List Change → Subscriptions × Bool
follow j s [] = s
follow j (m, upstream) (retains key ∷ cs) =
    let r = retain_subscription m key in follow j (r.0, told j key r.1 true upstream) cs
follow j (m, upstream) (releases key ∷ cs) =
    let r = release_subscription m key in follow j (r.0, told j key r.1 false upstream) cs

-- The independent count: subscribers of `j` that are alive after the changes.
pub alive : String → ℕ → List Change → ℕ
alive j n [] = n
alive j n (retains key ∷ cs) = alive j (if key == j then n + 1 else n) cs
alive j n (releases key ∷ cs) = alive j (if key == j then n - 1 else n) cs

told_retain :
    (m : Subscriptions) (key j : String)
    → told j key (retain_subscription m key).1 true (ltb 0 (count_of j m))
      ≡ ltb 0 (if key == j then count_of j m + 1 else count_of j m)
unfolding told
told_retain m key j = ground (arith, retain_flag m key, eq_iff key j)

told_release :
    (m : Subscriptions) (key j : String)
    → told j key (release_subscription m key).1 false (ltb 0 (count_of j m))
      ≡ ltb 0 (if key == j then count_of j m - 1 else count_of j m)
unfolding told
told_release m key j = ground (arith, release_flag m key, eq_iff key j)

-- The three views of key `j` agree: the map, the history, and the answers.
abbrev Agrees : String → Subscriptions × Bool → ℕ → Type 0
Agrees j (m, upstream) n = (count_of j m ≡ n) × (upstream ≡ ltb 0 n)

follow-Agrees :
    (j : String) (m : Subscriptions) (upstream : Bool) (n : ℕ) (cs : List Change)
    → IsCounted m
    → Agrees j (m, upstream) n
    → Agrees j (follow j (m, upstream) cs) (alive j n cs) × IsCounted (follow j (m, upstream) cs).0
unfolding follow alive
follow-Agrees j m upstream n [] c a = (a, c)
follow-Agrees j m upstream n (retains key ∷ cs) c (same, asked) =
    follow-Agrees j (retain_subscription m key).0
      (told j key (retain_subscription m key).1 true upstream) (if key == j then n + 1 else n) cs
      (retain-IsCounted m key c)
      (count_of-retain m key j ∙ rw same, rw (asked, ← same) (told_retain m key j))
follow-Agrees j m upstream n (releases key ∷ cs) c (same, asked) =
    follow-Agrees j (release_subscription m key).0
      (told j key (release_subscription m key).1 false upstream) (if key == j then n - 1 else n) cs
      (release-IsCounted m key c)
      (count_of-release m key j c ∙ rw same, rw (asked, ← same) (told_release m key j))

-- After any history of subscribers, a key's count is the number of subscribers that are alive, the
-- last answer that asked for a frame about the key asked to subscribe exactly while there is one, and
-- the map holds distinct keys with no count of 0.
pub follow-alive :
    (j : String) (cs : List Change)
    → let r = follow j ([], false) cs in
      (count_of j r.0 ≡ alive j 0 cs) × (r.1 ≡ ltb 0 (alive j 0 cs)) × IsCounted r.0
unfolding lookup keys
follow-alive j cs =
    let (agrees, counted) =
      follow-Agrees j [] false 0 cs (record { distinct = tt; positive = λ k. cc }) (refl, refl) in
    (agrees.0, agrees.1, counted)

-- Where no key is counted 0, a subscriber that ends right after it came leaves every count as it
-- was, and the two frames are sent both or neither: both exactly if nobody else subscribed.
pub release-retain :
    (m : Subscriptions) (key j : String)
    → IsCounted m
    → let r = retain_subscription m key in
      let s = release_subscription r.0 key in
      (count_of j s.0 ≡ count_of j m) × (r.1 ≡ s.1) × (s.1 ≡ (count_of key m == 0))
release-retain m key j c = ground (
  arith,
  count_of-retain m key j,
  count_of-retain m key key,
  eq_refl key,
  count_of-release (retain_subscription m key).0 key j (retain-IsCounted m key c),
  retain_flag m key,
  release_flag (retain_subscription m key).0 key,
  eq_iff key j,
)
