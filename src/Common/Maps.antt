-- ===== src/Common/Maps.antt =====
-- JavaScript's `Map` with text keys: an association list in insertion order. `set` on a present
-- key keeps its place, `delete` takes the entry out.
use Prim.Native.String.{String}
use mathlib.Core.Path.{◌≡◌, refl}
use mathlib.Core.Bool.{Bool, false, not, ◌&&◌, ◌||◌}
use mathlib.Core.List.{List, [], ◌∷◌, ◌++◌}
use mathlib.Core.Option.{Option, none, some}
use native.Mathlib.Omega.{arith}
use text.Mathlib.TextEquality.{eq_iff}
use nestjs_graphql_fastify_a.Common.Tests.{◌==◌, string_eq, if◌then◌else◌, is_some}

-- `has` of a `Set` of texts, and of the keys of a map.
unfoldable pub contains : String → List String → Bool
contains k [] = false
contains k (j ∷ js) = j == k || contains k js

-- `add` of a `Set` of texts
unfoldable pub add : String → List String → List String
add k ks = if contains k ks then ks else ks ++ k ∷ []

-- `new Set(list)`, from the items that it holds so far
unfoldable pub set_from : List String → List String → List String
set_from acc [] = acc
set_from acc (k ∷ ks) = set_from (add k acc) ks

abbrev pub Distinct : List String → Type 0
Distinct [] = Unit
Distinct (k ∷ ks) = (contains k ks ≡ false) × Distinct ks

pub contains-append :
    (k : String) (xs ys : List String) → contains k (xs ++ ys) ≡ (contains k xs || contains k ys)
unfolding contains
contains-append k [] ys = refl
contains-append k (x ∷ xs) ys = ground (arith, contains-append k xs ys)

pub contains-add :
    (j k : String) (ks : List String) → contains j (add k ks) ≡ (k == j || contains j ks)
unfolding add
contains-add j k ks = ground (arith, eq_iff k j, contains-append j ks (k ∷ []), contains-one j k)
  where
    contains-one : (j k : String) → contains j (k ∷ []) ≡ (k == j)
    contains-one j k = unfold contains in ground arith

pub snoc-Distinct :
    (k : String) (ks : List String) → contains k ks ≡ false → Distinct ks → Distinct (ks ++ k ∷ [])
unfolding contains
snoc-Distinct k [] _ _ = (refl, tt)
snoc-Distinct k (i ∷ is) h (p, d) =
    ground (arith, eq_iff i k, eq_iff k i, contains-append i is (k ∷ []), snoc-Distinct k is)

pub add-Distinct : (k : String) (ks : List String) → Distinct ks → Distinct (add k ks)
unfolding add
add-Distinct k ks d = ground (arith, snoc-Distinct k ks)

pub set_from-Distinct : (acc ks : List String) → Distinct acc → Distinct (set_from acc ks)
unfolding set_from
set_from-Distinct acc [] d = d
set_from-Distinct acc (k ∷ ks) d = set_from-Distinct (add k acc) ks (add-Distinct k acc d)

pub contains-set_from :
    (j : String) (acc ks : List String)
    → contains j (set_from acc ks) ≡ (contains j acc || contains j ks)
unfolding set_from contains
contains-set_from j acc [] = ground arith
contains-set_from j acc (k ∷ ks) =
    ground (arith, contains-set_from j (add k acc) ks, contains-add j k acc)

module _ {ℓ} {V : Type ℓ} where
  -- The keys, in the order of insertion.
  unfoldable pub keys : List (String × V) → List String
  keys [] = []
  keys ((k, v) ∷ m) = k ∷ keys m

  -- `map.delete(key)`
  unfoldable pub delete : String → List (String × V) → List (String × V)
  delete key [] = []
  delete key ((first, v) ∷ rest) = if first == key then rest else (first, v) ∷ delete key rest

  -- `map.set(key, value)`: an entry that is there keeps its place.
  unfoldable pub insert : (key : String) (value : V) → List (String × V) → List (String × V)
  insert key value [] = (key, value) ∷ []
  insert key value ((first, v) ∷ rest) =
      if first == key then (key, value) ∷ rest else (first, v) ∷ insert key value rest

  -- `map.get(key)`
  unfoldable pub lookup : (key : String) → List (String × V) → Option V
  lookup key [] = none
  lookup key ((first, v) ∷ rest) = if first == key then some v else lookup key rest

  -- Every map that the program builds has distinct keys.
  abbrev pub DistinctKeys : List (String × V) → Type 0
  DistinctKeys m = Distinct (keys m)

  pub lookup-insert :
      (key asked : String) (value : V) (m : List (String × V))
      → lookup asked (insert key value m) ≡ (if key == asked then some value else lookup asked m)
  unfolding insert lookup
  lookup-insert key asked value [] = refl
  lookup-insert key asked value ((first, v) ∷ rest) = ground (
    arith,
    lookup-insert key asked value rest,
    eq_iff key asked,
    eq_iff first key,
    eq_iff first asked,
  )

  pub lookup_of_absent :
      (k : String) (m : List (String × V)) → contains k (keys m) ≡ false → lookup k m ≡ none
  unfolding lookup keys contains
  lookup_of_absent k [] h = refl
  lookup_of_absent k ((i, w) ∷ m) h = ground (arith, lookup_of_absent k m)

  pub lookup-delete :
      (k j : String) (m : List (String × V))
      → DistinctKeys m
      → lookup j (delete k m) ≡ (if k == j then none else lookup j m)
  unfolding lookup delete keys
  lookup-delete k j [] d = ground arith
  lookup-delete k j ((i, w) ∷ m) d =
      ground (
        arith,
        eq_iff k j,
        eq_iff i k,
        eq_iff i j,
        lookup-delete k j m d.1,
        lookup_of_absent i m d.0,
      )

  pub contains-insert :
      (j k : String) (v : V) (m : List (String × V))
      → contains j (keys (insert k v m)) ≡ (k == j || contains j (keys m))
  unfolding insert keys contains
  contains-insert j k v [] = refl
  contains-insert j k v ((i, w) ∷ m) =
      ground (arith, eq_iff k j, eq_iff i k, eq_iff i j, contains-insert j k v m)

  pub insert-DistinctKeys :
      (k : String) (v : V) (m : List (String × V)) → DistinctKeys m → DistinctKeys (insert k v m)
  unfolding insert keys contains
  insert-DistinctKeys k v [] d = (refl, tt)
  insert-DistinctKeys k v ((i, w) ∷ m) d =
      ground (arith, eq_iff i k, eq_iff k i, contains-insert i k v m, insert-DistinctKeys k v m d.1)

  pub contains-delete :
      (j k : String) (m : List (String × V))
      → DistinctKeys m
      → contains j (keys (delete k m)) ≡ (not (k == j) && contains j (keys m))
  unfolding delete keys contains
  contains-delete j k [] d = ground arith
  contains-delete j k ((i, w) ∷ m) d =
      ground (arith, eq_iff k j, eq_iff i k, eq_iff i j, contains-delete j k m d.1, d.0)

  pub delete-DistinctKeys :
      (k : String) (m : List (String × V)) → DistinctKeys m → DistinctKeys (delete k m)
  unfolding delete keys
  delete-DistinctKeys k [] d = tt
  delete-DistinctKeys k ((i, w) ∷ m) d =
      ground (arith, contains-delete i k m d.1, delete-DistinctKeys k m d.1)

  pub is_some-lookup :
      (k : String) (m : List (String × V)) → is_some (lookup k m) ≡ contains k (keys m)
  unfolding lookup keys contains
  is_some-lookup k [] = refl
  is_some-lookup k ((i, w) ∷ m) = ground (arith, is_some-lookup k m)
