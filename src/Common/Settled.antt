-- ===== src/Common/Settled.antt =====
-- `Promise.allSettled`: the outcome of each promise, in the order of the promises.
use mathlib.Core.List.{List, [], ◌∷◌, ◌++◌}

pub data Settled {ℓ} (A : Type ℓ) : Type ℓ where
  fulfilled : A → Settled A
  rejected : Settled A

module _ {ℓ} {A : Type ℓ} where
  -- `for (const result of results) if (result.status === 'fulfilled') …`
  unfoldable pub values : List (Settled A) → List A
  values [] = []
  values (fulfilled a ∷ rs) = a ∷ values rs
  values (rejected ∷ rs) = values rs

  -- `push(...value)` for each
  unfoldable pub flatten : List (List A) → List A
  flatten [] = []
  flatten (xs ∷ xss) = xs ++ flatten xss
