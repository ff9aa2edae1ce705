-- ===== src/Rows.antt =====
-- SQL as internal/store uses it: a table is a list of rows.
pub mod Laws
pub mod Selects
pub mod Defaults
use aura_cp.Prelude.{Bool, List, [], ◌∷◌, Option, none, some, if◌then◌else◌}

module _ {A : Type 0} where
  -- the first row that a SELECT finds
  unfoldable pub first : (A → Bool) → List A → Option A
  first p [] = none
  first p (x ∷ xs) = if p x then some x else first p xs

  -- UPDATE … WHERE
  unfoldable pub update : (A → Bool) → (A → A) → List A → List A
  update p f [] = []
  update p f (x ∷ xs) = (if p x then f x else x) ∷ update p f xs
