-- ===== src/Base/Tables.antt =====
-- Database tables as lists of rows, in insertion order, and the statements on them.
pub mod Find
pub mod Count
pub mod Rows
use Prim.Native.Nat.{ℕ, ◌+◌}
use mathlib.Core.Bool.{Bool, true, false}
use mathlib.Core.Option.{Option, none, some}
use mathlib.Core.List.{List, [], ◌∷◌, ◌++◌}
use sshoosh.Base.Tests.{ltb, if◌then◌else◌, is_some}

module _ {ℓ} {A : Type ℓ} where
  -- The first row that fits: `fetch_optional`.
  unfoldable pub find : (A → Bool) → List A → Option A
  find p [] = none
  find p (x ∷ xs) = if p x then some x else find p xs

  -- `SELECT COUNT(*) … WHERE p`
  unfoldable pub count : (A → Bool) → List A → ℕ
  count p [] = 0
  count p (x ∷ xs) = (if p x then 1 else 0) + count p xs

  -- `UPDATE … WHERE p`
  unfoldable pub update_where : (A → Bool) → (A → A) → List A → List A
  update_where p f [] = []
  update_where p f (x ∷ xs) = (if p x then f x else x) ∷ update_where p f xs

  -- `DELETE … WHERE p`
  unfoldable pub delete_where : (A → Bool) → List A → List A
  delete_where p [] = []
  delete_where p (x ∷ xs) = let rest = delete_where p xs in if p x then rest else x ∷ rest

  -- `SELECT … WHERE p`
  unfoldable pub select_where : (A → Bool) → List A → List A
  select_where p [] = []
  select_where p (x ∷ xs) = let rest = select_where p xs in if p x then x ∷ rest else rest

  abbrev pub exists : (A → Bool) → List A → Bool
  exists p xs = ltb 0 (count p xs)

  -- `INSERT … ON CONFLICT DO UPDATE`; the row that conflicts is the one that fits.
  unfoldable pub upsert : (A → Bool) → A → (A → A) → List A → List A
  upsert p new f xs = if is_some (find p xs) then update_where p f xs else xs ++ new ∷ []

  -- A predicate of every row.
  abbrev pub All {κ} : (A → Type κ) → List A → Type κ
  All P [] = Unit
  All P (x ∷ xs) = P x × All P xs
