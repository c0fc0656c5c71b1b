-- ===== src/Base/Tables/Rows.antt =====
-- Predicates that hold of every row, after each statement.
use mathlib.Core.Path.{◌≡◌, refl, subst}
use mathlib.Core.Logic.{inl, inr}
use mathlib.Core.Bool.{Bool, true, false}
use mathlib.Core.Option.{some}
use mathlib.Core.List.{Mem, mem-cons, List, [], ◌∷◌, ◌++◌}
use sshoosh.Base.Tests.{if◌then◌else◌, Bool-cases}
use sshoosh.Base.Tables.{find, update_where, All}

module _ {ℓ} {A : Type ℓ} where
  pub All-find {κ} :
      (P : A → Type κ) (q : A → Bool) (xs : List A) (a : A) → All P xs → find q xs ≡ some a → P a
  unfolding find
  All-find P q [] a h e = cc
  All-find P q (x ∷ xs) a h e = elim (Bool-cases (q x)) [
    | inl d ↦ subst P (cc) h.0
    | inr d ↦ All-find P q xs a h.1 (rw d at e)
  ]

  pub All-append {κ} :
      (P : A → Type κ) (xs : List A) (y : A) → All P xs → P y → All P (xs ++ y ∷ [])
  All-append P [] y h k = (k, tt)
  All-append P (x ∷ xs) y h k = (h.0, All-append P xs y h.1 k)

  pub All-update_where {κ} :
      {P : A → Type κ} (q : A → Bool) (f : A → A) (xs : List A)
      → ((a : A) → P a → P (f a))
      → All P xs
      → All P (update_where q f xs)
  unfolding update_where
  All-update_where q f [] h all = tt
  All-update_where {P} q f (x ∷ xs) h all = (
    elim (q x) as (λ b. P (if b then f x else x)) [ true ↦ h x all.0 | false ↦ all.0 ],
    All-update_where q f xs h all.1,
  )

  -- An update that takes one predicate of every row to another.
  pub All-update_where_to {κ ν} :
      {P : A → Type κ} {Q : A → Type ν} (q : A → Bool) (f : A → A) (xs : List A)
      → ((a : A) → q a ≡ true → P a → Q (f a))
      → ((a : A) → q a ≡ false → P a → Q a)
      → All P xs
      → All Q (update_where q f xs)
  unfolding update_where
  All-update_where_to q f [] h k all = tt
  All-update_where_to {P} {Q} q f (x ∷ xs) h k all = (
    elim (Bool-cases (q x)) [ inl e ↦ rw e (h x e all.0) | inr e ↦ rw e (k x e all.0) ],
    All-update_where_to q f xs h k all.1,
  )

  pub All-mono {κ ν} :
      {P : A → Type κ} {Q : A → Type ν} (xs : List A) → ((a : A) → P a → Q a) → All P xs → All Q xs
  All-mono [] h all = tt
  All-mono (x ∷ xs) h all = (h x all.0, All-mono xs h all.1)

  pub All-self : (xs : List A) → All (λ a. Mem a xs) xs
  All-self [] = tt
  All-self (x ∷ xs) =
      (mem-cons.1 ∣ inl refl ∣₁, All-mono xs (λ a m. mem-cons.1 ∣ inr m ∣₁) (All-self xs))
