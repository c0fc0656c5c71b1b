-- ===== src/Base/Tables/Find.antt =====
-- The row that a query finds, after each statement.
use Prim.Native.Nat.{ℕ, ◌+◌, ◌≤◌}
use mathlib.Core.Path.{◌≡◌, refl, sym, ap, ◌∙◌, subst}
use mathlib.Core.Logic.{inl, inr}
use mathlib.Core.Bool.{Bool, true, false, ◌&&◌}
use mathlib.Core.Option
use mathlib.Core.Option.{Option, none, some}
use mathlib.Core.List.{List, [], ◌∷◌, ◌++◌}
use native.Mathlib.Omega.{arith}
use sshoosh.Base.Tests.{if◌then◌else◌, Bool-cases, Option-cases, some_inj}
use sshoosh.Base.Tables.{find, count, update_where, upsert}
use sshoosh.Base.Tables.Count.{count_found}

one_more : (n : ℕ) → 1 + n ≤ 1 → n ≡ 0
one_more n h = omega arith

no_more : (n : ℕ) → 0 + n ≤ 1 → n ≤ 1
no_more n h = omega arith

module _ {ℓ} {A : Type ℓ} where
  pub find-update_where :
      (q p : A → Bool) (f : A → A) (xs : List A)
      → ((a : A) → q (f a) ≡ q a)
      → find q (update_where p f xs) ≡ Option.map (λ a. if p a then f a else a) (find q xs)
  unfolding find update_where
  find-update_where q p f [] h = refl
  find-update_where q p f (x ∷ xs) h = elim (Bool-cases (p x)) [
    | inl e ↦
        rw (e, h x)
          (elim (Bool-cases (q x)) [
            | inl d ↦ rw d (rw e)
            | inr d ↦ rw d (find-update_where q p f xs h)
          ])
    | inr e ↦ rw e (elim (Bool-cases (q x)) [
      | inl d ↦ rw d (rw e)
      | inr d ↦ rw d (find-update_where q p f xs h)
    ])
  ]

  pub find-append :
      (q : A → Bool) (xs : List A) (y : A)
      → find q (xs ++ y ∷ [])
        ≡ elim (find q xs) [ none ↦ (if q y then some y else none) | some a ↦ some a ]
  unfolding find
  find-append q [] y = refl
  find-append q (x ∷ xs) y = elim (Bool-cases (q x)) [
    | inl e ↦ rw e
    | inr e ↦ rw e (find-append q xs y)
  ]

  pub find_fits : (q : A → Bool) (xs : List A) (a : A) → find q xs ≡ some a → q a ≡ true
  unfolding find
  find_fits q [] a h = cc
  find_fits q (x ∷ xs) a h = ground (arith, find_fits q xs a)

  pub find-upsert :
      (q p : A → Bool) (new : A) (f : A → A) (xs : List A)
      → ((a : A) → q (f a) ≡ q a)
      → ((a : A) → q a ≡ true → p a ≡ true)
      → p new ≡ true
      → q new ≡ true
      → find q xs ≡ find p xs
      → find q (upsert p new f xs) ≡ elim (find q xs) [ none ↦ some new | some a ↦ some (f a) ]
  unfolding upsert
  find-upsert q p new f xs keep same pn qn agree = elim (Option-cases (find q xs)) [
    | inl e ↦ rw (sym agree ∙ e) (find-append q xs new ∙ rw (e, qn))
    | inr (a, e) ↦
        rw (sym agree ∙ e)
          (find-update_where q p f xs keep ∙ rw e (rw (same a (find_fits q xs a e))))
  ]

  pub find-upsert_self :
      (p : A → Bool) (new : A) (f : A → A) (xs : List A)
      → ((a : A) → p (f a) ≡ p a)
      → p new ≡ true
      → find p (upsert p new f xs) ≡ elim (find p xs) [ none ↦ some new | some a ↦ some (f a) ]
  find-upsert_self p new f xs keep fits = find-upsert p p new f xs keep (λ a h. h) fits fits refl

  -- An upsert under another key leaves a row alone.
  pub find-upsert_other :
      (q p : A → Bool) (new : A) (f : A → A) (xs : List A)
      → ((a : A) → q (f a) ≡ q a)
      → ((a : A) → q a ≡ true → p a ≡ false)
      → q new ≡ false
      → find q (upsert p new f xs) ≡ find q xs
  unfolding upsert
  find-upsert_other q p new f xs keep other qn = elim (Option-cases (find p xs)) [
    | inl e ↦ rw e (elim (Option-cases (find q xs)) [
      | inl d ↦ find-append q xs new ∙ rw (d, qn)
      | inr (b, d) ↦ find-append q xs new ∙ rw d
    ])
    | inr (a, e) ↦ rw e (elim (Option-cases (find q xs)) [
      | inl d ↦ find-update_where q p f xs keep ∙ rw d
      | inr (b, d) ↦ find-update_where q p f xs keep ∙ rw d (rw (other b (find_fits q xs b d)))
    ])
  ]

  pub find-none : (q : A → Bool) (xs : List A) → ((a : A) → q a ≡ false) → find q xs ≡ none
  unfolding find
  find-none q [] h = refl
  find-none q (x ∷ xs) h = rw (h x) (find-none q xs h)

  pub count_of_found :
      (p q : A → Bool) (xs : List A) (a : A) → find (λ x. p x && q x) xs ≡ some a → 1 ≤ count p xs
  unfolding find count
  count_of_found p q [] a h = cc
  count_of_found p q (x ∷ xs) a h = ground (arith, count_of_found p q xs a)

  -- A key that fits one row at most finds the row that another query has found, if it fits.
  pub find_same :
      (p q : A → Bool) (xs : List A) (a : A)
      → count p xs ≤ 1
      → find q xs ≡ some a
      → p a ≡ true
      → find p xs ≡ some a
  unfolding find count
  find_same p q [] a once e fits = cc
  find_same p q (x ∷ xs) a once e fits = elim (Bool-cases (q x)) [
    | inl d ↦
        let same = some_inj x a (rw d at e) in
        rw (subst (λ y. p y ≡ true) (sym same) fits) (ap some same)
    | inr d ↦ elim (Bool-cases (p x)) [
      | inl f ↦ absurd (
          omega
            (arith, count_found p q xs a (rw d at e) fits, one_more (count p xs) (rw f at once)))
      | inr f ↦ rw f (find_same p q xs a (no_more (count p xs) (rw f at once)) (rw d at e) fits)
    ]
  ]

  -- A key that fits one row at most finds it under further conditions too.
  pub find_key :
      (p q : A → Bool) (xs : List A) (a : A)
      → count p xs ≤ 1
      → find (λ x. p x && q x) xs ≡ some a
      → find p xs ≡ some a
  unfolding find count
  find_key p q [] a u h = cc
  find_key p q (x ∷ xs) a u h = elim (Bool-cases (p x)) [
    | inl e ↦ elim (Bool-cases (q x)) [
      | inl d ↦ rw e (rw (e, d) at h)
      | inr d ↦ absurd (
          omega
            (arith, count_of_found p q xs a (rw (e, d) at h), one_more (count p xs) (rw e at u)))
    ]
    | inr e ↦ rw e (find_key p q xs a (no_more (count p xs) (rw e at u)) (rw e at h))
  ]
