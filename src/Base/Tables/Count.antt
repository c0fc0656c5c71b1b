-- ===== src/Base/Tables/Count.antt =====
-- What `COUNT(*)` gives after each statement.
use Prim.Native.Nat.{◌+◌, ◌≤◌}
use mathlib.Core.Path.{◌∙◌, ◌≡◌, refl, sym, subst}
use mathlib.Core.Logic.{inl, inr}
use mathlib.Core.Bool.{Bool, true, false, ◌&&◌, not}
use mathlib.Core.Option.{none, some}
use mathlib.Core.List.{List, [], ◌∷◌, ◌++◌, map}
use native.Mathlib.Omega.{arith}
use sshoosh.Base.Tests.{if◌then◌else◌, Bool-cases, some_inj}
use sshoosh.Base.Tables.{find, count, update_where, select_where, All}

module _ {ℓ} {A : Type ℓ} where
  pub find-none-count : (q : A → Bool) (xs : List A) → find q xs ≡ none → count q xs ≡ 0
  unfolding find count
  find-none-count q [] h = refl
  find-none-count q (x ∷ xs) h = ground (arith, find-none-count q xs)

  pub count-append :
      (p : A → Bool) (xs : List A) (y : A)
      → count p (xs ++ y ∷ []) ≡ count p xs + (if p y then 1 else 0)
  unfolding count
  count-append p [] y = omega arith
  count-append p (x ∷ xs) y = omega (arith, count-append p xs y)

  pub count_congr : (p q : A → Bool) (xs : List A) → ((a : A) → p a ≡ q a) → count p xs ≡ count q xs
  unfolding count
  count_congr p q [] h = refl
  count_congr p q (x ∷ xs) h = rw (h x, count_congr p q xs h)

  pub count_mono :
      (p q : A → Bool) (xs : List A) → ((a : A) → p a ≡ true → q a ≡ true) → count p xs ≤ count q xs
  unfolding count
  count_mono p q [] h = omega arith
  count_mono p q (x ∷ xs) h = ground (arith, h x, count_mono p q xs h)

  pub count-false : (p : A → Bool) (xs : List A) → ((a : A) → p a ≡ false) → count p xs ≡ 0
  unfolding count
  count-false p [] h = refl
  count-false p (x ∷ xs) h = rw (h x, count-false p xs h)

  -- Rows that no predicate of the table lets fit are not counted.
  pub count-none {κ} :
      {P : A → Type κ} (p : A → Bool) (xs : List A)
      → ((a : A) → P a → p a ≡ false)
      → All P xs
      → count p xs ≡ 0
  unfolding count
  count-none p [] h all = refl
  count-none p (x ∷ xs) h all = rw (h x all.0, count-none p xs h all.1)

  -- Two counts agree where the table's rows tell the predicates not apart.
  pub count_congr-All {κ} :
      {P : A → Type κ} (p q : A → Bool) (xs : List A)
      → ((a : A) → P a → p a ≡ q a)
      → All P xs
      → count p xs ≡ count q xs
  unfolding count
  count_congr-All p q [] h all = refl
  count_congr-All p q (x ∷ xs) h all = rw (h x all.0, count_congr-All p q xs h all.1)

  pub count-update_where :
      (p q : A → Bool) (f : A → A) (xs : List A)
      → ((a : A) → p (f a) ≡ p a)
      → count p (update_where q f xs) ≡ count p xs
  unfolding count update_where
  count-update_where p q f [] h = refl
  count-update_where p q f (x ∷ xs) h = elim (Bool-cases (q x)) [
    | inl e ↦ rw (e, h x, count-update_where p q f xs h)
    | inr e ↦ rw (e, count-update_where p q f xs h)
  ]

  -- An update that makes its rows fit no more takes exactly those away from the count.
  pub count-update_where_out :
      (p q : A → Bool) (f : A → A) (xs : List A)
      → ((a : A) → p (f a) ≡ false)
      → count p (update_where q f xs) + count (λ a. p a && q a) xs ≡ count p xs
  unfolding count update_where
  count-update_where_out p q f [] h = refl
  count-update_where_out p q f (x ∷ xs) h = ground (arith, h x, count-update_where_out p q f xs h)

  pub count_of_find :
      (p q : A → Bool) (xs : List A) (a : A)
      → find q xs ≡ some a
      → ((b : A) → q b ≡ true → p b ≡ true)
      → 1 ≤ count p xs
  unfolding find count
  count_of_find p q [] a e h = cc
  count_of_find p q (x ∷ xs) a e h = ground (arith, h x, count_of_find p q xs a)

module _ {ℓ κ} {A : Type ℓ} {B : Type κ} where
  -- A count over the selected rows, mapped, is a count over the rows.
  pub count-map-select_where :
      (p : B → Bool) (f : A → B) (q : A → Bool) (xs : List A)
      → count p (map f (select_where q xs)) ≡ count (λ a. q a && p (f a)) xs
  unfolding count select_where
  count-map-select_where p f q [] = refl
  count-map-select_where p f q (x ∷ xs) = elim (Bool-cases (q x)) [
    | inl e ↦ rw e (rw (count-map-select_where p f q xs))
    | inr e ↦ rw e (rw (count-map-select_where p f q xs) (omega arith))
  ]

module _ {ℓ} {A : Type ℓ} where
  pub count_found :
      (p q : A → Bool) (xs : List A) (a : A) → find q xs ≡ some a → p a ≡ true → 1 ≤ count p xs
  unfolding find count
  count_found p q [] a e h = cc
  count_found p q (x ∷ xs) a e h = elim (Bool-cases (q x)) [
    | inl d ↦ rw (subst (λ y. p y ≡ true) (sym (some_inj x a (rw d at e))) h) (omega arith)
    | inr d ↦ omega (arith, count_found p q xs a (rw d at e) h)
  ]

  count_split :
      (p q : A → Bool) (xs : List A)
      → count (λ x. p x && q x) xs + count (λ x. not (p x) && q x) xs ≡ count q xs
  unfolding count
  count_split p q [] = refl
  count_split p q (x ∷ xs) = ground (arith, count_split p q xs)

  -- A key that fits one row at most: what is counted with it is that row.
  pub count_key :
      (p q r : A → Bool) (xs : List A) (a : A)
      → count q xs ≤ 1
      → find r xs ≡ some a
      → q a ≡ true
      → count (λ x. p x && q x) xs ≡ (if p a then 1 else 0)
  count_key p q r xs a once e fits = elim (Bool-cases (p a)) [
    | inl h ↦
        rw h
          (omega (arith, count_split p q xs, count_found (λ x. p x && q x) r xs a e (rw (h, fits))))
    | inr h ↦ rw h (
        omega
          (arith, count_split p q xs, count_found (λ x. not (p x) && q x) r xs a e (rw (h, fits))))
  ]

  -- Of the rows that a key finds, an update that makes them fit no more takes the one row away.
  pub count-update_where_key :
      (p q r : A → Bool) (f : A → A) (xs : List A) (a : A)
      → ((b : A) → p (f b) ≡ false)
      → count q xs ≤ 1
      → find r xs ≡ some a
      → q a ≡ true
      → count p (update_where q f xs) + (if p a then 1 else 0) ≡ count p xs
  count-update_where_key p q r f xs a h once e fits =
      rw (← count_key p q r xs a once e fits) (count-update_where_out p q f xs h)

  -- The rows that an update leaves alone are counted as before.
  pub count-update_where_other :
      (p q : A → Bool) (f : A → A) (xs : List A)
      → count (λ a. not (q a) && p a) xs ≤ count p (update_where q f xs)
  unfolding count update_where
  count-update_where_other p q f [] = omega arith
  count-update_where_other p q f (x ∷ xs) = ground (arith, count-update_where_other p q f xs)

  -- An update that keeps every fitting row fitting loses none.
  pub count-update_where_keep :
      (p q : A → Bool) (f : A → A) (xs : List A)
      → ((a : A) → p a ≡ true → p (f a) ≡ true)
      → count p xs ≤ count p (update_where q f xs)
  unfolding count update_where
  count-update_where_keep p q f [] h = omega arith
  count-update_where_keep p q f (x ∷ xs) h = ground (arith, h x, count-update_where_keep p q f xs h)

  -- An update of the one row of a key, which does not fit, loses no fitting row.
  pub count-update_where_unfit :
      (p q r : A → Bool) (f : A → A) (xs : List A) (a : A)
      → count q xs ≤ 1
      → find r xs ≡ some a
      → q a ≡ true
      → p a ≡ false
      → count p xs ≤ count p (update_where q f xs)
  count-update_where_unfit p q r f xs a once e fits unfit =
      omega (arith, count-update_where_other p q f xs, count_split q p xs, none_fits)
    where
      none_fits : count (λ x. q x && p x) xs ≡ 0
      none_fits =
          count_congr (λ x. q x && p x) (λ x. p x && q x) xs (λ x. ground arith)
          ∙ count_key p q r xs a once e fits
          ∙ rw unfit

  -- The rows that an update leaves alone, and those that it makes fit.
  pub count-update_where_parts :
      (p q : A → Bool) (f : A → A) (xs : List A)
      → count p (update_where q f xs)
        ≡ count (λ a. not (q a) && p a) xs + count (λ a. q a && p (f a)) xs
  unfolding count update_where
  count-update_where_parts p q f [] = refl
  count-update_where_parts p q f (x ∷ xs) = ground (arith, count-update_where_parts p q f xs)
