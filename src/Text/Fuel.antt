-- ===== src/Text/Fuel.antt =====
-- The scanners of labels and mentions run on fuel; the length of the text is enough.
use sshoosh.Base.{
  ℕ, zero, suc, ◌≤◌, ◌≡◌, refl, Bool, ◌||◌, not, Option, none, some, List, [], ◌∷◌, inl, inr, arith,
  Bool-cases,
}
use sshoosh.Text.{Text, length}
use sshoosh.Text.Label.{
  is_dollar, is_label_char, is_label_boundary, take_while_label, parse_labels_from, parse_labels,
}
use sshoosh.Text.Mention.{
  is_at, is_mention_char, mention_starts, parse_mentions_from, parse_mentions,
}

-- The inner loop leaves no more than there was.
length-take_while_label :
    (p : ℕ → Bool) (last : ℕ) (t : Text) → length (take_while_label p last t).2 ≤ length t
unfolding take_while_label
length-take_while_label p last [] = omega arith
length-take_while_label p last (c ∷ t) = elim (Bool-cases (p c)) [
  | inl e ↦ rw e (omega (arith, length-take_while_label p c t))
  | inr e ↦ rw e (omega arith)
]

-- Two amounts of fuel that both reach the end of the text give the same labels.
pub parse_labels_from_fuel :
    (m n : ℕ) (prev : Option ℕ) (body : Text) (tags : List Text)
    → length body ≤ m
    → length body ≤ n
    → parse_labels_from m prev body tags ≡ parse_labels_from n prev body tags
unfolding parse_labels_from
parse_labels_from_fuel zero zero prev [] tags h k = refl
parse_labels_from_fuel zero (suc n) prev [] tags h k = refl
parse_labels_from_fuel (suc m) zero prev [] tags h k = refl
parse_labels_from_fuel (suc m) (suc n) prev [] tags h k = refl
parse_labels_from_fuel zero n prev (ch ∷ t) tags h k = absurd (omega arith)
parse_labels_from_fuel (suc m) zero prev (ch ∷ t) tags h k = absurd (omega arith)
parse_labels_from_fuel (suc m) (suc n) prev (ch ∷ t) tags h k =
    elim (Bool-cases (not (is_dollar ch) || not (is_label_boundary prev))) [
      | inl e ↦ rw e (parse_labels_from_fuel m n (some ch) t tags (omega arith) (omega arith))
      | inr e ↦ rw e (
          parse_labels_from_fuel m n _ (take_while_label is_label_char ch t).2 _
            (omega (arith, length-take_while_label is_label_char ch t))
            (omega (arith, length-take_while_label is_label_char ch t)))
    ]

-- The same of mentions.
pub parse_mentions_from_fuel :
    (unicode_lower : ℕ → Text) (m n : ℕ) (prev : Option ℕ) (body : Text) (mentions : List Text)
    → length body ≤ m
    → length body ≤ n
    → parse_mentions_from unicode_lower m prev body mentions
      ≡ parse_mentions_from unicode_lower n prev body mentions
unfolding parse_mentions_from
parse_mentions_from_fuel lower zero zero prev [] mentions h k = refl
parse_mentions_from_fuel lower zero (suc n) prev [] mentions h k = refl
parse_mentions_from_fuel lower (suc m) zero prev [] mentions h k = refl
parse_mentions_from_fuel lower (suc m) (suc n) prev [] mentions h k = refl
parse_mentions_from_fuel lower zero n prev (ch ∷ t) mentions h k = absurd (omega arith)
parse_mentions_from_fuel lower (suc m) zero prev (ch ∷ t) mentions h k = absurd (omega arith)
parse_mentions_from_fuel lower (suc m) (suc n) prev (ch ∷ t) mentions h k =
    elim (Bool-cases (is_at ch)) [
      | inr e ↦
          rw e (parse_mentions_from_fuel lower m n (some ch) t mentions (omega arith) (omega arith))
      | inl e ↦ elim (Bool-cases (mention_starts prev)) [
        | inr d ↦
            rw (e, d)
              (parse_mentions_from_fuel lower m n (some ch) t mentions (omega arith) (omega arith))
        | inl d ↦
            rw (e, d)
              (parse_mentions_from_fuel lower m n _ (take_while_label is_mention_char ch t).2 _
                (omega (arith, length-take_while_label is_mention_char ch t))
                (omega (arith, length-take_while_label is_mention_char ch t)))
      ]
    ]

-- More fuel than `parse_labels` and `parse_mentions` give changes nothing: their scans end with the
-- text.
pub parse_fuel :
    (unicode_lower : ℕ → Text) (fuel : ℕ) (body : Text)
    → length body ≤ fuel
    → (parse_labels_from fuel none body [] ≡ parse_labels body)
      × (parse_mentions_from unicode_lower fuel none body [] ≡ parse_mentions unicode_lower body)
unfolding parse_labels parse_mentions
parse_fuel lower fuel body h = (
  parse_labels_from_fuel fuel (length body) none body [] h (omega arith),
  parse_mentions_from_fuel lower fuel (length body) none body [] h (omega arith),
)
