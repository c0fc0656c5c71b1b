-- ===== src/Text/Tags.antt =====
-- What a label is, once it has been read.
use sshoosh.Base.{
  ℕ, zero, suc, ◌≡◌, refl, true, false, ◌||◌, not, Option, none, some, List, [], ◌∷◌, inl, inr,
  arith, Bool-cases, Option-cases, some_inj,
}
use mathlib.Core.Path.{subst}
use sshoosh.Base.Tables.{All}
use sshoosh.Base.Tables.Rows.{All-append}
use sshoosh.Text.{
  Text, is_empty, is_ascii_uppercase, is_ascii_alphabetic, is_ascii_alphanumeric,
  to_ascii_lowercase_char, to_ascii_lowercase, trim, trim_start_matches, all_chars, any_char,
  contains, length,
}
use sshoosh.Text.Label.{
  is_dollar, is_label_char, is_label_boundary, take_while_label, normalize_label, push_tag,
  parse_labels_from, parse_labels,
}

-- Letters, digits, `_` and `-`, no capital, and a letter somewhere.
pub record IsTag (tag : Text) : Type 0 where
  pub label_chars : all_chars is_label_char tag ≡ true
  pub no_capital : any_char is_ascii_uppercase tag ≡ false
  pub letter : any_char is_ascii_alphabetic tag ≡ true

is_label_char-lower :
    (c : ℕ) → is_label_char c ≡ true → is_label_char (to_ascii_lowercase_char c) ≡ true
unfolding is_label_char is_ascii_alphanumeric to_ascii_lowercase_char
is_label_char-lower c h = ground arith

is_ascii_uppercase-lower : (c : ℕ) → is_ascii_uppercase (to_ascii_lowercase_char c) ≡ false
unfolding to_ascii_lowercase_char
is_ascii_uppercase-lower c = ground arith

is_ascii_alphabetic-lower :
    (c : ℕ) → is_ascii_alphabetic c ≡ true → is_ascii_alphabetic (to_ascii_lowercase_char c) ≡ true
unfolding is_ascii_alphabetic to_ascii_lowercase_char
is_ascii_alphabetic-lower c h = ground arith

all_chars-lower :
    (t : Text)
    → all_chars is_label_char t ≡ true
    → all_chars is_label_char (to_ascii_lowercase t) ≡ true
unfolding all_chars to_ascii_lowercase
all_chars-lower [] h = refl
all_chars-lower (c ∷ t) h = ground (arith, is_label_char-lower c, all_chars-lower t)

no_capital-lower : (t : Text) → any_char is_ascii_uppercase (to_ascii_lowercase t) ≡ false
unfolding any_char to_ascii_lowercase
no_capital-lower [] = refl
no_capital-lower (c ∷ t) = ground (arith, is_ascii_uppercase-lower c, no_capital-lower t)

letter-lower :
    (t : Text)
    → any_char is_ascii_alphabetic t ≡ true
    → any_char is_ascii_alphabetic (to_ascii_lowercase t) ≡ true
unfolding any_char to_ascii_lowercase
letter-lower [] h = cc
letter-lower (c ∷ t) h = ground (arith, is_ascii_alphabetic-lower c, letter-lower t)

pub normalize_label-IsTag : (value tag : Text) → normalize_label value ≡ some tag → IsTag tag
unfolding normalize_label
normalize_label-IsTag value tag h =
    let t = trim_start_matches is_dollar (trim value) in
    elim (Bool-cases (is_empty t)) [
      | inl e ↦ absurd (some_none tag (rw e at h))
      | inr e ↦ elim (Bool-cases (all_chars is_label_char t)) [
        | inr d ↦ absurd (some_none tag (rw (e, d) at h))
        | inl d ↦ elim (Bool-cases (any_char is_ascii_alphabetic t)) [
          | inr c ↦ absurd (some_none tag (rw (e, d, c) at h))
          | inl c ↦ subst IsTag (some_inj _ tag (rw (e, d, c) at h)) (record {
            label_chars = all_chars-lower t d;
            no_capital = no_capital-lower t;
            letter = letter-lower t c;
          })
        ]
      ]
    ]
  where
    some_none : (x : Text) → none ≡ some x → ⊥
    some_none x e = cc

push_tag-IsTag :
    (value : Text) (tags : List Text)
    → All IsTag tags
    → All IsTag (push_tag (normalize_label value) tags)
unfolding push_tag
push_tag-IsTag value tags all = elim (Option-cases (normalize_label value)) [
  | inl e ↦ rw e all
  | inr (tag, e) ↦ elim (Bool-cases (contains tag tags)) [
    | inl d ↦ rw (e, d) all
    | inr d ↦ rw (e, d) (All-append IsTag tags tag all (normalize_label-IsTag value tag e))
  ]
]

parse_labels_from-IsTag :
    (fuel : ℕ) (prev : Option ℕ) (body : Text) (tags : List Text)
    → All IsTag tags
    → All IsTag (parse_labels_from fuel prev body tags)
unfolding parse_labels_from
parse_labels_from-IsTag zero prev body tags all = all
parse_labels_from-IsTag (suc fuel) prev [] tags all = all
parse_labels_from-IsTag (suc fuel) prev (ch ∷ t) tags all =
    elim (Bool-cases (not (is_dollar ch) || not (is_label_boundary prev))) [
      | inl e ↦ rw e (parse_labels_from-IsTag fuel (some ch) t tags all)
      | inr e ↦ rw e (
          parse_labels_from-IsTag fuel _ (take_while_label is_label_char ch t).2 _
            (push_tag-IsTag (take_while_label is_label_char ch t).0 tags all))
    ]

-- Every label read from a message has letters, digits, `_` and `-` only, no capital, and a letter.
pub parse_labels-IsTag : (body : Text) → All IsTag (parse_labels body)
unfolding parse_labels
parse_labels-IsTag body = parse_labels_from-IsTag (length body) none body [] tt
