-- ===== src/Composer/Zipper/Offsets.antt =====
-- What the calls on the UTF-8 text give at the cursor.
use sshoosh.Base.{
  ℕ, ◌+◌, ◌-◌, ◌≤◌, ◌≡◌, refl, ap, ◌∙◌, false, Option, none, some, [], ◌∷◌, ◌++◌, ◌==◌, ltb, arith,
}
use sshoosh.Text.{Text}
use sshoosh.Composer.Bytes.{
  len_utf8, byte_len, with_first, split_at, char_indices, last_or, second_or,
}
use sshoosh.Composer.State.{drain}
use sshoosh.Composer.Zipper.{rev_append}

pub len_utf8_pos : (c : ℕ) → 1 ≤ len_utf8 c
unfolding len_utf8
len_utf8_pos c = ground arith

split_at-cons :
    (c : ℕ) (cs : Text) (n : ℕ) → split_at (n + len_utf8 c) (c ∷ cs) ≡ with_first c (split_at n cs)
unfolding split_at
split_at-cons c cs n = rw (split_at, not_zero, not_less, back) refl
  where
    not_zero : (n + len_utf8 c == 0) ≡ false
    not_zero = ground (arith, len_utf8_pos c)

    not_less : ltb (n + len_utf8 c) (len_utf8 c) ≡ false
    not_less = ground arith

    back : n + len_utf8 c - len_utf8 c ≡ n
    back = omega arith

abbrev after : Text → Option (Text × Text) → Option (Text × Text)
after left none = none
after left (some (a, b)) = some (rev_append left a, b)

after-with_first :
    (c : ℕ) (left : Text) (o : Option (Text × Text))
    → after left (with_first c o) ≡ after (c ∷ left) o
unfolding rev_append
after-with_first c left none = refl
after-with_first c left (some (a, b)) = refl

after-nil : (o : Option (Text × Text)) → o ≡ after [] o
unfolding rev_append
after-nil none = refl
after-nil (some (a, b)) = refl

split_at-zero : (cs : Text) → split_at 0 cs ≡ some ([], cs)
unfolding split_at
split_at-zero [] = refl
split_at-zero (c ∷ cs) = refl

split_at-rev_append :
    (left right : Text) (n : ℕ)
    → split_at (n + byte_len left) (rev_append left right) ≡ after left (split_at n right)
unfolding rev_append byte_len
split_at-rev_append [] right n =
    ap (λ m. split_at m right) (omega arith) ∙ after-nil (split_at n right)
split_at-rev_append (c ∷ left) right n =
    ap (λ m. split_at m (rev_append left (c ∷ right))) (omega arith)
    ∙ split_at-rev_append left (c ∷ right) (n + len_utf8 c)
    ∙ rw (split_at-cons c right n) (after-with_first c left (split_at n right))

pub split_at-cursor :
    (left right : Text)
    → split_at (byte_len left) (rev_append left right) ≡ some (rev_append left [], right)
split_at-cursor left right =
    ap (λ m. split_at m (rev_append left right)) (omega arith)
    ∙ split_at-rev_append left right 0
    ∙ ap (after left) (split_at-zero right)

-- The offset of the last character left of the cursor.
pub last-char_indices :
    (default offset : ℕ) (left : Text) (c : ℕ) (right : Text)
    → last_or default (char_indices offset (rev_append left (c ∷ right)))
      ≡ last_or default (char_indices (offset + byte_len left) (c ∷ right))
unfolding char_indices last_or rev_append byte_len
last-char_indices default offset [] c right =
    ap (λ m. last_or m (char_indices (m + len_utf8 c) right)) (omega arith)
last-char_indices default offset (d ∷ left) c right =
    last-char_indices default offset left d (c ∷ right)
    ∙ ap (λ m. last_or m (char_indices (m + len_utf8 c) right)) (omega arith)

-- The offset after the first character right of the cursor.
pub second-char_indices :
    (start c : ℕ) (right : Text)
    → second_or (start + byte_len (c ∷ right)) start (char_indices 0 (c ∷ right))
      ≡ start + len_utf8 c
unfolding char_indices second_or byte_len
second-char_indices start c [] = omega arith
second-char_indices start c (d ∷ right) = omega arith

pub byte_len-rev_append :
    (left right : Text) → byte_len (rev_append left right) ≡ byte_len left + byte_len right
unfolding byte_len rev_append
byte_len-rev_append [] right = omega arith
byte_len-rev_append (c ∷ left) right = omega (arith, byte_len-rev_append left (c ∷ right))

pub append-rev_append :
    (left middle right : Text) → rev_append left middle ++ right ≡ rev_append left (middle ++ right)
unfolding rev_append
append-rev_append [] middle right = refl
append-rev_append (c ∷ left) middle right = append-rev_append left (c ∷ middle) right

pub split_at-prefix : (cs right : Text) → split_at (byte_len cs) (cs ++ right) ≡ some (cs, right)
unfolding byte_len
split_at-prefix [] right = split_at-zero right
split_at-prefix (c ∷ cs) right =
    split_at-cons c (cs ++ right) (byte_len cs) ∙ rw (split_at-prefix cs right)

-- What stands between the offsets is taken out.
pub drain-middle :
    (left middle right : Text) (end : ℕ)
    → end ≡ byte_len left + byte_len middle
    → drain (byte_len left) end (rev_append left (middle ++ right)) ≡ some (rev_append left right)
unfolding drain
drain-middle left middle right end e =
    rw (not_less, split_at-cursor left (middle ++ right), back, split_at-prefix middle right)
      (ap some (append-rev_append left [] right))
  where
    not_less : ltb end (byte_len left) ≡ false
    not_less = ground arith

    back : end - byte_len left ≡ byte_len middle
    back = omega arith
