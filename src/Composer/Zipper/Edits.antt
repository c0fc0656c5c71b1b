-- ===== src/Composer/Zipper/Edits.antt =====
-- The methods that insert, delete and move by one character do what they do to the zipper.
use sshoosh.Base.{
  ℕ, ◌+◌, ◌≡◌, refl, sym, ap, ◌∙◌, true, false, Option, none, ltb, false, some, [], ◌∷◌, ◌++◌, ◌==◌,
  leb, arith,
}
use sshoosh.Text.{Text}
use sshoosh.Composer.Bytes.{len_utf8, byte_len, char_indices, last_or, second_or}
use sshoosh.Composer.State.{
  truncate, ComposerState, cancel_history_navigation, drain, insert, insert_str, backspace, delete,
  move_left, move_right, clear_before_cursor, clear_after_cursor,
}
use sshoosh.Composer.Zipper.{Zipper, IsSeen, rev_append, to_left, to_right, tail}
use sshoosh.Composer.Zipper.Offsets.{
  len_utf8_pos, split_at-cursor, last-char_indices, second-char_indices, byte_len-rev_append,
  append-rev_append, drain-middle,
}

rev_append-rev_append :
    (middle left right : Text)
    → rev_append (rev_append middle left) right ≡ rev_append left (middle ++ right)
unfolding rev_append
rev_append-rev_append [] left right = refl
rev_append-rev_append (c ∷ middle) left right = rev_append-rev_append middle (c ∷ left) right

before_cursor :
    (ch : ℕ) (left : Text) → last_or 0 (char_indices 0 (rev_append (ch ∷ left) [])) ≡ byte_len left
unfolding rev_append
before_cursor ch left =
    last-char_indices 0 0 left ch [] ∙ unfold char_indices last_or in omega arith

drain-left :
    (ch : ℕ) (left right : Text)
    → drain (byte_len left) (byte_len (ch ∷ left)) (rev_append (ch ∷ left) right)
      ≡ some (rev_append left right)
unfolding byte_len rev_append
drain-left ch left right = drain-middle left (ch ∷ []) right _ (omega arith)

drain-right :
    (ch : ℕ) (left right : Text)
    → drain (byte_len left) (byte_len left + len_utf8 ch) (rev_append left (ch ∷ right))
      ≡ some (rev_append left right)
unfolding byte_len
drain-right ch left right = drain-middle left (ch ∷ []) right _ (omega arith)

after_cursor :
    (ch : ℕ) (left right : Text)
    → second_or
        (byte_len (rev_append left (ch ∷ right)))
        (byte_len left)
        (char_indices 0 (ch ∷ right))
      ≡ byte_len left + len_utf8 ch
after_cursor ch left right =
    ap (λ n. second_or n (byte_len left) (char_indices 0 (ch ∷ right)))
      (byte_len-rev_append left (ch ∷ right))
    ∙ second-char_indices (byte_len left) ch right

drain-all : (left right : Text) → drain 0 (byte_len left) (rev_append left right) ≡ some right
unfolding byte_len rev_append
drain-all left right =
    ap (λ buffer. drain 0 (byte_len left) buffer) (sym (append-rev_append left [] right))
    ∙ drain-middle [] (rev_append left []) right _ (omega (arith, byte_len-rev_append left []))

-- The call does not panic, and what it leaves is seen as the zipper.
abbrev pub Shows : {Menu : Type 0} → Option (ComposerState Menu) → Zipper → Type 0
Shows {Menu} result z = (c : ComposerState Menu) × (result ≡ some c) × IsSeen z c

module _ {Menu : Type 0} where
  -- A text typed at the cursor.
  pub insert-Shows :
      (left right : Text) (c : ComposerState Menu) (ch : ℕ)
      → IsSeen (record { left = left; right = right }) c
      → Shows (insert ch c) (record { left = ch ∷ left; right = right })
  unfolding insert cancel_history_navigation
  insert-Shows left right c ch seen = (
    record c {
      history_position = none;
      history_draft = none;
      buffer = rev_append left [] ++ ch ∷ right;
      cursor = byte_len left + len_utf8 ch;
    },
    rw (seen.cursor, seen.buffer, split_at-cursor left right) refl,
    record {
      buffer = append-rev_append left [] (ch ∷ right) ∙ typed;
      cursor = unfold byte_len in refl;
    },
  )
    where
      typed : rev_append left (ch ∷ right) ≡ rev_append (ch ∷ left) right
      typed = unfold rev_append in refl

  pub insert_str-Shows :
      (left right text : Text) (c : ComposerState Menu)
      → IsSeen (record { left = left; right = right }) c
      → Shows (insert_str text c) (record { left = rev_append text left; right = right })
  unfolding insert_str cancel_history_navigation
  insert_str-Shows left right text c seen = (
    record c {
      history_position = none;
      history_draft = none;
      buffer = rev_append left [] ++ (text ++ right);
      cursor = byte_len left + byte_len text;
    },
    rw (seen.cursor, seen.buffer, split_at-cursor left right) refl,
    record {
      buffer =
          append-rev_append left [] (text ++ right) ∙ sym (rev_append-rev_append text left right);
      cursor = omega (arith, byte_len-rev_append text left);
    },
  )

  pub not_at_start :
      (ch : ℕ) (left right : Text) (c : ComposerState Menu)
      → IsSeen (record { left = ch ∷ left; right = right }) c
      → (c.cursor == 0) ≡ false
  not_at_start ch left right c seen =
      rw seen.cursor (unfold byte_len in ground (arith, len_utf8_pos ch))

  pub backspace-Shows :
      (left right : Text) (c : ComposerState Menu)
      → IsSeen (record { left = left; right = right }) c
      → Shows (backspace c) (record { left = tail left; right = right })
  unfolding backspace cancel_history_navigation tail
  backspace-Shows [] right c seen = (c, at_start, seen)
    where
      at_start : backspace c ≡ some c
      at_start = unfold byte_len in rw seen.cursor refl
  backspace-Shows (ch ∷ left) right c seen = (
    record c {
      history_position = none;
      history_draft = none;
      buffer = rev_append left right;
      cursor = byte_len left;
    },
    rw
        (
          not_at_start ch left right c seen,
          seen.cursor,
          seen.buffer,
          split_at-cursor (ch ∷ left) right,
          before_cursor ch left,
          drain-left ch left right,
        )
        refl,
    record { buffer = refl; cursor = refl },
  )

  pub move_left-Shows :
      (left right : Text) (c : ComposerState Menu)
      → IsSeen (record { left = left; right = right }) c
      → Shows (move_left c) (to_left left right)
  unfolding move_left to_left
  move_left-Shows [] right c seen = (c, at_start, seen)
    where
      at_start : move_left c ≡ some c
      at_start = unfold byte_len in rw seen.cursor refl
  move_left-Shows (ch ∷ left) right c seen = (
    record c { cursor = byte_len left },
    rw
        (
          not_at_start ch left right c seen,
          seen.cursor,
          seen.buffer,
          split_at-cursor (ch ∷ left) right,
          before_cursor ch left,
        )
        refl,
    record { buffer = seen.buffer ∙ unfold rev_append in refl; cursor = refl },
  )

  pub at_end :
      (left : Text) (c : ComposerState Menu)
      → IsSeen (record { left = left; right = [] }) c
      → leb (byte_len c.buffer) c.cursor ≡ true
  at_end left c seen =
      rw (seen.cursor, seen.buffer, byte_len-rev_append left []) (unfold byte_len in ground arith)

  pub not_at_end :
      (ch : ℕ) (left right : Text) (c : ComposerState Menu)
      → IsSeen (record { left = left; right = ch ∷ right }) c
      → leb (byte_len c.buffer) c.cursor ≡ false
  not_at_end ch left right c seen =
      rw (seen.cursor, seen.buffer, byte_len-rev_append left (ch ∷ right))
        (unfold byte_len in ground (arith, len_utf8_pos ch))

  pub delete-Shows :
      (left right : Text) (c : ComposerState Menu)
      → IsSeen (record { left = left; right = right }) c
      → Shows (delete c) (record { left = left; right = tail right })
  unfolding delete cancel_history_navigation tail
  delete-Shows left [] c seen = (c, rw (at_end left c seen) refl, seen)
  delete-Shows left (ch ∷ right) c seen = (
    record c { history_position = none; history_draft = none; buffer = rev_append left right },
    rw
        (
          not_at_end ch left right c seen,
          seen.cursor,
          seen.buffer,
          split_at-cursor left (ch ∷ right),
          after_cursor ch left right,
          drain-right ch left right,
        )
        refl,
    record { buffer = refl; cursor = seen.cursor },
  )

  pub move_right-Shows :
      (left right : Text) (c : ComposerState Menu)
      → IsSeen (record { left = left; right = right }) c
      → Shows (move_right c) (to_right left right)
  unfolding move_right to_right
  move_right-Shows left [] c seen = (c, rw (at_end left c seen) refl, seen)
  move_right-Shows left (ch ∷ right) c seen = (
    record c { cursor = byte_len left + len_utf8 ch },
    rw
        (
          not_at_end ch left right c seen,
          seen.cursor,
          seen.buffer,
          split_at-cursor left (ch ∷ right),
          after_cursor ch left right,
        )
        refl,
    record { buffer = seen.buffer ∙ unfold rev_append in refl; cursor = unfold byte_len in refl },
  )

  pub clear_after_cursor-Shows :
      (left right : Text) (c : ComposerState Menu)
      → IsSeen (record { left = left; right = right }) c
      → Shows (clear_after_cursor c) (record { left = left; right = [] })
  unfolding clear_after_cursor cancel_history_navigation truncate
  clear_after_cursor-Shows left right c seen = (
    record c { history_position = none; history_draft = none; buffer = rev_append left [] },
    rw (seen.cursor, seen.buffer, inside, split_at-cursor left right) refl,
    record { buffer = refl; cursor = seen.cursor },
  )
    where
      inside : ltb (byte_len (rev_append left right)) (byte_len left) ≡ false
      inside = ground (arith, byte_len-rev_append left right)

  pub clear_before_cursor-Shows :
      (left right : Text) (c : ComposerState Menu)
      → IsSeen (record { left = left; right = right }) c
      → Shows (clear_before_cursor c) (record { left = []; right = right })
  unfolding clear_before_cursor cancel_history_navigation
  clear_before_cursor-Shows left right c seen = (
    record c { history_position = none; history_draft = none; buffer = right; cursor = 0 },
    rw (seen.cursor, seen.buffer, drain-all left right) refl,
    record { buffer = unfold rev_append in refl; cursor = unfold byte_len in refl },
  )
