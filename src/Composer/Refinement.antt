-- ===== src/Composer/Refinement.antt =====
-- The composer as a whole against its zipper.
use sshoosh.Base.{ℕ, [], ◌∷◌}
use sshoosh.Text.{Text}
use sshoosh.Composer.State.{
  ComposerState, insert, insert_str, backspace, delete, move_left, move_right, clear_before_cursor,
  clear_after_cursor, move_word_left, move_word_right, delete_word_before_cursor,
}
use sshoosh.Composer.Zipper.{IsSeen, rev_append, to_left, to_right, tail}
use sshoosh.Composer.Zipper.Edits.{
  Shows, insert-Shows, insert_str-Shows, backspace-Shows, delete-Shows, move_left-Shows,
  move_right-Shows, clear_before_cursor-Shows, clear_after_cursor-Shows,
}
use sshoosh.Composer.Zipper.Words.{
  word_left, word_right, move_word_left-Shows, move_word_right-Shows,
  delete_word_before_cursor-Shows,
}

module _ {Menu : Type 0} (left right : Text) (c : ComposerState Menu)
    (seen : IsSeen (record { left = left; right = right }) c) where
  -- No method that edits or moves by one character, or clears a side, panics, and each does to the
  -- text on the two sides of the cursor what its name says.
  pub edits-Shows :
      (ch : ℕ) (text : Text)
      → Shows (insert ch c) (record { left = ch ∷ left; right = right })
        × Shows (insert_str text c) (record { left = rev_append text left; right = right })
        × Shows (backspace c) (record { left = tail left; right = right })
        × Shows (delete c) (record { left = left; right = tail right })
        × Shows (move_left c) (to_left left right)
        × Shows (move_right c) (to_right left right)
        × Shows (clear_before_cursor c) (record { left = []; right = right })
        × Shows (clear_after_cursor c) (record { left = left; right = [] })
  edits-Shows ch text = (
    insert-Shows left right c ch seen,
    insert_str-Shows left right text c seen,
    backspace-Shows left right c seen,
    delete-Shows left right c seen,
    move_left-Shows left right c seen,
    move_right-Shows left right c seen,
    clear_before_cursor-Shows left right c seen,
    clear_after_cursor-Shows left right c seen,
  )

  -- The loops of the methods that move or delete by a word end without a panic: to the left they
  -- pass the spaces and then the word, to the right the word and then the spaces, and the word that
  -- is deleted is what the move to the left passes.
  pub words-Shows :
      Shows (move_word_left c) (word_left left right)
      × Shows (move_word_right c) (word_right left right)
      × Shows
          (delete_word_before_cursor c)
          (record { left = (word_left left right).left; right = right })
  words-Shows = (
    move_word_left-Shows left right c seen,
    move_word_right-Shows left right c seen,
    delete_word_before_cursor-Shows left right c seen,
  )
