-- ===== src/Sample/Composer.antt =====
-- A composer with the text "hé à" and the cursor before the space, and one with a history.
use sshoosh.Base.{suc, ◌<◌, ◌≡◌, refl, Bool, none, some, List, [], ◌∷◌, ◌++◌, arith}
use sshoosh.Text.{Text, codes}
use sshoosh.Composer.Bytes.{byte_len}
use sshoosh.Composer.State.{
  ComposerState, insert, insert_str, backspace, delete, move_left, move_right, clear_before_cursor,
  clear_after_cursor, move_word_left, move_word_right, delete_word_before_cursor, history_len,
  previous_history, next_history,
}
use sshoosh.Composer.Zipper.{IsSeen, rev_append, to_left, to_right, tail}
use sshoosh.Composer.Zipper.Edits.{Shows}
use sshoosh.Composer.Zipper.Words.{word_left, word_right}
use sshoosh.Composer.Refinement.{edits-Shows, words-Shows}
use sshoosh.Composer.History.{times, previous_history-next_history}
use sshoosh.Composer.Positions.{
  cursor_for_display_position, place_after, cursor_for_display_position-place_after,
}

abbrev left_text : Text
left_text = 233 ∷ 104 ∷ []

abbrev right_text : Text
right_text = 32 ∷ 224 ∷ []

abbrev lines : List Text
lines = codes "/join #a" ∷ codes "/help" ∷ []

abbrev typed : ComposerState Bool
typed = record {
  buffer = 104 ∷ 233 ∷ 32 ∷ 224 ∷ [];
  cursor = 3;
  history = lines;
  history_position = none;
  history_draft = none;
  autocomplete = Bool.false;
  inline_prompt = none;
}

typed-IsSeen : IsSeen (record { left = left_text; right = right_text }) typed
unfolding rev_append byte_len
typed-IsSeen = record { buffer = refl; cursor = refl }

typed-Shows :
    Shows (insert 8364 typed) (record { left = 8364 ∷ left_text; right = right_text })
    × Shows
        (insert_str (codes "ab") typed)
        (record { left = rev_append (codes "ab") left_text; right = right_text })
    × Shows (backspace typed) (record { left = tail left_text; right = right_text })
    × Shows (delete typed) (record { left = left_text; right = tail right_text })
    × Shows (move_left typed) (to_left left_text right_text)
    × Shows (move_right typed) (to_right left_text right_text)
    × Shows (clear_before_cursor typed) (record { left = []; right = right_text })
    × Shows (clear_after_cursor typed) (record { left = left_text; right = [] })
typed-Shows = edits-Shows left_text right_text typed typed-IsSeen 8364 (codes "ab")

words_example :
    Shows (move_word_left typed) (word_left left_text right_text)
    × Shows (move_word_right typed) (word_right left_text right_text)
    × Shows
        (delete_word_before_cursor typed)
        (record { left = (word_left left_text right_text).left; right = right_text })
words_example = words-Shows left_text right_text typed typed-IsSeen

recalled :
    (top last : ComposerState Bool) × (times (suc 1) (previous_history Bool.false) typed ≡ some top)
    × (times (suc 1) (next_history Bool.false) top ≡ some last)
    × (last.buffer ≡ typed.buffer)
    × (last.history ≡ typed.history)
    × (last.history_position ≡ none)
recalled = previous_history-next_history Bool.false 1 typed refl two_lines
  where
    two_lines : 1 < history_len typed.history
    two_lines = unfold history_len in omega arith

clicked :
    (let target = place_after 2 (codes "abc") 0 0 in
      cursor_for_display_position (codes "abc" ++ codes "de") 2 target.0 target.1)
    ≡ byte_len (codes "abc")
clicked = cursor_for_display_position-place_after 2 (codes "de") (codes "abc") (omega arith)
