-- ===== src/Composer/State.antt =====
-- `ComposerState` of src/app/state.rs, one function for each method. The menu of completions is
-- opaque here: the composer only puts back its default.
use sshoosh.Base.{
  ℕ, zero, suc, ◌+◌, ◌-◌, Bool, true, false, ◌&&◌, not, Option, none, some, List, [], ◌∷◌, ◌++◌,
  ◌==◌, ltb, leb, if◌then◌else◌,
}
use sshoosh.Text.{Text, is_empty, trim}
use sshoosh.Composer.Bytes.{
  len_utf8, byte_len, as_bytes, get_byte, split_at, char_indices, last_or, second_or,
  is_ascii_whitespace,
}

-- `ComposerInlinePrompt`
pub record InlinePrompt : Type 0 where
  pub prefix_len : ℕ
  pub placeholder : Text

pub record ComposerState (Menu : Type 0) : Type 0 where
  pub buffer : Text
  pub cursor : ℕ
  pub history : List Text
  pub history_position : Option ℕ
  pub history_draft : Option Text
  pub autocomplete : Menu
  pub inline_prompt : Option InlinePrompt

infixl 5 ◌>>=◌
-- A panic ends the call.
abbrev pub ◌>>=◌ {ℓ κ} : {A : Type ℓ} {B : Type κ} → Option A → (A → Option B) → Option B
none >>= next = none
some value >>= next = next value

-- `history.len()` and `history[n]`
unfoldable pub history_len : List Text → ℕ
history_len [] = 0
history_len (_ ∷ lines) = history_len lines + 1

unfoldable pub history_line : ℕ → List Text → Option Text
history_line n [] = none
history_line n (line ∷ lines) =
    let rest = history_line (n - 1) lines in if n == 0 then some line else rest

-- `String::drain(start..end)`
unfoldable pub drain : ℕ → ℕ → Text → Option Text
drain start end buffer = if ltb end start then none else do
  (before, rest) ← split_at start buffer
  (_, after) ← split_at (end - start) rest
  some (before ++ after)

-- `String::truncate`: past the end it does nothing, and it panics inside a character.
unfoldable pub truncate : ℕ → Text → Option Text
unfolding split_at byte_len
truncate new_len buffer =
    if ltb (byte_len buffer) new_len
    then some buffer
    else do (before, _) ← split_at new_len buffer; some before

-- `str::starts_with('/')`
unfoldable pub starts_with_slash : Text → Bool
starts_with_slash [] = false
starts_with_slash (c ∷ _) = c == 47

-- `Option::unwrap_or_default`
abbrev pub or_empty : Option Text → Text
or_empty none = []
or_empty (some line) = line

module _ {Menu : Type 0} (default : Menu) where
  unfoldable pub start : Text → ComposerState Menu → ComposerState Menu
  unfolding byte_len
  start value c = record c {
    buffer = value;
    cursor = byte_len value;
    history_position = none;
    history_draft = none;
    autocomplete = default;
    inline_prompt = none;
  }

  unfoldable pub start_prompt : Text → Text → ComposerState Menu → ComposerState Menu
  unfolding start
  start_prompt label placeholder c =
      let started = start label c in
      if is_empty placeholder then started else record started {
        inline_prompt =
            some (record { prefix_len = byte_len started.buffer; placeholder = placeholder });
      }

  unfoldable pub reset_input : ComposerState Menu → ComposerState Menu
  unfolding start
  reset_input c = start [] c

  unfoldable pub load_history : ℕ → ComposerState Menu → Option (ComposerState Menu)
  unfolding history_line byte_len
  load_history position c = do
    line ← history_line position c.history
    some (record c {
      history_position = some position;
      buffer = line;
      cursor = byte_len line;
      autocomplete = default;
    })

  -- With the answer of the method.
  unfoldable pub previous_history : ComposerState Menu → Option (Bool × ComposerState Menu)
  unfolding history_len
  previous_history c =
      if history_len c.history == 0 then some (false, c) else elim c.history_position [
        | some position ↦ load_history (position - 1) c >>= λ loaded. some (true, loaded)
        | none ↦
            load_history (history_len c.history - 1) (record c { history_draft = some c.buffer })
            >>= λ loaded. some (true, loaded)
      ]

  -- The match of `next_history` on the position.
  unfoldable pub next_from : Option ℕ → ComposerState Menu → Option (Bool × ComposerState Menu)
  unfolding history_len byte_len
  next_from none c = some (false, c)
  next_from (some position) c =
      if ltb (position + 1) (history_len c.history)
      then (load_history (position + 1) c >>= λ loaded. some (true, loaded))
      else some (
        true,
        record c {
          buffer = or_empty c.history_draft;
          cursor = byte_len (or_empty c.history_draft);
          history_draft = none;
          history_position = none;
        },
      )

  unfoldable pub next_history : ComposerState Menu → Option (Bool × ComposerState Menu)
  unfolding next_from
  next_history c = next_from c.history_position c

-- `test` or `!test`
abbrev pub same : Bool → Bool → Bool
same true b = b
same false b = not b

module _ {Menu : Type 0} where
  unfoldable pub cancel_history_navigation : ComposerState Menu → ComposerState Menu
  cancel_history_navigation c = record c { history_position = none; history_draft = none }

  unfoldable pub insert : ℕ → ComposerState Menu → Option (ComposerState Menu)
  unfolding cancel_history_navigation split_at len_utf8
  insert ch c = do
    let quiet = cancel_history_navigation c
    (before, after) ← split_at quiet.cursor quiet.buffer
    some (record quiet { buffer = before ++ ch ∷ after; cursor = quiet.cursor + len_utf8 ch })

  unfoldable pub insert_str : Text → ComposerState Menu → Option (ComposerState Menu)
  unfolding cancel_history_navigation split_at byte_len
  insert_str text c = do
    let quiet = cancel_history_navigation c
    (before, after) ← split_at quiet.cursor quiet.buffer
    some
        (record quiet { buffer = before ++ (text ++ after); cursor = quiet.cursor + byte_len text })

  unfoldable pub replace_range : ℕ → ℕ → Text → ComposerState Menu → Option (ComposerState Menu)
  unfolding cancel_history_navigation split_at byte_len
  replace_range first end text c =
      let quiet = cancel_history_navigation c in
      if ltb end first then none else do
        (before, rest) ← split_at first quiet.buffer
        (_, after) ← split_at (end - first) rest
        some (record quiet { buffer = before ++ (text ++ after); cursor = first + byte_len text })

  unfoldable pub backspace : ComposerState Menu → Option (ComposerState Menu)
  unfolding cancel_history_navigation split_at char_indices last_or
  backspace c = if c.cursor == 0 then some c else do
    let quiet = cancel_history_navigation c
    (before, _) ← split_at quiet.cursor quiet.buffer
    let prev = last_or 0 (char_indices 0 before)
    drained ← drain prev quiet.cursor quiet.buffer
    some (record quiet { buffer = drained; cursor = prev })

  unfoldable pub delete : ComposerState Menu → Option (ComposerState Menu)
  unfolding cancel_history_navigation split_at char_indices second_or byte_len
  delete c = if leb (byte_len c.buffer) c.cursor then some c else do
    let quiet = cancel_history_navigation c
    (_, after) ← split_at quiet.cursor quiet.buffer
    let next = second_or (byte_len quiet.buffer) quiet.cursor (char_indices 0 after)
    drained ← drain quiet.cursor next quiet.buffer
    some (record quiet { buffer = drained })

  unfoldable pub move_left : ComposerState Menu → Option (ComposerState Menu)
  unfolding split_at char_indices last_or
  move_left c = if c.cursor == 0 then some c else do
    (before, _) ← split_at c.cursor c.buffer
    some (record c { cursor = last_or 0 (char_indices 0 before) })

  unfoldable pub move_right : ComposerState Menu → Option (ComposerState Menu)
  unfolding split_at char_indices second_or byte_len
  move_right c = if leb (byte_len c.buffer) c.cursor then some c else do
    (_, after) ← split_at c.cursor c.buffer
    some (record c { cursor = second_or (byte_len c.buffer) c.cursor (char_indices 0 after) })

  -- `cursor > 0 && buffer.as_bytes()[cursor - 1].is_ascii_whitespace()`, or with `!`
  unfoldable pub space_before : Bool → ComposerState Menu → Option Bool
  unfolding as_bytes get_byte is_ascii_whitespace
  space_before wanted c =
      if c.cursor == 0
      then some false
      else get_byte (c.cursor - 1) (as_bytes c.buffer) >>= λ b.
          some (same wanted (is_ascii_whitespace b))

  unfoldable pub space_after : Bool → ComposerState Menu → Option Bool
  unfolding as_bytes get_byte is_ascii_whitespace byte_len
  space_after wanted c =
      if ltb c.cursor (byte_len c.buffer)
      then (get_byte c.cursor (as_bytes c.buffer) >>= λ b.
          some (same wanted (is_ascii_whitespace b)))
      else some false

  -- A `while` loop on fuel; out of fuel it gives nothing.
  unfoldable pub repeat :
      ℕ
      → (ComposerState Menu → Option Bool)
      → (ComposerState Menu → Option (ComposerState Menu))
      → ComposerState Menu
      → Option (ComposerState Menu)
  repeat zero test move c = none
  repeat (suc fuel) test move c =
      test c >>= λ again. elim again [ false ↦ some c | true ↦ move c >>= repeat fuel test move ]

  -- Every round moves the cursor by a byte at least.
  unfoldable pub move_word_left : ComposerState Menu → Option (ComposerState Menu)
  unfolding repeat space_before move_left
  move_word_left c = do
    skipped ← repeat (suc c.cursor) (space_before true) move_left c
    repeat (suc skipped.cursor) (space_before false) move_left skipped

  unfoldable pub move_word_right : ComposerState Menu → Option (ComposerState Menu)
  unfolding repeat space_after move_right byte_len
  move_word_right c = do
    skipped ← repeat (suc (byte_len c.buffer - c.cursor)) (space_after false) move_right c
    repeat (suc (byte_len skipped.buffer - skipped.cursor)) (space_after true) move_right skipped

  unfoldable pub clear_before_cursor : ComposerState Menu → Option (ComposerState Menu)
  unfolding cancel_history_navigation
  clear_before_cursor c = do
    let quiet = cancel_history_navigation c
    drained ← drain 0 quiet.cursor quiet.buffer
    some (record quiet { buffer = drained; cursor = 0 })

  unfoldable pub clear_after_cursor : ComposerState Menu → Option (ComposerState Menu)
  unfolding cancel_history_navigation truncate
  clear_after_cursor c = do
    let quiet = cancel_history_navigation c
    kept ← truncate quiet.cursor quiet.buffer
    some (record quiet { buffer = kept })

  unfoldable pub delete_word_before_cursor : ComposerState Menu → Option (ComposerState Menu)
  unfolding cancel_history_navigation move_word_left
  delete_word_before_cursor c = do
    moved ← move_word_left c
    let quiet = cancel_history_navigation moved
    drained ← drain quiet.cursor c.cursor quiet.buffer
    some (record quiet { buffer = drained })

  unfoldable pub push_history : Text → ComposerState Menu → ComposerState Menu
  unfolding starts_with_slash
  push_history line c = record c {
    history =
        if starts_with_slash line && not (is_empty (trim line))
        then c.history ++ line ∷ []
        else c.history;
    history_position = none;
    history_draft = none;
  }
