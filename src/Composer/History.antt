-- ===== src/Composer/History.antt =====
-- Walking through the history of commands.
use mathlib.Core.Path.{subst}
use sshoosh.Base.{
  ℕ, zero, suc, ◌+◌, ◌-◌, ◌<◌, ◌≡◌, refl, ap, ◌∙◌, inl, inr, true, false, Bool, Option, none, some,
  List, [], ◌∷◌, ◌==◌, ltb, arith, Bool-cases,
}
use sshoosh.Text.{Text}
use sshoosh.Composer.Bytes.{byte_len}
use sshoosh.Composer.State.{
  ComposerState, ◌>>=◌, history_len, history_line, load_history, previous_history, next_from,
  next_history,
}

history_line-there :
    (n : ℕ) (lines : List Text)
    → n < history_len lines
    → (line : Text) × (history_line n lines ≡ some line)
unfolding history_len history_line
history_line-there n [] h = absurd (omega arith)
history_line-there n (line ∷ lines) h = elim (Bool-cases (n == 0)) [
  | inl e ↦ (line, rw e refl)
  | inr e ↦ let (found, f) = history_line-there (n - 1) lines (ground arith) in (found, rw e f)
]

-- The composer shows the line `p` of the history, and keeps what was typed before.
record IsRecall {Menu : Type 0} (lines : List Text) (draft : Text) (p : ℕ) (c : ComposerState Menu)
    : Type 0 where
  pub history : c.history ≡ lines
  pub position : c.history_position ≡ some p
  pub draft_kept : c.history_draft ≡ some draft
  pub bound : p < history_len lines

-- `n` calls of a method.
abbrev pub times :
    {Menu : Type 0}
    → ℕ
    → (ComposerState Menu → Option (Bool × ComposerState Menu))
    → ComposerState Menu
    → Option (ComposerState Menu)
times zero call c = some c
times (suc n) call c = call c >>= λ step. times n call step.1

module _ {Menu : Type 0} (default : Menu) (c : ComposerState Menu) where
  -- The branches of the two methods.
  abbrev step_to : ℕ → ComposerState Menu → Option (Bool × ComposerState Menu)
  step_to p kept = load_history default p kept >>= λ loaded. some (true, loaded)

  previous_first :
      (history_len c.history == 0) ≡ false
      → c.history_position ≡ none
      → previous_history default c
        ≡ step_to (history_len c.history - 1) (record c { history_draft = some c.buffer })
  unfolding previous_history
  previous_first e n = simp (e, n) refl

  previous_next :
      (p : ℕ)
      → (history_len c.history == 0) ≡ false
      → c.history_position ≡ some p
      → previous_history default c ≡ step_to (p - 1) c
  unfolding previous_history
  previous_next p e n = simp (e, n) refl

  next_next :
      (p : ℕ)
      → ltb (p + 1) (history_len c.history) ≡ true
      → c.history_position ≡ some p
      → next_history default c ≡ step_to (p + 1) c
  unfolding next_history next_from
  next_next p e n = ap (λ o. next_from default o c) n ∙ simp e refl

module _ {Menu : Type 0} (default : Menu) (lines : List Text) (draft : Text) where
  loaded :
      (p : ℕ) (c : ComposerState Menu)
      → c.history ≡ lines
      → c.history_draft ≡ some draft
      → p < history_len lines
      → (c' : ComposerState Menu) × (load_history default p c ≡ some c') × IsRecall lines draft p c'
  unfolding load_history
  loaded p c h d bound =
      let (line, e) = history_line-there p lines bound in
      (
        record c {
          history_position = some p;
          buffer = line;
          cursor = byte_len line;
          autocomplete = default;
        },
        rw (h, e) refl,
        record { history = h; position = refl; draft_kept = d; bound = bound },
      )

  -- The first call keeps the text that stands in the buffer.
  first_up :
      (p : ℕ) (c : ComposerState Menu)
      → c.history ≡ lines
      → c.history_position ≡ none
      → c.buffer ≡ draft
      → p + 1 ≡ history_len lines
      → (c' : ComposerState Menu) × (previous_history default c ≡ some (true, c'))
        × IsRecall lines draft p c'
  unfolding previous_history
  first_up p c h n b e =
      let (c', f, r) =
        loaded p (record c { history_draft = some c.buffer }) h (ap some b) (omega (arith, e)) in
      (
        c',
        previous_first default c not_empty n
            ∙ ap (λ q. step_to default c q (record c { history_draft = some c.buffer })) last_line
            ∙ ap (λ o. o >>= λ l. some (true, l)) f,
        r,
      )
    where
      not_empty : (history_len c.history == 0) ≡ false
      not_empty = rw h (ground (arith, e))

      last_line : history_len c.history - 1 ≡ p
      last_line = rw h (omega (arith, e))

  up :
      (p : ℕ) (c : ComposerState Menu)
      → IsRecall lines draft (p + 1) c
      → (c' : ComposerState Menu) × (previous_history default c ≡ some (true, c'))
        × IsRecall lines draft p c'
  unfolding previous_history
  up p c r =
      let (c', f, r') = loaded p c r.history r.draft_kept (omega (arith, r.bound)) in
      (
        c',
        previous_next default c (p + 1) not_empty r.position
            ∙ ap (λ q. step_to default c q c) back
            ∙ ap (λ o. o >>= λ l. some (true, l)) f,
        r',
      )
    where
      not_empty : (history_len c.history == 0) ≡ false
      not_empty = rw r.history (ground (arith, r.bound))

      back : p + 1 - 1 ≡ p
      back = omega arith

  down :
      (p : ℕ) (c : ComposerState Menu)
      → p + 1 < history_len lines
      → IsRecall lines draft p c
      → (c' : ComposerState Menu) × (next_history default c ≡ some (true, c'))
        × IsRecall lines draft (p + 1) c'
  unfolding next_history
  down p c inside r =
      let (c', f, r') = loaded (p + 1) c r.history r.draft_kept inside in
      (c', next_next default c p there r.position ∙ ap (λ o. o >>= λ l. some (true, l)) f, r')
    where
      there : ltb (p + 1) (history_len c.history) ≡ true
      there = rw r.history (ground (arith, inside))

  -- Past the last line the text that was kept comes back.
  last_down :
      (p : ℕ) (c : ComposerState Menu)
      → p + 1 ≡ history_len lines
      → IsRecall lines draft p c
      → (c' : ComposerState Menu) × (next_history default c ≡ some (true, c'))
        × (c'.buffer ≡ draft)
        × (c'.history ≡ lines)
        × (c'.history_position ≡ none)
  unfolding next_history next_from
  last_down p c e r = (
    record c {
      buffer = draft;
      cursor = byte_len draft;
      history_draft = none;
      history_position = none;
    },
    ap (λ o. next_from default o c) r.position ∙ simp (past, r.draft_kept) refl,
    refl,
    r.history,
    refl,
  )
    where
      past : ltb (p + 1) (history_len c.history) ≡ false
      past = rw r.history (ground (arith, e))

  ups :
      (n p : ℕ) (c : ComposerState Menu)
      → IsRecall lines draft (p + n) c
      → (c' : ComposerState Menu) × (times n (previous_history default) c ≡ some c')
        × IsRecall lines draft p c'
  ups zero p c r = (c, refl, subst (λ q. IsRecall lines draft q c) (omega arith) r)
  ups (suc n) p c r =
      let (c', e, r') = up (p + n) c (subst (λ q. IsRecall lines draft q c) (omega arith) r) in
      let (c'', f, r'') = ups n p c' r' in (c'', rw e f, r'')

  back_down :
      (n p : ℕ) (c : ComposerState Menu)
      → p + n + 1 ≡ history_len lines
      → IsRecall lines draft p c
      → (c' : ComposerState Menu) × (times (suc n) (next_history default) c ≡ some c')
        × (c'.buffer ≡ draft)
        × (c'.history ≡ lines)
        × (c'.history_position ≡ none)
  back_down zero p c e r =
      let (c', f, b, h, n) = last_down p c (omega (arith, e)) r in (c', rw f refl, b, h, n)
  back_down (suc n) p c e r =
      let (c', f, r') = down p c (omega (arith, e)) r in
      let (c'', g, b, h, n) = back_down n (p + 1) c' (omega (arith, e)) r' in (c'', rw f g, b, h, n)

-- As many steps down as there were up, and no more up than the history has lines, give back what
-- was typed; no step panics.
pub previous_history-next_history :
    {Menu : Type 0} (default : Menu) (n : ℕ) (c : ComposerState Menu)
    → c.history_position ≡ none
    → n < history_len c.history
    → (top last : ComposerState Menu) × (times (suc n) (previous_history default) c ≡ some top)
      × (times (suc n) (next_history default) top ≡ some last)
      × (last.buffer ≡ c.buffer)
      × (last.history ≡ c.history)
      × (last.history_position ≡ none)
previous_history-next_history default n c fresh inside =
    let p = history_len c.history - 1 - n in
    let (first, e, r) =
      first_up default c.history c.buffer (p + n) c refl fresh refl (omega (arith, inside)) in
    let (top, f, r') = ups default c.history c.buffer n p first r in
    let (last, g, b, h, n) =
      back_down default c.history c.buffer n p top (omega (arith, inside)) r' in
    (top, last, rw e f, g, b, h, n)
