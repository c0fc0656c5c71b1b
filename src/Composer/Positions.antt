-- ===== src/Composer/Positions.antt =====
-- Positions of src/app/util.rs: the index of a list that a key moves, and the byte offset of the
-- character at a place of the wrapped text.
use sshoosh.Base.{
  ℕ, ◌+◌, ◌-◌, ◌≤◌, ◌<◌, ◌≡◌, ◌∙◌, inl, inr, ◌&&◌, Option, none, some, [], ◌∷◌, ◌++◌, ◌==◌, ltb,
  leb, arith, Bool-cases, false, if◌then◌else◌,
}
use sshoosh.Base.Int.{ℤ, pos, negsuc}
use sshoosh.Text.{Text}
use sshoosh.Composer.Bytes.{len_utf8, byte_len}

-- `current as isize + delta`, no bound being near `isize::MAX`.
unfoldable pub add_ℤ : ℕ → ℤ → ℤ
add_ℤ n (pos m) = pos (n + m)
add_ℤ n (negsuc m) = if leb (m + 1) n then pos (n - (m + 1)) else negsuc (m - n)

-- `next.clamp(0, last) as usize`
unfoldable pub clamp : ℕ → ℤ → ℕ
clamp last (pos n) = if ltb last n then last else n
clamp last (negsuc _) = 0

unfoldable pub clamp_index : ℕ → ℤ → ℕ → ℕ
unfolding add_ℤ clamp
clamp_index current delta len = if len == 0 then 0 else clamp (len - 1) (add_ℤ current delta)

-- The last test of a round, and the column after it; `none` returns the offset.
abbrev pub place : ℕ → ℕ → ℕ → ℕ → Option (ℕ × ℕ)
place target_line target_col line col =
    if line == target_line && leb target_col col then none else some (line, col + 1)

-- One round of the loop of `cursor_for_display_position`: the line and the column after it.
unfoldable pub display_step : ℕ → ℕ → ℕ → ℕ → ℕ → ℕ → Option (ℕ × ℕ)
display_step width target_line target_col ch line col =
    if ch == 10
    then (if line == target_line then none else some (line + 1, 0))
    else if leb width col
    then (if line == target_line then none else place target_line target_col (line + 1) 0)
    else place target_line target_col line col

-- The loop over `char_indices`; `idx` is the offset of the character.
unfoldable pub display_scan : ℕ → ℕ → ℕ → ℕ → ℕ → ℕ → Text → ℕ
unfolding len_utf8 display_step
display_scan width target_line target_col line col idx [] = idx
display_scan width target_line target_col line col idx (ch ∷ rest) =
    elim (display_step width target_line target_col ch line col) [
      | none ↦ idx
      | some (line', col') ↦
          display_scan width target_line target_col line' col' (idx + len_utf8 ch) rest
    ]

unfoldable pub cursor_for_display_position : Text → ℕ → ℕ → ℕ → ℕ
unfolding display_scan
cursor_for_display_position buffer width target_line target_col =
    display_scan (if width == 0 then 1 else width) target_line target_col 0 0 0 buffer

-- The index that a key moves to is one of the list, unless the list is empty.
pub clamp_index-bound :
    (current : ℕ) (delta : ℤ) (len : ℕ) → 1 ≤ len → clamp_index current delta len < len
unfolding clamp_index add_ℤ clamp
clamp_index-bound current (pos m) len h = ground arith
clamp_index-bound current (negsuc m) len h = ground arith

-- The line and the column after a character, by lines of the width.
abbrev pub place_next : ℕ → ℕ → ℕ → ℕ → ℕ × ℕ
place_next width ch line col =
    if ch == 10 then (line + 1, 0) else if leb width col then (line + 1, 1) else (line, col + 1)

-- The place at which the text ends, laid out on lines of the width.
unfoldable pub place_after : ℕ → Text → ℕ → ℕ → ℕ × ℕ
place_after width [] line col = (line, col)
place_after width (ch ∷ text) line col =
    let next = place_next width ch line col in place_after width text next.0 next.1

-- A place that is not before another one.
record IsFurther (line col line' col' : ℕ) : Type 0 where
  pub lines : line ≤ line'
  pub cols : line' ≡ line → col ≤ col'

place_next-IsFurther :
    (width ch line col line' col' : ℕ)
    → IsFurther (place_next width ch line col).0 (place_next width ch line col).1 line' col'
    → IsFurther line col line' col'
place_next-IsFurther width ch line col line' col' = elim (Bool-cases (ch == 10)) [
  | inl e ↦ rw e (λ f. record {
    lines = omega (arith, f.lines);
    cols = λ h. absurd (omega (arith, f.lines, h));
  })
  | inr e ↦ elim (Bool-cases (leb width col)) [
    | inl d ↦
        rw (e, d)
          (λ f. record {
            lines = omega (arith, f.lines);
            cols = λ h. absurd (omega (arith, f.lines, h));
          })
    | inr d ↦ rw (e, d) (λ f. record { lines = f.lines; cols = λ h. omega (arith, f.cols h) })
  ]
]

place_after-IsFurther :
    (width : ℕ) (text : Text) (line col : ℕ)
    → IsFurther line col (place_after width text line col).0 (place_after width text line col).1
unfolding place_after
place_after-IsFurther width [] line col = record { lines = omega arith; cols = λ e. omega arith }
place_after-IsFurther width (ch ∷ text) line col =
    place_next-IsFurther width ch line col _ _ (place_after-IsFurther width text _ _)

-- A round before the place goes on,
display_step-before :
    (width ch line col line' col' : ℕ)
    → IsFurther (place_next width ch line col).0 (place_next width ch line col).1 line' col'
    → display_step width line' col' ch line col ≡ some (place_next width ch line col)
unfolding display_step
display_step-before width ch line col line' col' = elim (Bool-cases (ch == 10)) [
  | inl e ↦ rw e (λ f. let l = f.lines in ground arith)
  | inr e ↦ elim (Bool-cases (leb width col)) [
    | inl d ↦ rw (e, d) (λ f. let l = f.lines in let c = f.cols in ground arith)
    | inr d ↦ rw (e, d) (λ f. let l = f.lines in let c = f.cols in ground arith)
  ]
]

-- and a round at the place is the last.
display_step-at : (width ch line col : ℕ) → display_step width line col ch line col ≡ none
unfolding display_step
display_step-at width ch line col = ground arith

module _ (width : ℕ) (after : Text) where
  display_scan-place_after :
      (before : Text) (line col idx : ℕ)
      → let target = place_after width before line col in
        display_scan width target.0 target.1 line col idx (before ++ after) ≡ idx + byte_len before
  unfolding place_after display_scan byte_len
  display_scan-place_after [] line col idx = at_end after
    where
      at_end : (rest : Text) → display_scan width line col line col idx rest ≡ idx + byte_len []
      at_end [] = unfold display_scan in unfold byte_len in omega arith
      at_end (ch ∷ rest) =
          unfold byte_len in rw (display_scan, display_step-at width ch line col) (omega arith)
  display_scan-place_after (ch ∷ before) line col idx =
      let next = place_next width ch line col in
      rw
        (
          display_scan,
          display_step-before width ch line col _ _
              (place_after-IsFurther width before next.0 next.1),
        )
        (display_scan-place_after before next.0 next.1 (idx + len_utf8 ch) ∙ omega arith)

  -- From the place at which a part of the text ends, laid out on lines of a width of one at least,
  -- the offset of that end is found again.
  pub cursor_for_display_position-place_after :
      (before : Text)
      → 1 ≤ width
      → let target = place_after width before 0 0 in
        cursor_for_display_position (before ++ after) width target.0 target.1 ≡ byte_len before
  unfolding cursor_for_display_position
  cursor_for_display_position-place_after before wide =
      rw positive (display_scan-place_after before 0 0 0 ∙ omega arith)
    where
      positive : (width == 0) ≡ false
      positive = ground arith
