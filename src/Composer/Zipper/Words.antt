-- ===== src/Composer/Zipper/Words.antt =====
-- The moves by words walk over the characters that the zipper walks over, though they read bytes.
use sshoosh.Base.{
  ℕ, zero, suc, ◌+◌, ◌-◌, ◌/◌, ◌%◌, ◌≤◌, ◌<◌, ◌≡◌, refl, sym, ap, ◌∙◌, inl, inr, true, false, Bool,
  Option, none, some, List, [], ◌∷◌, ◌++◌, ◌==◌, ltb, arith, Bool-cases,
}
use sshoosh.Text.{Text}
use sshoosh.Composer.Bytes.{encode, len_utf8, byte_len, as_bytes, get_byte, is_ascii_whitespace}
use sshoosh.Composer.State.{
  ComposerState, same, space_before, space_after, repeat, move_left, move_right, move_word_left,
  move_word_right, delete_word_before_cursor, cancel_history_navigation,
}
use sshoosh.Composer.Zipper.{Zipper, IsSeen, rev_append, to_left, to_right, skip_left, skip_right}
use sshoosh.Composer.Zipper.Offsets.{len_utf8_pos, byte_len-rev_append, drain-middle}
use sshoosh.Composer.Zipper.Edits.{
  Shows, not_at_start, at_end, not_at_end, move_left-Shows, move_right-Shows,
}

get_byte-cons : (n m b : ℕ) (bs : List ℕ) → m ≡ n + 1 → get_byte m (b ∷ bs) ≡ get_byte n bs
unfolding get_byte
get_byte-cons n m b bs e = rw (not_zero, back) refl
  where
    not_zero : (m == 0) ≡ false
    not_zero = ground arith

    back : m - 1 ≡ n
    back = omega arith

get_byte-encode :
    (n c : ℕ) (bs : List ℕ) → get_byte (n + len_utf8 c) (encode c ++ bs) ≡ get_byte n bs
unfolding len_utf8 encode
get_byte-encode n c bs = elim (Bool-cases (ltb c 128)) [
  | inl one ↦ rw one (get_byte-cons n _ _ _ refl)
  | inr more ↦ rw more (elim (Bool-cases (ltb c 2048)) [
    | inl two ↦ rw two (get_byte-cons (n + 1) _ _ _ (omega arith) ∙ get_byte-cons n _ _ _ refl)
    | inr more' ↦ rw more' (elim (Bool-cases (ltb c 65536)) [
      | inl three ↦ rw three (
          get_byte-cons (n + 2) _ _ _ (omega arith)
          ∙ get_byte-cons (n + 1) _ _ _ (omega arith)
          ∙ get_byte-cons n _ _ _ refl)
      | inr four ↦ rw four (
          get_byte-cons (n + 3) _ _ _ (omega arith)
          ∙ get_byte-cons (n + 2) _ _ _ (omega arith)
          ∙ get_byte-cons (n + 1) _ _ _ (omega arith)
          ∙ get_byte-cons n _ _ _ refl)
    ])
  ])
]

get_byte-rev_append :
    (n : ℕ) (left cs : Text)
    → get_byte (n + byte_len left) (as_bytes (rev_append left cs)) ≡ get_byte n (as_bytes cs)
unfolding byte_len rev_append as_bytes
get_byte-rev_append n [] cs = ap (λ m. get_byte m (as_bytes cs)) (omega arith)
get_byte-rev_append n (c ∷ left) cs =
    ap (λ m. get_byte m (as_bytes (rev_append left (c ∷ cs)))) (omega arith)
    ∙ get_byte-rev_append (n + len_utf8 c) left (c ∷ cs)
    ∙ get_byte-encode n c (as_bytes cs)

-- A byte of a character is a space exactly if the character is.
abbrev Reads : Option ℕ → ℕ → Type 0
Reads o c = (b : ℕ) × (o ≡ some b) × (is_ascii_whitespace b ≡ is_ascii_whitespace c)

no_space : (b c : ℕ) → 128 ≤ b → 128 ≤ c → is_ascii_whitespace b ≡ is_ascii_whitespace c
unfolding is_ascii_whitespace
no_space b c h k = ground arith

no_ascii : (c : ℕ) → ltb c 128 ≡ false → 128 ≤ c
no_ascii c h = ground arith

first_byte : (c : ℕ) (bs : List ℕ) → Reads (get_byte 0 (encode c ++ bs)) c
unfolding encode get_byte
first_byte c bs = elim (Bool-cases (ltb c 128)) [
  | inl one ↦ (c, rw one refl, refl)
  | inr more ↦ elim (Bool-cases (ltb c 2048)) [
    | inl two ↦ (192 + c / 64, rw (more, two) refl, no_space _ c (omega arith) (no_ascii c more))
    | inr more' ↦ elim (Bool-cases (ltb c 65536)) [
      | inl three ↦ (
        224 + c / 4096,
        rw (more, more', three) refl,
        no_space _ c (omega arith) (no_ascii c more),
      )
      | inr four ↦ (
        240 + c / 262144,
        rw (more, more', four) refl,
        no_space _ c (omega arith) (no_ascii c more),
      )
    ]
  ]
]

last_byte : (c : ℕ) (bs : List ℕ) → Reads (get_byte (len_utf8 c - 1) (encode c ++ bs)) c
unfolding encode len_utf8 get_byte
last_byte c bs = elim (Bool-cases (ltb c 128)) [
  | inl one ↦ (c, rw one refl, refl)
  | inr more ↦
      let tail_byte = 128 + c % 64 in
      let same = no_space tail_byte c (omega arith) (no_ascii c more) in
      elim (Bool-cases (ltb c 2048)) [
        | inl two ↦ (tail_byte, rw (more, two) refl, same)
        | inr more' ↦ elim (Bool-cases (ltb c 65536)) [
          | inl three ↦ (tail_byte, rw (more, more', three) refl, same)
          | inr four ↦ (tail_byte, rw (more, more', four) refl, same)
        ]
      ]
]

shorter : (ch : ℕ) (left : Text) (fuel : ℕ) → byte_len (ch ∷ left) < suc fuel → byte_len left < fuel
unfolding byte_len
shorter ch left fuel h = omega (arith, len_utf8_pos ch)

-- What a word takes away stands right of the cursor afterwards.
record IsTaken (left right : Text) (z : Zipper) : Type 0 where
  pub middle : Text
  pub text : z.right ≡ middle ++ right
  pub size : byte_len left ≡ byte_len z.left + byte_len middle

byte_len-append : (cs ds : Text) → byte_len (cs ++ ds) ≡ byte_len cs + byte_len ds
unfolding byte_len
byte_len-append [] ds = omega arith
byte_len-append (c ∷ cs) ds = omega (arith, byte_len-append cs ds)

append_assoc : (bs cs ds : Text) → (bs ++ cs) ++ ds ≡ bs ++ (cs ++ ds)
append_assoc [] cs ds = refl
append_assoc (b ∷ bs) cs ds = ap (λ t. b ∷ t) (append_assoc bs cs ds)

skip_left-IsTaken :
    (wanted : Bool) (left right : Text) → IsTaken left right (skip_left wanted left right)
unfolding skip_left byte_len
skip_left-IsTaken wanted [] right = record { middle = []; text = refl; size = refl }
skip_left-IsTaken wanted (ch ∷ left) right =
    elim (Bool-cases (same wanted (is_ascii_whitespace ch))) [
      | inl go ↦
          let rest = skip_left-IsTaken wanted left (ch ∷ right) in
          rw go (record {
            middle = rest.middle ++ ch ∷ [];
            text = rest.text ∙ sym (append_assoc rest.middle (ch ∷ []) right);
            size = omega (arith, rest.size, byte_len-append rest.middle (ch ∷ []));
          })
      | inr stop ↦ rw stop (record { middle = []; text = refl; size = omega arith })
    ]

-- The cursor after `move_word_left`: over the spaces, then over the word.
unfoldable pub word_left : Text → Text → Zipper
unfolding skip_left
word_left left right =
    let skipped = skip_left true left right in skip_left false skipped.left skipped.right

unfoldable pub word_right : Text → Text → Zipper
unfolding skip_right
word_right left right =
    let skipped = skip_right false left right in skip_right true skipped.left skipped.right

word_left-IsTaken : (left right : Text) → IsTaken left right (word_left left right)
unfolding word_left
word_left-IsTaken left right =
    let first = skip_left-IsTaken true left right in
    let skipped = skip_left true left right in
    let second = skip_left-IsTaken false skipped.left skipped.right in
    record {
      middle = second.middle ++ first.middle;
      text =
          second.text
          ∙ ap (λ t. second.middle ++ t) first.text
          ∙ sym (append_assoc second.middle first.middle right);
      size = omega (arith, first.size, second.size, byte_len-append second.middle first.middle);
    }

module _ {Menu : Type 0} where
  before_start :
      (wanted : Bool) (right : Text) (c : ComposerState Menu)
      → IsSeen (record { left = []; right = right }) c
      → space_before wanted c ≡ some false
  unfolding space_before
  before_start wanted right c seen = unfold byte_len in rw seen.cursor refl

  space_before-left :
      (wanted : Bool) (ch : ℕ) (left right : Text) (c : ComposerState Menu)
      → IsSeen (record { left = ch ∷ left; right = right }) c
      → space_before wanted c ≡ some (same wanted (is_ascii_whitespace ch))
  unfolding space_before
  space_before-left wanted ch left right c seen =
      let (b, e, s) = last_byte ch (as_bytes right) in
      rw (not_at_start ch left right c seen, seen.cursor, seen.buffer)
        (rw (at_byte ∙ e) (ap (λ t. some (same wanted t)) s))
    where
      offset : byte_len (ch ∷ left) - 1 ≡ len_utf8 ch - 1 + byte_len left
      offset = unfold byte_len in omega (arith, len_utf8_pos ch)

      at_byte :
          get_byte (byte_len (ch ∷ left) - 1) (as_bytes (rev_append (ch ∷ left) right))
          ≡ get_byte (len_utf8 ch - 1) (encode ch ++ as_bytes right)
      at_byte =
          ap (λ n. get_byte n (as_bytes (rev_append (ch ∷ left) right))) offset
          ∙ unfold rev_append as_bytes in get_byte-rev_append (len_utf8 ch - 1) left (ch ∷ right)

  skip-left :
      (wanted : Bool) (left right : Text) (fuel : ℕ) (c : ComposerState Menu)
      → byte_len left < fuel
      → IsSeen (record { left = left; right = right }) c
      → Shows (repeat fuel (space_before wanted) move_left c) (skip_left wanted left right)
  unfolding repeat skip_left
  skip-left wanted [] right zero c enough seen = absurd (omega arith)
  skip-left wanted [] right (suc fuel) c enough seen =
      (c, rw (before_start wanted right c seen) refl, seen)
  skip-left wanted (ch ∷ left) right zero c enough seen = absurd (omega arith)
  skip-left wanted (ch ∷ left) right (suc fuel) c enough seen =
      let (moved, e, there) = move_left-Shows (ch ∷ left) right c seen in
      let (last, f, at) =
        skip-left wanted left (ch ∷ right) fuel moved (shorter ch left fuel enough)
          (unfold to_left in there) in
      elim (Bool-cases (same wanted (is_ascii_whitespace ch))) [
        | inl go ↦ rw go (last, rw (space_before-left wanted ch left right c seen, go) (rw e f), at)
        | inr stop ↦
            rw stop (c, rw (space_before-left wanted ch left right c seen, stop) refl, seen)
      ]

  pub move_word_left-Shows :
      (left right : Text) (c : ComposerState Menu)
      → IsSeen (record { left = left; right = right }) c
      → Shows (move_word_left c) (word_left left right)
  unfolding move_word_left word_left
  move_word_left-Shows left right c seen =
      let (skipped, e, there) =
        skip-left true left right (suc c.cursor) c (omega (arith, seen.cursor)) seen in
      let z = skip_left true left right in
      let (last, f, at) =
        skip-left false z.left z.right (suc skipped.cursor) skipped (omega (arith, there.cursor))
          there in
      (last, rw (e, f) refl, at)

  pub delete_word_before_cursor-Shows :
      (left right : Text) (c : ComposerState Menu)
      → IsSeen (record { left = left; right = right }) c
      → Shows
          (delete_word_before_cursor c)
          (record { left = (word_left left right).left; right = right })
  unfolding delete_word_before_cursor cancel_history_navigation
  delete_word_before_cursor-Shows left right c seen =
      let (moved, e, there) = move_word_left-Shows left right c seen in
      let taken = word_left-IsTaken left right in
      let z = word_left left right in
      (
        record moved {
          history_position = none;
          history_draft = none;
          buffer = rev_append z.left right;
        },
        rw (e, there.cursor, there.buffer, seen.cursor, taken.text)
            (rw (drain-middle z.left taken.middle right _ taken.size) refl),
        record { buffer = refl; cursor = there.cursor },
      )

  space_after-end :
      (wanted : Bool) (left : Text) (c : ComposerState Menu)
      → IsSeen (record { left = left; right = [] }) c
      → space_after wanted c ≡ some false
  unfolding space_after
  space_after-end wanted left c seen = rw past refl
    where
      past : ltb c.cursor (byte_len c.buffer) ≡ false
      past = ground (arith, at_end left c seen)

  space_after-right :
      (wanted : Bool) (ch : ℕ) (left right : Text) (c : ComposerState Menu)
      → IsSeen (record { left = left; right = ch ∷ right }) c
      → space_after wanted c ≡ some (same wanted (is_ascii_whitespace ch))
  unfolding space_after
  space_after-right wanted ch left right c seen =
      let (b, e, s) = first_byte ch (as_bytes right) in
      rw (before_end, seen.cursor, seen.buffer)
        (rw (at_byte ∙ e) (ap (λ t. some (same wanted t)) s))
    where
      before_end : ltb c.cursor (byte_len c.buffer) ≡ true
      before_end = ground (arith, not_at_end ch left right c seen)

      at_byte :
          get_byte (byte_len left) (as_bytes (rev_append left (ch ∷ right)))
          ≡ get_byte 0 (encode ch ++ as_bytes right)
      at_byte =
          ap (λ n. get_byte n (as_bytes (rev_append left (ch ∷ right)))) (omega arith)
          ∙ unfold as_bytes in get_byte-rev_append 0 left (ch ∷ right)

  skip-right :
      (wanted : Bool) (left right : Text) (fuel : ℕ) (c : ComposerState Menu)
      → byte_len right < fuel
      → IsSeen (record { left = left; right = right }) c
      → Shows (repeat fuel (space_after wanted) move_right c) (skip_right wanted left right)
  unfolding repeat skip_right
  skip-right wanted left [] zero c enough seen = absurd (omega arith)
  skip-right wanted left [] (suc fuel) c enough seen =
      (c, rw (space_after-end wanted left c seen) refl, seen)
  skip-right wanted left (ch ∷ right) zero c enough seen = absurd (omega arith)
  skip-right wanted left (ch ∷ right) (suc fuel) c enough seen =
      let (moved, e, there) = move_right-Shows left (ch ∷ right) c seen in
      let (last, f, at) =
        skip-right wanted (ch ∷ left) right fuel moved (shorter ch right fuel enough)
          (unfold to_right in there) in
      elim (Bool-cases (same wanted (is_ascii_whitespace ch))) [
        | inl go ↦ rw go (last, rw (space_after-right wanted ch left right c seen, go) (rw e f), at)
        | inr stop ↦
            rw stop (c, rw (space_after-right wanted ch left right c seen, stop) refl, seen)
      ]

  rest_of :
      (left right : Text) (c : ComposerState Menu)
      → IsSeen (record { left = left; right = right }) c
      → byte_len c.buffer - c.cursor ≡ byte_len right
  rest_of left right c seen =
      rw (seen.cursor, seen.buffer, byte_len-rev_append left right) (omega arith)

  pub move_word_right-Shows :
      (left right : Text) (c : ComposerState Menu)
      → IsSeen (record { left = left; right = right }) c
      → Shows (move_word_right c) (word_right left right)
  unfolding move_word_right word_right
  move_word_right-Shows left right c seen =
      let (skipped, e, there) =
        skip-right false left right (suc (byte_len c.buffer - c.cursor)) c
          (omega (arith, rest_of left right c seen)) seen in
      let z = skip_right false left right in
      let (last, f, at) =
        skip-right true z.left z.right (suc (byte_len skipped.buffer - skipped.cursor)) skipped
          (omega (arith, rest_of z.left z.right skipped there)) there in
      (last, rw (e, f) refl, at)
