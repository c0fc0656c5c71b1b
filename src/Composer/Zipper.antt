-- ===== src/Composer/Zipper.antt =====
-- The composer as it is seen on the screen: the characters left of the cursor, the nearest first,
-- and those right of it. Each method does here what it does to a `ComposerState`.
pub mod Offsets
pub mod Edits
pub mod Words
use sshoosh.Base.{ℕ, ◌≡◌, Bool, true, false, not, [], ◌∷◌, if◌then◌else◌}
use sshoosh.Text.{Text}
use sshoosh.Composer.Bytes.{byte_len, is_ascii_whitespace}
use sshoosh.Composer.State.{ComposerState, same}

pub record Zipper : Type 0 where
  pub left : Text
  pub right : Text

-- `left`, turned around, before `right`.
unfoldable pub rev_append : Text → Text → Text
rev_append [] right = right
rev_append (c ∷ left) right = rev_append left (c ∷ right)

-- The text is that of the zipper, and the cursor lies on the boundary between its sides.
pub record IsSeen {Menu : Type 0} (z : Zipper) (c : ComposerState Menu) : Type 0 where
  pub buffer : c.buffer ≡ rev_append z.left z.right
  pub cursor : c.cursor ≡ byte_len z.left

unfoldable pub to_left : Text → Text → Zipper
to_left [] right = record { left = []; right = right }
to_left (c ∷ left) right = record { left = left; right = c ∷ right }

unfoldable pub to_right : Text → Text → Zipper
to_right left [] = record { left = left; right = [] }
to_right left (c ∷ right) = record { left = c ∷ left; right = right }

unfoldable pub tail : Text → Text
tail [] = []
tail (_ ∷ cs) = cs

-- Moves the cursor to the left over the characters that are spaces, or that are not.
unfoldable pub skip_left : Bool → Text → Text → Zipper
skip_left spaces [] right = record { left = []; right = right }
skip_left spaces (c ∷ left) right =
    let moved = skip_left spaces left (c ∷ right) in
    let stays : Zipper = record { left = c ∷ left; right = right } in
    if same spaces (is_ascii_whitespace c) then moved else stays

unfoldable pub skip_right : Bool → Text → Text → Zipper
skip_right spaces left [] = record { left = left; right = [] }
skip_right spaces left (c ∷ right) =
    let moved = skip_right spaces (c ∷ left) right in
    let stays : Zipper = record { left = left; right = c ∷ right } in
    if same spaces (is_ascii_whitespace c) then moved else stays
