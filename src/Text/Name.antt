-- ===== src/Text/Name.antt =====
-- The keys of names: `normalize_name_key` (src/features/shared/name.rs), `normalize_username` and
-- `normalize_slug` (src/features/shared/utils.rs).
use sshoosh.Base.{
  ℕ, Bool, true, false, ◌&&◌, ◌||◌, not, [], ◌∷◌, ◌==◌, leb, if◌then◌else◌, Result, ok, err,
  bad_length,
}
use sshoosh.Text.{Text, length, is_ascii_alphanumeric, to_lowercase, trim, trim_matches}

unfoldable pub is_dash : ℕ → Bool
is_dash c = c == b'-'

unfoldable pub is_separator : ℕ → Bool
is_separator c = c == b'-' || c == b'_' || c == b'.' || c == b' '

unfoldable pub is_username_separator : ℕ → Bool
is_username_separator c = c == b'-' || c == b'_' || c == b'.'

-- The loop over the characters. `dash` is `out.ends_with('-')`; the result is what is pushed.
unfoldable pub push_chars : (ℕ → Bool) → Bool → Text → Text
unfolding is_ascii_alphanumeric
push_chars separator dash [] = []
push_chars separator dash (ch ∷ t) =
    let kept = push_chars separator false t in
    let joined = push_chars separator true t in
    let skipped = push_chars separator dash t in
    if is_ascii_alphanumeric ch
    then ch ∷ kept
    else if separator ch && not dash
    then b'-' ∷ joined
    else skipped

module _ (unicode_lower : ℕ → Text) where
  unfoldable pub normalize_name_key : Text → Text
  unfolding push_chars is_separator is_dash trim to_lowercase trim_matches
  normalize_name_key input =
      trim_matches is_dash (push_chars is_separator false (to_lowercase unicode_lower (trim input)))

  -- `len` counts bytes; every character of `out` is ASCII.
  unfoldable pub normalize_username : Text → Result Text
  unfolding push_chars is_username_separator is_dash trim to_lowercase trim_matches
  normalize_username input =
      let out =
        trim_matches is_dash
          (push_chars is_username_separator false (to_lowercase unicode_lower (trim input))) in
      if leb 2 (length out) && leb (length out) 32 then ok out else err bad_length

  unfoldable pub normalize_slug : Text → Result Text
  unfolding normalize_name_key
  normalize_slug input =
      let out = normalize_name_key input in
      if leb 2 (length out) && leb (length out) 48 then ok out else err bad_length
