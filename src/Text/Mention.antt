-- ===== src/Text/Mention.antt =====
-- `parse_mentions` (src/features/shared/utils.rs).
use sshoosh.Base.{
  ℕ, zero, suc, Bool, true, ◌||◌, not, Option, none, some, List, [], ◌∷◌, ◌++◌, ◌==◌, if◌then◌else◌,
  Result, ok, err,
}
use sshoosh.Text.{Text, length, is_ascii_alphanumeric, contains}
use sshoosh.Text.Name.{normalize_username}
use sshoosh.Text.Label.{take_while_label}

unfoldable pub is_at : ℕ → Bool
is_at c = c == b'@'

unfoldable pub is_mention_char : ℕ → Bool
unfolding is_ascii_alphanumeric
is_mention_char c = is_ascii_alphanumeric c || c == b'_' || c == b'-' || c == b'.'

-- The character before the `@` ends no word.
unfoldable pub mention_starts : Option ℕ → Bool
unfolding is_mention_char
mention_starts none = true
mention_starts (some prev) = not (is_mention_char prev)

push_mention : Result Text → List Text → List Text
unfolding contains
push_mention (err _) mentions = mentions
push_mention (ok username) mentions =
    if contains username mentions then mentions else mentions ++ username ∷ []

module _ (unicode_lower : ℕ → Text) where
  unfoldable pub parse_mentions_from : ℕ → Option ℕ → Text → List Text → List Text
  unfolding is_at is_mention_char mention_starts take_while_label normalize_username push_mention
  parse_mentions_from zero prev body mentions = mentions
  parse_mentions_from (suc fuel) prev [] mentions = mentions
  parse_mentions_from (suc fuel) prev (ch ∷ t) mentions =
      let skip = parse_mentions_from fuel (some ch) t mentions in
      let (raw, last, rest) = take_while_label is_mention_char ch t in
      let read =
        parse_mentions_from fuel (some last) rest
          (push_mention (normalize_username unicode_lower raw) mentions) in
      if not (is_at ch) then skip else if mention_starts prev then read else skip

  unfoldable pub parse_mentions : Text → List Text
  unfolding parse_mentions_from
  parse_mentions body = parse_mentions_from (length body) none body []
