-- ===== src/Text/Label.antt =====
-- Message labels (src/features/shared/label.rs).
use sshoosh.Base.{
  ℕ, zero, suc, Bool, true, ◌||◌, not, Option, none, some, List, [], ◌∷◌, ◌++◌, ◌==◌, if◌then◌else◌,
}
use sshoosh.Text.{
  Text, length, is_empty, is_ascii_alphanumeric, is_ascii_alphabetic, to_ascii_lowercase, trim,
  trim_start_matches, all_chars, any_char, contains,
}

unfoldable pub is_dollar : ℕ → Bool
is_dollar c = c == b'$'

unfoldable pub is_label_char : ℕ → Bool
unfolding is_ascii_alphanumeric
is_label_char c = is_ascii_alphanumeric c || c == b'_' || c == b'-'

unfoldable pub normalize_label : Text → Option Text
unfolding is_dollar is_label_char is_ascii_alphabetic to_ascii_lowercase trim trim_start_matches
    all_chars any_char
normalize_label value =
    let tag = trim_start_matches is_dollar (trim value) in
    if is_empty tag
    then none
    else if not (all_chars is_label_char tag)
    then none
    else if not (any_char is_ascii_alphabetic tag)
    then none
    else some (to_ascii_lowercase tag)

-- `is_label_boundary(body, idx)`, where `prev` is the character before `idx`, if there is one.
unfoldable pub is_label_boundary : Option ℕ → Bool
unfolding is_label_char
is_label_boundary none = true
is_label_boundary (some ch) = not (is_label_char ch)

-- The inner loop: the label characters ahead, the last character read, and what is left.
unfoldable pub take_while_label : (ℕ → Bool) → ℕ → Text → Text × ℕ × Text
take_while_label p last [] = ([], last, [])
take_while_label p last (c ∷ t) =
    let (raw, last', rest) = take_while_label p c t in
    if p c then (c ∷ raw, last', rest) else ([], last, c ∷ t)

unfoldable pub push_tag : Option Text → List Text → List Text
unfolding contains
push_tag none tags = tags
push_tag (some tag) tags = if contains tag tags then tags else tags ++ tag ∷ []

-- The outer loop on fuel: it reads at least one character in each round.
unfoldable pub parse_labels_from : ℕ → Option ℕ → Text → List Text → List Text
unfolding is_dollar is_label_boundary is_label_char take_while_label normalize_label push_tag
parse_labels_from zero prev body tags = tags
parse_labels_from (suc fuel) prev [] tags = tags
parse_labels_from (suc fuel) prev (ch ∷ t) tags =
    let skip = parse_labels_from fuel (some ch) t tags in
    let (raw, last, rest) = take_while_label is_label_char ch t in
    let read = parse_labels_from fuel (some last) rest (push_tag (normalize_label raw) tags) in
    if not (is_dollar ch) || not (is_label_boundary prev) then skip else read

unfoldable pub parse_labels : Text → List Text
unfolding parse_labels_from
parse_labels body = parse_labels_from (length body) none body []
