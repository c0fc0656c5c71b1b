-- ===== src/Text/Sanitize.antt =====
-- `sanitize_stored_text` and `sanitize_single_line_text` (src/features/shared/utils.rs) and
-- `sanitize_composer_paste` (src/app/util.rs).
use sshoosh.Base.{[], ◌∷◌, ◌==◌, ◌||◌, if◌then◌else◌}
use sshoosh.Text.{Text, is_control}

-- Each arm of the `match` in turn: a character is replaced, dropped or kept.
unfoldable pub sanitize_stored_text : Text → Text
unfolding is_control
sanitize_stored_text [] = []
sanitize_stored_text (ch ∷ t) =
    let rest = sanitize_stored_text t in
    if ch == 13
    then 10 ∷ rest
    else if ch == 10
    then 10 ∷ rest
    else if ch == 9
    then 32 ∷ rest
    else if is_control ch
    then rest
    else ch ∷ rest

unfoldable pub sanitize_single_line_text : Text → Text
unfolding is_control
sanitize_single_line_text [] = []
sanitize_single_line_text (ch ∷ t) =
    let rest = sanitize_single_line_text t in
    if ch == 13 || ch == 10 || ch == 9 then 32 ∷ rest else if is_control ch then rest else ch ∷ rest

unfoldable pub sanitize_composer_paste : Text → Text
unfolding is_control
sanitize_composer_paste [] = []
sanitize_composer_paste (ch ∷ t) =
    let rest = sanitize_composer_paste t in
    if ch == 13
    then 10 ∷ rest
    else if ch == 10
    then 10 ∷ rest
    else if ch == 9
    then 32 ∷ rest
    else if is_control ch
    then rest
    else ch ∷ rest
