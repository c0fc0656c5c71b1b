-- ===== src/Text/Tests.antt =====
-- The unit tests of src/features/shared/{name,label}.rs.
use sshoosh.Base.{ℕ, ◌≡◌, refl, none, some, [], ◌∷◌}
use sshoosh.Text.{Text, codes, decimal}
use sshoosh.Text.Name.{normalize_name_key}
use sshoosh.Text.Label.{normalize_label, parse_labels}
use sshoosh.Text.Mention.{parse_mentions}

abbrev keep : ℕ → Text
keep c = c ∷ []

decimal-105 : decimal 105 ≡ codes "105"
unfolding decimal
decimal-105 = refl

release_rollout : normalize_name_key keep (codes "  Release Rollout  ") ≡ codes "release-rollout"
unfolding normalize_name_key
release_rollout = refl

ops_runbook : normalize_name_key keep (codes "Ops__Runbook...v2") ≡ codes "ops-runbook-v2"
unfolding normalize_name_key
ops_runbook = refl

no_name : normalize_name_key keep (codes "!!!") ≡ []
unfolding normalize_name_key
no_name = refl

label_deploy : normalize_label (codes "$Deploy-2026") ≡ some (codes "deploy-2026")
unfolding normalize_label
label_deploy = refl

label_bad : normalize_label (codes "$bad!") ≡ none
unfolding normalize_label
label_bad = refl

labels_once :
    parse_labels (codes "Ship $Deploy-2026 and $ops_team, ignore $1 and repeat $deploy-2026")
    ≡ codes "deploy-2026" ∷ codes "ops_team" ∷ []
unfolding parse_labels
labels_once = refl

labels_boundary : parse_labels (codes "abc_$deploy") ≡ []
unfolding parse_labels
labels_boundary = refl

mentions_once : parse_mentions keep (codes "@Ann.B and me@there and @ann-b") ≡ codes "ann-b" ∷ []
unfolding parse_mentions
mentions_once = refl
