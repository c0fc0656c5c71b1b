-- ===== src/Sample/Texts.antt =====
-- A message with labels and a mention.
use sshoosh.Base.{ℕ, [], ◌∷◌}
use sshoosh.Base.Tables.{All}
use sshoosh.Text.{Text, codes}
use sshoosh.Text.Label.{parse_labels}
use sshoosh.Text.Tags.{IsTag, parse_labels-IsTag}

abbrev message : Text
message = codes "$Deploy by @bob, see $ops-2"

abbrev keep : ℕ → Text
keep c = c ∷ []

message-IsTag : All IsTag (parse_labels message)
message-IsTag = parse_labels-IsTag message
