-- ===== src/Guards.antt =====
-- The loads and checks at the head of the handlers (src/features/shared/permissions.rs and
-- src/features/shared/loaders.rs).
use sshoosh.Base.{
  ℕ, Bool, true, false, ◌&&◌, ◌||◌, not, Option, none, some, ◌==◌, ltb, is_some, is_none,
  if◌then◌else◌, Result, ok, err, no_row, not_activated, only_admins, only_owners_manage_owners,
  last_active_owner, username_used, user_not_found, channel_not_found, thread_not_found, no_access,
  not_manager, cannot_modify_thread, comment_not_found, not_participant, message_not_found, ensure,
  some_or, ◌>>=◌, ◌>>◌,
}
use sshoosh.Base.Tables.{find, count, exists}
use sshoosh.Text.{Text, text_eq, trim, trim_start_matches, to_lowercase}
use sshoosh.Text.Sanitize.{sanitize_single_line_text}
use sshoosh.Db.{
  Db, Env, Role, owner, admin, member, AccountRow, ChannelRow, ThreadRow, CommentRow, MessageRow,
}
use sshoosh.Feed.Notify.{is_member, is_participant}

-- `Account` (src/features/accounts/model.rs).
pub record Account : Type 0 where
  pub id : ℕ
  pub username : Text
  pub display_name : Text
  pub role : Role
  pub activated : Bool
  pub pending_username : Option Text

unfoldable pub can_admin : Role → Bool
can_admin owner = true
can_admin admin = true
can_admin member = false

unfoldable pub is_owner : Role → Bool
is_owner owner = true
is_owner _ = false

unfoldable pub is_admin : Role → Bool
is_admin admin = true
is_admin _ = false

sanitized_name : Option Text → Option Text
sanitized_name none = none
sanitized_name (some username) = some (sanitize_single_line_text username)

unfoldable pub account_from_row : AccountRow → Account
unfolding sanitized_name
account_from_row row = record {
  id = row.id;
  username = row.username;
  display_name = sanitize_single_line_text row.display_name;
  role = row.role;
  activated = is_some row.activated_at;
  pending_username = sanitized_name row.pending_username;
}

unfoldable pub load_account_tx : ℕ → Db → Result Account
unfolding account_from_row
load_account_tx account_id db = do
  row ← some_or (find (λ a. a.id == account_id && is_none a.disabled_at) db.accounts) no_row
  ok (account_from_row row)

unfoldable pub ensure_can_view_channel : ℕ → ℕ → Db → Result (Unit {0})
unfolding load_account_tx
ensure_can_view_channel account_id channel_id db = do
  account ← load_account_tx account_id db
  ensure account.activated not_activated
  ensure
      (exists
        (λ c. c.id == channel_id && is_none c.archived_at && is_member channel_id account_id db)
        db.channels)
      no_access

unfoldable pub require_admin_tx : ℕ → Db → Result Account
unfolding load_account_tx can_admin
require_admin_tx actor_id db = do
  actor ← load_account_tx actor_id db
  ensure (actor.activated && can_admin actor.role) only_admins
  ok actor

unfoldable pub ensure_can_manage_account : Account → Account → Result (Unit {0})
unfolding can_admin is_owner
ensure_can_manage_account actor target = do
  ensure (can_admin actor.role) only_admins
  if not (is_owner actor.role) && is_owner target.role then err only_owners_manage_owners else ok tt

-- `role = 'owner' AND activated_at IS NOT NULL AND disabled_at IS NULL`
unfoldable pub is_active_owner : AccountRow → Bool
unfolding is_owner
is_active_owner a = is_owner a.role && is_some a.activated_at && is_none a.disabled_at

unfoldable pub ensure_not_last_active_owner : ℕ → Db → Result (Unit {0})
unfolding is_active_owner
ensure_not_last_active_owner target_id db =
    ensure (exists (λ a. not (a.id == target_id) && is_active_owner a) db.accounts)
      last_active_owner

unfoldable pub ensure_owner_keeps_active_key : ℕ → Db → Result (Unit {0})
unfolding ensure_not_last_active_owner
ensure_owner_keeps_active_key account_id db =
    let active_keys = count (λ k. k.account_id == account_id && is_none k.revoked_at) db.ssh_keys in
    if ltb 1 active_keys then ok tt else ensure_not_last_active_owner account_id db

unfoldable pub username_reservation_owner_tx : Text → Db → Option ℕ
username_reservation_owner_tx username db =
    elim (find (λ r. text_eq r.normalized_username username) db.reservations) [
      | none ↦ none
      | some r ↦ some r.account_id
    ]

unfoldable pub is_free_for : ℕ → Option ℕ → Bool
is_free_for account_id none = true
is_free_for account_id (some owner_id) = owner_id == account_id

unfoldable pub ensure_username_reservable_tx : ℕ → Text → Db → Result (Unit {0})
unfolding username_reservation_owner_tx is_free_for
ensure_username_reservable_tx account_id username db =
    ensure (is_free_for account_id (username_reservation_owner_tx username db)) username_used

unfoldable pub is_at_sign : ℕ → Bool
is_at_sign c = c == b'@'

unfoldable pub is_hash : ℕ → Bool
is_hash c = c == b'#'

unfoldable pub load_account_by_username_tx : Env → Text → Db → Result Account
unfolding is_at_sign account_from_row
load_account_by_username_tx env username db = do
  let name = trim_start_matches is_at_sign (trim username)
  row ←
      some_or (find (λ a. text_eq (env.sql_lower a.username) (env.sql_lower name)) db.accounts)
        user_not_found
  ok (account_from_row row)

unfoldable pub slug_argument : Env → Text → Text
unfolding is_hash
slug_argument env slug = to_lowercase env.unicode_lower (trim_start_matches is_hash (trim slug))

unfoldable pub load_channel_by_slug_tx : Env → Text → Db → Result ChannelRow
unfolding slug_argument
load_channel_by_slug_tx env slug db =
    some_or
      (find (λ c. text_eq c.slug (slug_argument env slug) && is_none c.archived_at) db.channels)
      channel_not_found

unfoldable pub load_channel_by_slug_any_tx : Env → Text → Db → Result ChannelRow
unfolding slug_argument
load_channel_by_slug_any_tx env slug db =
    some_or (find (λ c. text_eq c.slug (slug_argument env slug)) db.channels) channel_not_found

unfoldable pub load_channel_by_id_tx : ℕ → Db → Result ChannelRow
load_channel_by_id_tx channel_id db =
    some_or (find (λ c. c.id == channel_id && is_none c.archived_at) db.channels) channel_not_found

unfoldable pub load_thread_meta_tx : ℕ → Db → Result ThreadRow
load_thread_meta_tx thread_id db =
    some_or (find (λ t. t.id == thread_id && is_none t.deleted_at) db.threads) thread_not_found

unfoldable pub load_comment_meta_tx : ℕ → ℕ → Db → Result CommentRow
load_comment_meta_tx thread_id obj_index db =
    some_or
      (find (λ c. c.thread_id == thread_id && c.obj_index == obj_index && is_none c.deleted_at)
        db.comments)
      comment_not_found

unfoldable pub load_dm_message_meta_tx : ℕ → ℕ → ℕ → Db → Result MessageRow
load_dm_message_meta_tx actor_id conversation_id obj_index db = do
  ensure (is_participant conversation_id actor_id db) not_participant
  some_or
      (find
        (λ m.
          m.conversation_id == conversation_id && m.obj_index == obj_index && is_none m.deleted_at)
        db.conversation_messages)
      message_not_found

unfoldable pub ensure_can_manage_channel : ℕ → ChannelRow → Db → Result Account
unfolding load_account_tx can_admin
ensure_can_manage_channel actor_id channel db = do
  actor ← load_account_tx actor_id db
  ensure actor.activated not_activated
  if can_admin actor.role || channel.created_by_account_id == actor_id
      then ok actor
      else err not_manager

unfoldable pub ensure_can_modify_thread : ℕ → ThreadRow → Bool → Db → Result Account
unfolding load_account_tx load_channel_by_id_tx can_admin
ensure_can_modify_thread actor_id thread require_moderator db = do
  actor ← load_account_tx actor_id db
  ensure actor.activated not_activated
  channel ← load_channel_by_id_tx thread.channel_id db
  if can_admin actor.role || channel.created_by_account_id == actor_id
      then ok actor
      else if not require_moderator && thread.creator_account_id == actor_id
      then ok actor
      else err cannot_modify_thread
