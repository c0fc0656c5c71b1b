-- ===== src/Dms/Handlers.antt =====
-- The handlers of direct messages, each a transaction: its checks, its writes and its feed.
use sshoosh.Base.{
  ℕ, ◌+◌, Bool, ◌&&◌, not, Option, none, some, [], ◌∷◌, ◌==◌, if◌then◌else◌, Result, ok, no_row,
  not_activated, user_not_found, cannot_dm_self, message_body_required, not_participant,
  only_own_dms, ensure, some_or, ◌>>=◌, ◌>>◌,
}
use sshoosh.Base.Tables.{find, update_where}
use sshoosh.Text.{Text, codes, is_empty, text_eq, trim, trim_start_matches}
use sshoosh.Text.Sanitize.{sanitize_stored_text}
use sshoosh.Db.{Db, Chat, Env, AccountRow, MessageRow, Source, num, dm}
use sshoosh.Feed.{entry, insert_event, insert_audit}
use sshoosh.Feed.Index.{
  upsert_search_index_tx, delete_search_index_tx, replace_labels_tx, delete_labels_tx,
}
use sshoosh.Feed.Notify.{is_active, is_participant}
use sshoosh.Guards.{load_account_tx, load_dm_message_meta_tx, is_at_sign}
use sshoosh.Threads.Handlers.{mark_feed_read}
use sshoosh.Dms.Writes.{
  dm_key, is_conversation, has_key, is_seat_of, insert_conversation, keep_seat, write_message,
  set_message_body, delete_message_row, read_conversation, unread_conversation,
}
use sshoosh.Dms.Projector.{dm_source, dm_created}

-- The active account that a name given to `open_dm` names.
unfoldable pub dm_target : Env → Text → Db → Option AccountRow
unfolding is_at_sign is_active
dm_target env target db =
    let name = trim_start_matches is_at_sign (trim target) in
    find (λ a. text_eq (env.sql_lower a.username) (env.sql_lower name) && is_active a) db.accounts

-- The conversation, found by its key or inserted.
unfoldable pub open_conversation : Env → ℕ → ℕ → Chat → Result (ℕ × Chat)
unfolding has_key dm_key insert_conversation
open_conversation env actor_id target_id chat =
    elim (find (has_key (dm_key actor_id target_id)) chat.conversations) [
      | some existing ↦ ok (existing.id, chat)
      | none ↦ insert_conversation env actor_id target_id chat >>= λ opened. ok (env.id, opened)
    ]

unfoldable pub open_dm : Env → ℕ → Text → Db → Result (ℕ × Db)
unfolding load_account_tx dm_target open_conversation keep_seat
open_dm env actor_id target db = do
  actor ← load_account_tx actor_id db
  ensure actor.activated not_activated
  row ← some_or (dm_target env target db) user_not_found
  ensure (not (row.id == actor_id)) cannot_dm_self
  (conversation_id, opened) ← open_conversation env actor_id row.id db.chat
  let seated = keep_seat env conversation_id row.id (keep_seat env conversation_id actor_id opened)
  let written : Db = record db { chat = seated }
  ok (
    conversation_id,
    insert_event env none none (some conversation_id) "conversation.opened"
        (entry "conversation_id" (num conversation_id) ∷ []) written,
  )

unfoldable pub send_dm : Env → ℕ → ℕ → Text → Db → Result Db
unfolding is_participant is_conversation write_message dm_created
send_dm env actor_id conversation_id input db = do
  let body = trim (sanitize_stored_text input)
  ensure (not (is_empty body)) message_body_required
  ensure (is_participant conversation_id actor_id db) not_participant
  conversation ← some_or (find (is_conversation conversation_id) db.conversations) no_row
  chat ← write_message env actor_id conversation body db.chat
  ok (
      dm_created env actor_id conversation_id env.id (conversation.last_message_index + 1) body
        (record db { chat = chat }))

-- The checks that `update_dm_body` and `soft_delete_dm` share, and what they load.
unfoldable pub load_own_dm : ℕ → ℕ → ℕ → Db → Result MessageRow
unfolding load_dm_message_meta_tx
load_own_dm actor_id conversation_id obj_index db = do
  row ← load_dm_message_meta_tx actor_id conversation_id obj_index db
  ensure (row.author_account_id == actor_id) only_own_dms
  ok row

unfoldable pub update_dm_body : Env → ℕ → ℕ → ℕ → Text → Db → Result Db
unfolding load_own_dm set_message_body
update_dm_body env actor_id conversation_id obj_index input db = do
  let body = trim (sanitize_stored_text input)
  ensure (not (is_empty body)) message_body_required
  row ← load_own_dm actor_id conversation_id obj_index db
  let source = dm_source row.id conversation_id
  let written : Db = record db { chat = set_message_body env row.id body db.chat }
  let searched = upsert_search_index_tx source (codes "DM") body (codes "DM") written
  let labelled = replace_labels_tx source (some row.obj_index) body row.created_at searched
  let audited =
      insert_audit env (some actor_id) "dm.edited" (some row.id)
        (entry "conversation_id" (num conversation_id) ∷ []) labelled
  ok (
      insert_event env none none (some conversation_id) "conversation.message_edited"
        (entry "conversation_id" (num conversation_id) ∷ entry "obj_index" (num obj_index) ∷ [])
        audited)

unfoldable pub soft_delete_dm : Env → ℕ → ℕ → ℕ → Db → Result Db
unfolding load_own_dm delete_message_row
soft_delete_dm env actor_id conversation_id obj_index db = do
  row ← load_own_dm actor_id conversation_id obj_index db
  let written : Db = record db { chat = delete_message_row env conversation_id row db.chat }
  let unsearched = delete_search_index_tx dm row.id written
  let unlabelled = delete_labels_tx dm row.id unsearched
  let audited =
      insert_audit env (some actor_id) "dm.deleted" (some row.id)
        (entry "conversation_id" (num conversation_id) ∷ []) unlabelled
  ok (
      insert_event env none none (some conversation_id) "conversation.message_deleted"
        (entry "conversation_id" (num conversation_id) ∷ entry "obj_index" (num obj_index) ∷ [])
        audited)

is_of_conversation : ℕ → Source → Bool
is_of_conversation conversation_id source = elim source.conversation_id [
  | none ↦ Bool.false
  | some c ↦ c == conversation_id
]

-- `mark_conversation_read` and `mark_conversation_unread` join the conversation with the seat.
unfoldable pub load_seated_conversation : ℕ → ℕ → Db → Result ℕ
unfolding is_participant is_conversation
load_seated_conversation account_id conversation_id db = do
  conversation ←
      some_or
        (find
          (λ c. is_conversation conversation_id c && is_participant conversation_id account_id db)
          db.conversations)
        not_participant
  ok conversation.last_message_index

unfoldable pub mark_conversation_read : Env → ℕ → ℕ → Db → Result Db
unfolding load_seated_conversation read_conversation mark_feed_read is_of_conversation
mark_conversation_read env account_id conversation_id db = do
  last_index ← load_seated_conversation account_id conversation_id db
  ok (
      mark_feed_read env account_id (is_of_conversation conversation_id)
        (record db { chat = read_conversation conversation_id account_id last_index db.chat }))

unfoldable pub mark_conversation_unread : ℕ → ℕ → Db → Result Db
unfolding load_seated_conversation unread_conversation
mark_conversation_unread account_id conversation_id db = do
  last_index ← load_seated_conversation account_id conversation_id db
  ok (record db { chat = unread_conversation conversation_id account_id last_index db.chat })

-- `until` is the timestamp that `ttl_hours.and_then(timestamp_after_hours)` gives.
unfoldable pub set_conversation_muted : ℕ → ℕ → Option ℕ → Db → Db
unfolding is_seat_of
set_conversation_muted actor_id conversation_id until db = record db {
  chat = record db.chat {
    conversation_members =
        update_where (is_seat_of conversation_id actor_id) (λ m. record m { muted_until = until })
          db.conversation_members;
  };
}

unfoldable pub set_conversation_saved : Env → ℕ → ℕ → Bool → Db → Db
unfolding is_seat_of
set_conversation_saved env actor_id conversation_id saved db =
    let saved_at = if saved then some env.now else none in
    record db {
      chat = record db.chat {
        conversation_members =
            update_where (is_seat_of conversation_id actor_id)
              (λ m. record m { saved_at = saved_at }) db.conversation_members;
      };
    }
