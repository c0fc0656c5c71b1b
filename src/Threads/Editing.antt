-- ===== src/Threads/Editing.antt =====
-- The handlers that change a thread itself: `edit_thread`, `rename_thread` and the flags
-- (src/features/messages/state.rs and `update_thread_flag` of src/features/shared/permissions.rs).
use sshoosh.Base.{
  ℕ, Bool, true, false, not, Option, none, some, [], ◌∷◌, ◌==◌, String, if◌then◌else◌, Result, ok,
  no_row, title_required, body_required, ensure, some_or, ◌>>=◌, ◌>>◌,
}
use sshoosh.Base.Tables.{find, update_where}
use sshoosh.Text.{Text, is_empty, text_eq, trim}
use sshoosh.Text.Sanitize.{sanitize_stored_text, sanitize_single_line_text}
use sshoosh.Text.Name.{normalize_name_key}
use sshoosh.Db.{Db, Env, Chat, ThreadRow, num, thread}
use sshoosh.Feed.{entry, insert_event, insert_audit}
use sshoosh.Feed.Index.{
  upsert_search_index_tx, delete_search_index_tx, replace_labels_tx, delete_thread_labels_tx,
  thread_label_text,
}
use sshoosh.Guards.{load_thread_meta_tx, ensure_can_modify_thread}
use sshoosh.Threads.Writes.{is_thread}
use sshoosh.Threads.Projector.{thread_source}
use sshoosh.Threads.Handlers.{ensure_thread_name_available}

-- `UPDATE threads SET … WHERE id = ?`
unfoldable pub update_thread : ℕ → (ThreadRow → ThreadRow) → Chat → Chat
unfolding is_thread
update_thread thread_id f chat = record chat {
  threads = update_where (is_thread thread_id) f chat.threads;
}

-- A title with another key than the old one must be free.
unfoldable pub ensure_title_free : Env → ThreadRow → Text → Db → Result (Unit {0})
ensure_title_free env meta title db =
    let next_key = normalize_name_key env.unicode_lower title in
    if text_eq next_key (normalize_name_key env.unicode_lower meta.title)
    then ok tt
    else ensure_thread_name_available meta.channel_id next_key db

-- What `edit_thread` and `rename_thread` do after the write.
unfoldable pub thread_edited : Env → ℕ → ℕ → ThreadRow → Text → Text → Db → Result Db
thread_edited env actor_id thread_id meta title body db = do
  channel ← some_or (find (λ c. c.id == meta.channel_id) db.channels) no_row
  row ← some_or (find (is_thread thread_id) db.threads) no_row
  let source = thread_source thread_id meta.channel_id
  let searched = upsert_search_index_tx source title body (b'#' ∷ channel.slug) db
  let labelled =
      replace_labels_tx source none (thread_label_text title body) row.created_at searched
  let audited =
      insert_audit env (some actor_id) "thread.edited" (some thread_id)
        (entry "channel_id" (num meta.channel_id) ∷ []) labelled
  ok (
      insert_event env (some meta.channel_id) (some thread_id) none "thread.edited"
        (entry "thread_id" (num thread_id) ∷ []) audited)

-- The columns that `edit_thread` writes.
abbrev pub set_text : Env → Text → Text → ThreadRow → ThreadRow
set_text env title body t = record t {
  title = title;
  name_key = some (normalize_name_key env.unicode_lower title);
  body = body;
  updated_at = env.now;
  edited_at = some env.now;
}

unfoldable pub edit_thread : Env → ℕ → ℕ → Text → Text → Db → Result Db
unfolding update_thread ensure_title_free thread_edited
edit_thread env actor_id thread_id title_input body_input db = do
  meta ← load_thread_meta_tx thread_id db
  actor ← ensure_can_modify_thread actor_id meta false db
  let title = trim (sanitize_single_line_text title_input)
  let body = trim (sanitize_stored_text body_input)
  ensure (not (is_empty title)) title_required
  ensure (not (is_empty body)) body_required
  ensure_title_free env meta title db
  thread_edited env actor_id thread_id meta title body
      (record db { chat = update_thread thread_id (set_text env title body) db.chat })

unfoldable pub rename_thread : Env → ℕ → ℕ → Text → Db → Result Db
unfolding update_thread ensure_title_free thread_edited
rename_thread env actor_id thread_id title_input db = do
  meta ← load_thread_meta_tx thread_id db
  actor ← ensure_can_modify_thread actor_id meta false db
  let title = trim (sanitize_single_line_text title_input)
  ensure (not (is_empty title)) title_required
  ensure_title_free env meta title db
  thread_edited env actor_id thread_id meta title meta.body (record db {
    chat =
        update_thread thread_id
          (λ t. record t {
            title = title;
            name_key = some (normalize_name_key env.unicode_lower title);
            updated_at = env.now;
            edited_at = some env.now;
          })
          db.chat;
  })

-- `ThreadFlag`
pub data ThreadFlag : Type 0 where
  archived pinned deleted : ThreadFlag

unfoldable pub is_pinned : ThreadFlag → Bool
is_pinned pinned = true
is_pinned _ = false

unfoldable pub is_deletion : ThreadFlag → Bool → Bool
is_deletion deleted enabled = enabled
is_deletion _ enabled = false

unfoldable pub flag_action : ThreadFlag → Bool → String
flag_action archived enabled = if enabled then "thread.archived" else "thread.unarchived"
flag_action pinned enabled = if enabled then "thread.pinned" else "thread.unpinned"
flag_action deleted enabled = "thread.deleted"

-- The column of the flag.
unfoldable pub set_flag : Env → ThreadFlag → Option ℕ → ThreadRow → ThreadRow
set_flag env archived value t = record t { archived_at = value; updated_at = env.now }
set_flag env pinned value t = record t { pinned_at = value; updated_at = env.now }
set_flag env deleted value t = record t { deleted_at = value; updated_at = env.now }

unfoldable pub update_thread_flag : Env → ℕ → ℕ → ThreadFlag → Bool → Db → Result Db
unfolding update_thread is_pinned is_deletion flag_action set_flag
update_thread_flag env actor_id thread_id flag enabled db = do
  meta ← load_thread_meta_tx thread_id db
  actor ← ensure_can_modify_thread actor_id meta (is_pinned flag) db
  let value = if enabled then some env.now else none
  let written : Db = record db { chat = update_thread thread_id (set_flag env flag value) db.chat }
  let cleared =
      if is_deletion flag enabled
      then delete_thread_labels_tx thread_id (delete_search_index_tx thread thread_id written)
      else written
  let action = flag_action flag enabled
  let audited =
      insert_audit env (some actor_id) action (some thread_id)
        (entry "channel_id" (num meta.channel_id) ∷ []) cleared
  ok (
      insert_event env (some meta.channel_id) (some thread_id) none action
        (entry "thread_id" (num thread_id) ∷ []) audited)

unfoldable pub delete_thread : Env → ℕ → ℕ → Db → Result Db
unfolding update_thread_flag
delete_thread env actor_id thread_id db = update_thread_flag env actor_id thread_id deleted true db

unfoldable pub set_thread_archived : Env → ℕ → ℕ → Bool → Db → Result Db
unfolding update_thread_flag
set_thread_archived env actor_id thread_id enabled db =
    update_thread_flag env actor_id thread_id archived enabled db

unfoldable pub set_thread_pinned : Env → ℕ → ℕ → Bool → Db → Result Db
unfolding update_thread_flag
set_thread_pinned env actor_id thread_id enabled db =
    update_thread_flag env actor_id thread_id pinned enabled db
