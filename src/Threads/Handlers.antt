-- ===== src/Threads/Handlers.antt =====
-- The handlers of threads and comments, each a transaction: its checks, its writes and its feed.
use sshoosh.Base.{
  ℕ, ◌+◌, Bool, true, false, ◌&&◌, ◌||◌, not, Option, none, some, [], ◌∷◌, ◌++◌, ◌==◌, is_none,
  is_some, if◌then◌else◌, Result, ok, constraint, no_row, thread_not_found, comment_body_required,
  only_own_comments, name_taken, title_required, ensure, some_or, ◌>>=◌, ◌>>◌,
}
use sshoosh.Base.Int.{pos}
use sshoosh.Base.Tables.{find, exists, update_where, upsert}
use sshoosh.Text.{Text, is_empty, text_eq, trim}
use sshoosh.Text.Sanitize.{sanitize_stored_text, sanitize_single_line_text}
use sshoosh.Text.Name.{normalize_name_key}
use sshoosh.Db.{Db, Env, ThreadRow, CommentRow, Source, num, comment}
use sshoosh.Feed.{entry, insert_event, insert_audit}
use sshoosh.Feed.Index.{
  upsert_search_index_tx, delete_search_index_tx, replace_labels_tx, delete_labels_tx,
}
use sshoosh.Feed.Notify.{source_is_visible}
use sshoosh.Guards.{
  Account, can_admin, load_account_tx, ensure_can_view_channel, load_thread_meta_tx,
  load_comment_meta_tx, load_channel_by_id_tx,
}
use sshoosh.Threads.Writes.{
  is_thread, is_read_of, new_read, write_comment, delete_comment_row, read_all, unread_last,
  upsert_thread_read_state,
}
use sshoosh.Threads.Projector.{thread_created, comment_created, comment_source}

-- `name_key = ?`, which a row without a key does not satisfy.
unfoldable pub is_named : Text → ThreadRow → Bool
is_named name_key t = elim t.name_key [ none ↦ false | some key ↦ text_eq key name_key ]

unfoldable pub active_thread_name_exists : Option ℕ → Text → Db → Bool
unfolding is_named
active_thread_name_exists none name_key db =
    if is_empty name_key
    then false
    else exists (λ t. is_named name_key t && is_none t.deleted_at && is_none t.archived_at)
        db.threads
active_thread_name_exists (some channel_id) name_key db =
    if is_empty name_key
    then false
    else exists
        (λ t.
          t.channel_id == channel_id
          && is_named name_key t
          && is_none t.deleted_at
          && is_none t.archived_at)
        db.threads

unfoldable pub active_channel_exists : Text → Db → Bool
active_channel_exists slug db =
    is_some (find (λ c. text_eq c.slug slug && is_none c.archived_at) db.channels)

unfoldable pub ensure_channel_name_available : Text → Db → Result (Unit {0})
unfolding active_channel_exists active_thread_name_exists
ensure_channel_name_available slug db = do
  ensure (not (active_channel_exists slug db)) name_taken
  ensure (not (active_thread_name_exists none slug db)) name_taken

unfoldable pub ensure_thread_name_available : ℕ → Text → Db → Result (Unit {0})
unfolding active_channel_exists active_thread_name_exists
ensure_thread_name_available channel_id title_key db = do
  ensure (not (active_channel_exists title_key db)) name_taken
  ensure (not (active_thread_name_exists (some channel_id) title_key db)) name_taken

-- The row that `create_thread` inserts; the counters take their defaults.
abbrev pub new_thread : Env → ℕ → ℕ → Text → Text → ThreadRow
new_thread env actor_id channel_id title title_key = record {
  id = env.id;
  channel_id = channel_id;
  creator_account_id = actor_id;
  title = title;
  name_key = some title_key;
  body = [];
  comment_count = 0;
  last_comment_index = 0;
  last_activity_at = env.now;
  created_at = env.now;
  updated_at = env.now;
  edited_at = none;
  archived_at = none;
  pinned_at = none;
  deleted_at = none;
}

unfoldable pub write_thread : Env → ℕ → ThreadRow → Db → Db
unfolding is_read_of
write_thread env actor_id row db = record db {
  chat = record db.chat {
    threads = db.threads ++ row ∷ [];
    thread_reads =
        upsert (is_read_of row.id actor_id) (new_read row.id actor_id)
          (λ r. record r { last_read_index = pos 0; unread_count = 0 }) db.thread_reads;
  };
}

unfoldable pub create_thread : Env → ℕ → ℕ → Text → Db → Result (ℕ × Db)
create_thread env actor_id channel_id input db = do
  let title = trim (sanitize_single_line_text input)
  ensure (not (is_empty title)) title_required
  let title_key = normalize_name_key env.unicode_lower title
  ensure (not (is_empty title_key)) title_required
  ensure_can_view_channel actor_id channel_id db
  ensure_thread_name_available channel_id title_key db
  ensure (not (exists (is_thread env.id) db.threads)) constraint
  let row = new_thread env actor_id channel_id title title_key
  let written = write_thread env actor_id row db
  channel ← some_or (find (λ c. c.id == channel_id) written.channels) no_row
  ok (env.id, thread_created env actor_id env.id channel_id channel.slug title [] written)

unfoldable pub add_comment : Env → ℕ → ℕ → Text → Db → Result Db
add_comment env actor_id thread_id input db = do
  let body = trim (sanitize_stored_text input)
  ensure (not (is_empty body)) comment_body_required
  thread ←
      some_or (find (λ t. is_thread thread_id t && is_none t.deleted_at) db.threads)
        thread_not_found
  ensure_can_view_channel actor_id thread.channel_id db
  chat ← write_comment env actor_id thread body db.chat
  let written : Db = record db { chat = chat }
  title ← some_or (find (is_thread thread_id) written.threads) no_row
  channel ← some_or (find (λ c. c.id == thread.channel_id) written.channels) no_row
  ok (
      comment_created env actor_id env.id thread.channel_id channel.slug thread_id title.title
        (thread.last_comment_index + 1) body written)

unfoldable pub can_moderate : Account → ℕ → ℕ → Bool
can_moderate actor actor_id created_by = can_admin actor.role || created_by == actor_id

-- The checks that `update_comment_body` and `soft_delete_comment` share, and what they load.
unfoldable pub load_own_comment : ℕ → ℕ → ℕ → Db → Result (ThreadRow × CommentRow × Text)
unfolding can_moderate
load_own_comment actor_id thread_id obj_index db = do
  thread ← load_thread_meta_tx thread_id db
  ensure_can_view_channel actor_id thread.channel_id db
  row ← load_comment_meta_tx thread_id obj_index db
  actor ← load_account_tx actor_id db
  channel ← load_channel_by_id_tx thread.channel_id db
  ensure
      (can_moderate actor actor_id channel.created_by_account_id
        || row.author_account_id == actor_id)
      only_own_comments
  ok (thread, row, channel.slug)

unfoldable pub set_comment_body : Env → ℕ → Text → Db → Db
set_comment_body env comment_id body db = record db {
  chat = record db.chat {
    comments =
        update_where (λ c. c.id == comment_id)
          (λ c. record c { body = body; updated_at = env.now; edited_at = some env.now })
          db.comments;
  };
}

unfoldable pub update_comment_body : Env → ℕ → ℕ → ℕ → Text → Db → Result Db
unfolding set_comment_body
update_comment_body env actor_id thread_id obj_index input db = do
  let body = trim (sanitize_stored_text input)
  ensure (not (is_empty body)) comment_body_required
  (thread, row, slug) ← load_own_comment actor_id thread_id obj_index db
  let source = comment_source row.id thread_id thread.channel_id
  let written = set_comment_body env row.id body db
  let searched = upsert_search_index_tx source thread.title body (b'#' ∷ slug) written
  let labelled = replace_labels_tx source (some row.obj_index) body row.created_at searched
  let audited =
      insert_audit env (some actor_id) "comment.edited" (some row.id)
        (entry "thread_id" (num thread_id) ∷ []) labelled
  ok (
      insert_event env (some thread.channel_id) (some thread_id) none "comment.edited"
        (entry "thread_id" (num thread_id) ∷ entry "obj_index" (num obj_index) ∷ []) audited)

unfoldable pub soft_delete_comment : Env → ℕ → ℕ → ℕ → Db → Result Db
soft_delete_comment env actor_id thread_id obj_index db = do
  (thread, row, slug) ← load_own_comment actor_id thread_id obj_index db
  let written : Db = record db { chat = delete_comment_row env thread_id row db.chat }
  let unsearched = delete_search_index_tx comment row.id written
  let unlabelled = delete_labels_tx comment row.id unsearched
  let audited =
      insert_audit env (some actor_id) "comment.deleted" (some row.id)
        (entry "thread_id" (num thread_id) ∷ []) unlabelled
  ok (
      insert_event env (some thread.channel_id) (some thread_id) none "comment.deleted"
        (entry "thread_id" (num thread_id) ∷ entry "obj_index" (num obj_index) ∷ []) audited)

-- `UPDATE notifications …` and `UPDATE mentions SET read_at = COALESCE(read_at, ?) …`
coalesce : Option ℕ → ℕ → Option ℕ
coalesce none now = some now
coalesce (some at) now = some at

is_of_thread : ℕ → Source → Bool
is_of_thread thread_id source = elim source.thread_id [ none ↦ false | some t ↦ t == thread_id ]

unfoldable pub mark_feed_read : Env → ℕ → (Source → Bool) → Db → Db
unfolding coalesce
mark_feed_read env account_id of db = record db {
  feed = record db.feed {
    notifications =
        update_where
          (λ n.
            n.account_id == account_id && of n.source && source_is_visible n.account_id n.source db)
          (λ n. record n { read_at = coalesce n.read_at env.now }) db.notifications;
    mentions =
        update_where
          (λ m.
            m.target_account_id == account_id
            && of m.source
            && source_is_visible m.target_account_id m.source db)
          (λ m. record m { read_at = coalesce m.read_at env.now }) db.mentions;
  };
}

unfoldable pub mark_thread_read : Env → ℕ → ℕ → Db → Result Db
unfolding is_of_thread
mark_thread_read env account_id thread_id db = do
  thread ← load_thread_meta_tx thread_id db
  ensure_can_view_channel account_id thread.channel_id db
  last ← some_or (find (is_thread thread_id) db.threads) no_row
  let written : Db = record db {
    chat = read_all thread_id account_id last.last_comment_index db.chat;
  }
  ok (mark_feed_read env account_id (is_of_thread thread_id) written)

unfoldable pub mark_thread_unread : Env → ℕ → ℕ → Db → Result Db
mark_thread_unread env account_id thread_id db = do
  thread ← load_thread_meta_tx thread_id db
  ensure_can_view_channel account_id thread.channel_id db
  last ← some_or (find (is_thread thread_id) db.threads) no_row
  ok (record db { chat = unread_last env thread_id account_id last.last_comment_index db.chat })

-- `until` is the timestamp that `ttl_hours.and_then(timestamp_after_hours)` gives.
unfoldable pub set_thread_muted : Env → ℕ → ℕ → Option ℕ → Db → Result Db
set_thread_muted env actor_id thread_id until db = do
  thread ← load_thread_meta_tx thread_id db
  ensure_can_view_channel actor_id thread.channel_id db
  let written : Db = record db {
    chat = upsert_thread_read_state actor_id thread_id true until false none db.chat;
  }
  ok (
      insert_audit env (some actor_id) (if is_some until then "thread.muted" else "thread.unmuted")
        (some thread_id) [] written)

unfoldable pub set_thread_saved : Env → ℕ → ℕ → Bool → Db → Result Db
set_thread_saved env actor_id thread_id saved db = do
  thread ← load_thread_meta_tx thread_id db
  ensure_can_view_channel actor_id thread.channel_id db
  let saved_at = if saved then some env.now else none
  let written : Db = record db {
    chat = upsert_thread_read_state actor_id thread_id false none true saved_at db.chat;
  }
  ok (
      insert_audit env (some actor_id) (if saved then "thread.saved" else "thread.unsaved")
        (some thread_id) [] written)
