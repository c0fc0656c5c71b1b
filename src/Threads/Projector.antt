-- ===== src/Threads/Projector.antt =====
-- `MessageWriteProjector` (src/features/shared/write_ops.rs): what a new thread and a new comment
-- leave in the feed.
pub mod Notified
use sshoosh.Base.{ℕ, Option, none, some, List, [], ◌∷◌, ◌++◌}
use sshoosh.Text.{Text}
use sshoosh.Db.{Db, Env, Source, thread, comment, Json, num, text, Payload}
use sshoosh.Feed.{entry, insert_event}
use sshoosh.Feed.Index.{upsert_search_index_tx, replace_labels_tx, thread_label_text}
use sshoosh.Feed.Notify.{create_mention_notifications_tx, create_thread_reply_notifications_tx}

-- The sources of a thread and of a comment.
abbrev pub thread_source : ℕ → ℕ → Source
thread_source thread_id channel_id = record {
  kind = thread;
  object_id = thread_id;
  channel_id = some channel_id;
  thread_id = some thread_id;
  conversation_id = none;
}

abbrev pub comment_source : ℕ → ℕ → ℕ → Source
comment_source comment_id thread_id channel_id = record {
  kind = comment;
  object_id = comment_id;
  channel_id = some channel_id;
  thread_id = some thread_id;
  conversation_id = none;
}

unfoldable pub thread_created : Env → ℕ → ℕ → ℕ → Text → Text → Text → Db → Db
thread_created env actor_id thread_id channel_id channel_slug title body db =
    let source = thread_source thread_id channel_id in
    let searched = upsert_search_index_tx source title body (b'#' ∷ channel_slug) db in
    let mentioned = create_mention_notifications_tx env actor_id source none title body searched in
    let labelled = replace_labels_tx source none (thread_label_text title body) env.now mentioned in
    insert_event env (some channel_id) (some thread_id) none "thread.created"
      (entry "thread_id" (num thread_id)
        ∷ entry "channel_id" (num channel_id)
        ∷ entry "title" (text title)
        ∷ [])
      labelled

unfoldable pub comment_created : Env → ℕ → ℕ → ℕ → Text → ℕ → Text → ℕ → Text → Db → Db
comment_created env actor_id comment_id channel_id channel_slug thread_id title obj_index body db =
    let source = comment_source comment_id thread_id channel_id in
    let searched = upsert_search_index_tx source title body (b'#' ∷ channel_slug) db in
    let mentioned =
      create_mention_notifications_tx env actor_id source (some obj_index) title body searched in
    let notified =
      create_thread_reply_notifications_tx env actor_id thread_id channel_id source obj_index title
        body mentioned in
    let labelled = replace_labels_tx source (some obj_index) body env.now notified in
    insert_event env (some channel_id) (some thread_id) none "comment.created"
      (entry "thread_id" (num thread_id)
        ∷ entry "channel_id" (num channel_id)
        ∷ entry "obj_index" (num obj_index)
        ∷ [])
      labelled
