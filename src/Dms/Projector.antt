-- ===== src/Dms/Projector.antt =====
-- `MessageWriteProjector::dm_created` (src/features/shared/write_ops.rs): what a direct message
-- leaves in the feed.
use sshoosh.Base.{ℕ, none, some, [], ◌∷◌}
use sshoosh.Text.{Text, codes}
use sshoosh.Db.{Db, Env, Source, dm, num}
use sshoosh.Feed.{entry, insert_event}
use sshoosh.Feed.Index.{upsert_search_index_tx, replace_labels_tx}
use sshoosh.Feed.Notify.{create_mention_notifications_tx, create_dm_notifications_tx}

abbrev pub dm_source : ℕ → ℕ → Source
dm_source message_id conversation_id = record {
  kind = dm;
  object_id = message_id;
  channel_id = none;
  thread_id = none;
  conversation_id = some conversation_id;
}

unfoldable pub dm_created : Env → ℕ → ℕ → ℕ → ℕ → Text → Db → Db
dm_created env actor_id conversation_id message_id obj_index body db =
    let source = dm_source message_id conversation_id in
    let searched = upsert_search_index_tx source (codes "DM") body (codes "DM") db in
    let notified =
      create_dm_notifications_tx env actor_id conversation_id source obj_index body searched in
    let mentioned =
      create_mention_notifications_tx env actor_id source (some obj_index) (codes "DM") body
        notified in
    let labelled = replace_labels_tx source (some obj_index) body env.now mentioned in
    insert_event env none none (some conversation_id) "conversation.message_created"
      (entry "conversation_id" (num conversation_id) ∷ entry "obj_index" (num obj_index) ∷ [])
      labelled
