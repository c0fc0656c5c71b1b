-- ===== src/Threads/Projector/Notified.antt =====
-- What the projector may change: the feed, with notifications for others who see the source.
use sshoosh.Base.{ℕ, refl, none, some}
use sshoosh.Text.{Text}
use sshoosh.Db.{Db, Env}
use sshoosh.Feed.{insert_event}
use sshoosh.Feed.Index.{upsert_search_index_tx, replace_labels_tx, delete_labels_tx}
use sshoosh.Feed.Privacy.{
  IsNotified, IsNotified-quiet, IsNotified-trans, create_mention_notifications_tx-IsNotified,
  create_thread_reply_notifications_tx-IsNotified,
}
use sshoosh.Threads.Projector.{thread_created, comment_created, thread_source, comment_source}

pub thread_created-IsNotified :
    (env : Env) (actor_id thread_id channel_id : ℕ) (slug title body : Text) (db : Db)
    → IsNotified actor_id
        (thread_source thread_id channel_id)
        db
        (thread_created env actor_id thread_id channel_id slug title body db)
unfolding thread_created upsert_search_index_tx replace_labels_tx delete_labels_tx insert_event
thread_created-IsNotified env actor_id thread_id channel_id slug title body db =
    IsNotified-trans actor_id (thread_source thread_id channel_id) db _ _
      (IsNotified-trans actor_id (thread_source thread_id channel_id) db _ _
        (IsNotified-quiet actor_id (thread_source thread_id channel_id) db _
          (record { people = refl; chat = refl }) refl)
        (create_mention_notifications_tx-IsNotified env actor_id
          (thread_source thread_id channel_id) none title body _))
      (IsNotified-quiet actor_id (thread_source thread_id channel_id) _ _
        (record { people = refl; chat = refl }) refl)

pub comment_created-IsNotified :
    (env : Env) (actor_id comment_id channel_id : ℕ) (slug : Text) (thread_id : ℕ) (title : Text)
    (obj_index : ℕ) (body : Text) (db : Db)
    → IsNotified actor_id
        (comment_source comment_id thread_id channel_id)
        db
        (comment_created env actor_id comment_id channel_id slug thread_id title obj_index body db)
unfolding comment_created upsert_search_index_tx replace_labels_tx delete_labels_tx insert_event
comment_created-IsNotified env actor_id comment_id channel_id slug thread_id title obj_index body
      db =
    IsNotified-trans actor_id (comment_source comment_id thread_id channel_id) db _ _
      (IsNotified-trans actor_id (comment_source comment_id thread_id channel_id) db _ _
        (IsNotified-trans actor_id (comment_source comment_id thread_id channel_id) db _ _
          (IsNotified-quiet actor_id (comment_source comment_id thread_id channel_id) db _
            (record { people = refl; chat = refl }) refl)
          (create_mention_notifications_tx-IsNotified env actor_id
            (comment_source comment_id thread_id channel_id) (some obj_index) title body _))
        (create_thread_reply_notifications_tx-IsNotified env actor_id thread_id channel_id
          (comment_source comment_id thread_id channel_id) obj_index title body _))
      (IsNotified-quiet actor_id (comment_source comment_id thread_id channel_id) _ _
        (record { people = refl; chat = refl }) refl)
