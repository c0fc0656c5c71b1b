-- ===== src/Feed/Frame.antt =====
-- The feed functions write the tables of the feed and no other, and a notification is appended
-- for an account that is not the actor and that can see the source.
use sshoosh.Base.{
  ℕ, ◌≡◌, refl, ◌∙◌, inl, inr, Option, some, List, [], ◌∷◌, ◌==◌, arith, Bool-cases, Option-cases,
}
use sshoosh.Text.{Text, codes}
use sshoosh.Db.{Db, Env, Source, NotificationKind, mention, reply, dm}
use sshoosh.Feed.Notify.{
  create_notification_tx, insert_mention, mention_target, mention_loop, notify_loop,
  create_mention_notifications_tx, create_thread_reply_notifications_tx, create_dm_notifications_tx,
  notification_body, thread_participants, dm_recipients,
}

-- The tables outside the feed.
pub record IsFeedOnly (before after : Db) : Type 0 where
  pub people : after.people ≡ before.people
  pub chat : after.chat ≡ before.chat

pub IsFeedOnly-refl : (db : Db) → IsFeedOnly db db
IsFeedOnly-refl db = record { people = refl; chat = refl }

pub IsFeedOnly-trans : (a b c : Db) → IsFeedOnly a b → IsFeedOnly b c → IsFeedOnly a c
IsFeedOnly-trans a b c p q = record { people = q.people ∙ p.people; chat = q.chat ∙ p.chat }

pub create_notification_tx-IsFeedOnly :
    (env : Env) (account_id : ℕ) (actor_id : Option ℕ) (kind : NotificationKind) (source : Source)
    (title body : Text) (db : Db)
    → IsFeedOnly db (create_notification_tx env account_id actor_id kind source title body db)
unfolding create_notification_tx
create_notification_tx-IsFeedOnly env account_id actor_id kind source title body db = record {
  people = ground arith;
  chat = ground arith;
}

module _ (env : Env) (actor_id : ℕ) (source : Source) (obj_index : Option ℕ)
    (title body : Text) where
  pub mention_loop-IsFeedOnly :
      (names : List Text) (targets : List ℕ) (db : Db)
      → IsFeedOnly db (mention_loop env actor_id source obj_index title body names targets db)
  unfolding mention_loop insert_mention
  mention_loop-IsFeedOnly [] targets db = IsFeedOnly-refl db
  mention_loop-IsFeedOnly (username ∷ rest) targets db =
      elim (Option-cases (mention_target env actor_id source username targets db)) [
        | inl e ↦ rw (mention_loop, e) (mention_loop-IsFeedOnly rest targets db)
        | inr (target_id, e) ↦
            let step =
              create_notification_tx-IsFeedOnly env target_id (some actor_id) mention source title
                body (insert_mention env target_id actor_id source obj_index db) in
            rw (mention_loop, e)
              (IsFeedOnly-trans db _ _ (record { people = step.people; chat = step.chat })
                (mention_loop-IsFeedOnly rest (target_id ∷ targets) _))
      ]

  pub create_mention_notifications_tx-IsFeedOnly :
      (db : Db)
      → IsFeedOnly db (create_mention_notifications_tx env actor_id source obj_index title body db)
  unfolding create_mention_notifications_tx
  create_mention_notifications_tx-IsFeedOnly db = mention_loop-IsFeedOnly _ [] db

module _ (env : Env) (actor_id : ℕ) (kind : NotificationKind) (source : Source)
    (title body : Text) where
  pub notify_loop-IsFeedOnly :
      (accounts : List ℕ) (db : Db)
      → IsFeedOnly db (notify_loop env actor_id kind source title body accounts db)
  unfolding notify_loop
  notify_loop-IsFeedOnly [] db = IsFeedOnly-refl db
  notify_loop-IsFeedOnly (account_id ∷ rest) db = elim (Bool-cases (account_id == actor_id)) [
    | inl e ↦ rw e (notify_loop-IsFeedOnly rest db)
    | inr e ↦ rw e (
        IsFeedOnly-trans db _ _
          (create_notification_tx-IsFeedOnly env account_id (some actor_id) kind source title body
            db)
          (notify_loop-IsFeedOnly rest _))
  ]

pub create_thread_reply_notifications_tx-IsFeedOnly :
    (env : Env) (actor_id thread_id channel_id : ℕ) (source : Source) (obj_index : ℕ)
    (title body : Text) (db : Db)
    → IsFeedOnly db (
        create_thread_reply_notifications_tx env actor_id thread_id channel_id source obj_index
          title body db)
unfolding create_thread_reply_notifications_tx
create_thread_reply_notifications_tx-IsFeedOnly env actor_id thread_id channel_id source obj_index
      title body db =
    notify_loop-IsFeedOnly env actor_id reply source title (notification_body obj_index body)
      (thread_participants thread_id channel_id db) db

pub create_dm_notifications_tx-IsFeedOnly :
    (env : Env) (actor_id conversation_id : ℕ) (source : Source) (obj_index : ℕ) (body : Text)
    (db : Db)
    → IsFeedOnly db
        (create_dm_notifications_tx env actor_id conversation_id source obj_index body db)
unfolding create_dm_notifications_tx
create_dm_notifications_tx-IsFeedOnly env actor_id conversation_id source obj_index body db =
    notify_loop-IsFeedOnly env actor_id dm source (codes "New DM")
      (notification_body obj_index body) (dm_recipients conversation_id db) db
