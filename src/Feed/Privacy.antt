-- ===== src/Feed/Privacy.antt =====
-- Who is notified: the notifications that the feed functions append.
use sshoosh.Base.{
  ℕ, ◌≡◌, refl, sym, ap, ◌∙◌, inl, inr, true, false, ◌&&◌, Option, none, some, List, [], ◌∷◌, ◌==◌,
  arith, Bool-cases, Option-cases,
}
use mathlib.Core.Path.{subst}
use sshoosh.Base.Tables.{All, exists}
use sshoosh.Base.Tables.Rows.{All-append}
use sshoosh.Text.{Text, codes}
use sshoosh.Db.{
  Db, Env, Chat, People, Source, NotificationKind, NotificationRow, mention, reply, dm,
}
use sshoosh.Feed.Notify.{
  account_can_view_source_tx, create_notification_tx, insert_mention, mention_target, mention_loop,
  notify_loop, create_mention_notifications_tx, create_thread_reply_notifications_tx,
  create_dm_notifications_tx, notification_body, thread_participants, dm_recipients,
  source_is_visible, is_active_account, in_channel, in_conversation, is_member, is_participant,
  is_same_account, thread_is_muted, conversation_is_muted, is_active,
}
use sshoosh.Feed.Frame.{
  IsFeedOnly, IsFeedOnly-refl, IsFeedOnly-trans, create_notification_tx-IsFeedOnly,
}

-- The row is about the source, not for the actor, and its account can see the source.
pub record IsFair (actor_id : ℕ) (source : Source) (db : Db) (n : NotificationRow) : Type 0 where
  pub about : n.source ≡ source
  pub not_actor : (actor_id == n.account_id) ≡ false
  pub visible : source_is_visible n.account_id n.source db ≡ true

-- Every row of the later table that is not in the earlier one is fair: a predicate of all earlier
-- rows that every fair row has is one of all later rows.
pub record IsNotified (actor_id : ℕ) (source : Source) (before after : Db) : Type 1 where
  pub frame : IsFeedOnly before after
  pub fair :
      (P : NotificationRow → Type 0)
      → ((n : NotificationRow) → IsFair actor_id source before n → P n)
      → All P before.notifications
      → All P after.notifications

in_channel-frame :
    (channel_id : Option ℕ) (account_id : ℕ) (before after : Db)
    → IsFeedOnly before after
    → in_channel channel_id account_id after ≡ in_channel channel_id account_id before
unfolding in_channel is_member
in_channel-frame none account_id before after frame = refl
in_channel-frame (some channel_id) account_id before after frame =
    ap
      (λ (chat : Chat).
        exists (λ m. m.channel_id == channel_id && m.account_id == account_id) chat.channel_members)
      frame.chat

in_conversation-frame :
    (conversation_id : Option ℕ) (account_id : ℕ) (before after : Db)
    → IsFeedOnly before after
    → in_conversation conversation_id account_id after
      ≡ in_conversation conversation_id account_id before
unfolding in_conversation is_participant
in_conversation-frame none account_id before after frame = refl
in_conversation-frame (some conversation_id) account_id before after frame =
    ap
      (λ (chat : Chat).
        exists (λ m. m.conversation_id == conversation_id && m.account_id == account_id)
          chat.conversation_members)
      frame.chat

is_active_account-frame :
    (account_id : ℕ) (before after : Db)
    → IsFeedOnly before after
    → is_active_account account_id after ≡ is_active_account account_id before
unfolding is_active_account
is_active_account-frame account_id before after frame =
    ap (λ (people : People). exists (λ a. a.id == account_id && is_active a) people.accounts)
      frame.people

pub source_is_visible-frame :
    (account_id : ℕ) (source : Source) (before after : Db)
    → IsFeedOnly before after
    → source_is_visible account_id source after ≡ source_is_visible account_id source before
unfolding source_is_visible
source_is_visible-frame account_id source before after frame = ground (
  arith,
  is_active_account-frame account_id before after frame,
  in_channel-frame source.channel_id account_id before after frame,
  in_conversation-frame source.conversation_id account_id before after frame,
)

IsNotified-refl : (actor_id : ℕ) (source : Source) (db : Db) → IsNotified actor_id source db db
IsNotified-refl actor_id source db = record { frame = IsFeedOnly-refl db; fair = λ P fair h. h }

pub IsNotified-trans :
    (actor_id : ℕ) (source : Source) (a b c : Db)
    → IsNotified actor_id source a b
    → IsNotified actor_id source b c
    → IsNotified actor_id source a c
IsNotified-trans actor_id source a b c p q = record {
  frame = IsFeedOnly-trans a b c p.frame q.frame;
  fair = λ P fair h.
      q.fair P
        (λ n f. fair n (record {
          about = f.about;
          not_actor = f.not_actor;
          visible = sym (source_is_visible-frame n.account_id n.source a b p.frame) ∙ f.visible;
        }))
        (p.fair P fair h);
}

-- A step that leaves the notifications as they are.
pub IsNotified-quiet :
    (actor_id : ℕ) (source : Source) (before after : Db)
    → IsFeedOnly before after
    → after.notifications ≡ before.notifications
    → IsNotified actor_id source before after
IsNotified-quiet actor_id source before after frame same = record {
  frame = frame;
  fair = λ P fair h. subst (All P) (sym same) h;
}

view-visible :
    (account_id : ℕ) (source : Source) (db : Db)
    → account_can_view_source_tx account_id source.channel_id source.conversation_id db ≡ true
    → source_is_visible account_id source db ≡ true
unfolding account_can_view_source_tx source_is_visible
view-visible account_id source db h = ground arith

module _ (env : Env) (account_id actor_id : ℕ) (kind : NotificationKind) (source : Source)
    (title body : Text) where
  -- Every notification of the later state is an earlier one or a fair one.
  created :
      (db : Db) (P : NotificationRow → Type 0)
      → ((n : NotificationRow) → IsFair actor_id source db n → P n)
      → All P db.notifications
      → All P
          (create_notification_tx env account_id
            (some actor_id)
            kind
            source
            title
            body
            db).notifications
  unfolding create_notification_tx is_same_account
  created db P fair h = elim (Bool-cases (actor_id == account_id)) [
    | inl e ↦ rw e h
    | inr e ↦
        elim (Bool-cases
          (account_can_view_source_tx account_id source.channel_id source.conversation_id db)) [
            | inr d ↦ rw (e, d) h
            | inl d ↦ elim (Bool-cases (thread_is_muted env source.thread_id account_id db)) [
              | inl t ↦ rw (e, d, t) h
              | inr t ↦
                  elim (Bool-cases
                    (conversation_is_muted env source.conversation_id account_id db)) [
                      | inl c ↦ rw (e, d, t, c) h
                      | inr c ↦
                          rw (e, d, t, c)
                            (All-append P db.notifications _ h (
                              fair _ (record {
                                about = refl;
                                not_actor = e;
                                visible = view-visible account_id source db d;
                              })))
                    ]
            ]
          ]
  ]

  pub create_notification_tx-IsNotified :
      (db : Db)
      → IsNotified actor_id source db
          (create_notification_tx env account_id (some actor_id) kind source title body db)
  create_notification_tx-IsNotified db = record {
    frame =
        create_notification_tx-IsFeedOnly env account_id (some actor_id) kind source title body db;
    fair = created db;
  }

module _ (env : Env) (actor_id : ℕ) (source : Source) (obj_index : Option ℕ)
    (title body : Text) where
  mention_loop-IsNotified :
      (names : List Text) (targets : List ℕ) (db : Db)
      → IsNotified actor_id source db
          (mention_loop env actor_id source obj_index title body names targets db)
  unfolding mention_loop insert_mention
  mention_loop-IsNotified [] targets db = IsNotified-refl actor_id source db
  mention_loop-IsNotified (username ∷ rest) targets db =
      elim (Option-cases (mention_target env actor_id source username targets db)) [
        | inl e ↦ rw (mention_loop, e) (mention_loop-IsNotified rest targets db)
        | inr (target_id, e) ↦
            rw (mention_loop, e)
              (IsNotified-trans actor_id source db _ _
                (IsNotified-trans actor_id source db _ _
                  (IsNotified-quiet actor_id source db _ (record { people = refl; chat = refl })
                    refl)
                  (create_notification_tx-IsNotified env target_id actor_id mention source title
                    body (insert_mention env target_id actor_id source obj_index db)))
                (mention_loop-IsNotified rest (target_id ∷ targets) _))
      ]

  pub create_mention_notifications_tx-IsNotified :
      (db : Db)
      → IsNotified actor_id source db
          (create_mention_notifications_tx env actor_id source obj_index title body db)
  unfolding create_mention_notifications_tx
  create_mention_notifications_tx-IsNotified db = mention_loop-IsNotified _ [] db

module _ (env : Env) (actor_id : ℕ) (kind : NotificationKind) (source : Source)
    (title body : Text) where
  notify_loop-IsNotified :
      (accounts : List ℕ) (db : Db)
      → IsNotified actor_id source db (notify_loop env actor_id kind source title body accounts db)
  unfolding notify_loop
  notify_loop-IsNotified [] db = IsNotified-refl actor_id source db
  notify_loop-IsNotified (account_id ∷ rest) db = elim (Bool-cases (account_id == actor_id)) [
    | inl e ↦ rw e (notify_loop-IsNotified rest db)
    | inr e ↦ rw e (
        IsNotified-trans actor_id source db _ _
          (create_notification_tx-IsNotified env account_id actor_id kind source title body db)
          (notify_loop-IsNotified rest _))
  ]

pub create_thread_reply_notifications_tx-IsNotified :
    (env : Env) (actor_id thread_id channel_id : ℕ) (source : Source) (obj_index : ℕ)
    (title body : Text) (db : Db)
    → IsNotified actor_id source db (
        create_thread_reply_notifications_tx env actor_id thread_id channel_id source obj_index
          title body db)
unfolding create_thread_reply_notifications_tx
create_thread_reply_notifications_tx-IsNotified env actor_id thread_id channel_id source obj_index
      title body db =
    notify_loop-IsNotified env actor_id reply source title (notification_body obj_index body)
      (thread_participants thread_id channel_id db) db

pub create_dm_notifications_tx-IsNotified :
    (env : Env) (actor_id conversation_id : ℕ) (source : Source) (obj_index : ℕ) (body : Text)
    (db : Db)
    → IsNotified actor_id source db
        (create_dm_notifications_tx env actor_id conversation_id source obj_index body db)
unfolding create_dm_notifications_tx
create_dm_notifications_tx-IsNotified env actor_id conversation_id source obj_index body db =
    notify_loop-IsNotified env actor_id dm source (codes "New DM")
      (notification_body obj_index body) (dm_recipients conversation_id db) db
