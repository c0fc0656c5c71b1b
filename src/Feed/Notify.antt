-- ===== src/Feed/Notify.antt =====
-- Mentions and notifications. A loop that inserts rows is a recursion on the list it walks.
use sshoosh.Base.{
  ℕ, Bool, true, false, ◌&&◌, ◌||◌, not, Option, none, some, List, [], ◌∷◌, ◌++◌, map, ltb, ◌==◌,
  is_some, is_none, if◌then◌else◌,
}
use sshoosh.Base.Tables.{find, exists, select_where}
use sshoosh.Text.{Text, codes, decimal, text_eq}
use sshoosh.Text.Sanitize.{sanitize_stored_text, sanitize_single_line_text}
use sshoosh.Text.Mention.{parse_mentions}
use sshoosh.Db.{Db, Env, Source, NotificationKind, AccountRow, mention, dm, reply}

unfoldable pub is_active : AccountRow → Bool
is_active a = is_some a.activated_at && is_none a.disabled_at

unfoldable pub is_member : ℕ → ℕ → Db → Bool
is_member channel_id account_id db =
    exists (λ m. m.channel_id == channel_id && m.account_id == account_id) db.channel_members

unfoldable pub is_participant : ℕ → ℕ → Db → Bool
is_participant conversation_id account_id db =
    exists (λ m. m.conversation_id == conversation_id && m.account_id == account_id)
      db.conversation_members

unfoldable pub in_channel : Option ℕ → ℕ → Db → Bool
unfolding is_member
in_channel none account_id db = true
in_channel (some channel_id) account_id db = is_member channel_id account_id db

unfoldable pub in_conversation : Option ℕ → ℕ → Db → Bool
unfolding is_participant
in_conversation none account_id db = true
in_conversation (some conversation_id) account_id db = is_participant conversation_id account_id db

unfoldable pub is_active_account : ℕ → Db → Bool
unfolding is_active
is_active_account account_id db = exists (λ a. a.id == account_id && is_active a) db.accounts

unfoldable pub account_can_view_source_tx : ℕ → Option ℕ → Option ℕ → Db → Bool
unfolding is_active_account in_channel in_conversation
account_can_view_source_tx account_id channel_id conversation_id db =
    if not (is_active_account account_id db)
    then false
    else if not (in_channel channel_id account_id db)
    then false
    else in_conversation conversation_id account_id db

-- `muted_until IS NOT NULL AND muted_until > now`
is_muted_until : Env → Option ℕ → Bool
is_muted_until env none = false
is_muted_until env (some until) = ltb env.now until

unfoldable pub thread_is_muted : Env → Option ℕ → ℕ → Db → Bool
unfolding is_muted_until
thread_is_muted env none account_id db = false
thread_is_muted env (some thread_id) account_id db =
    exists
      (λ r.
        r.thread_id == thread_id && r.account_id == account_id && is_muted_until env r.muted_until)
      db.thread_reads

unfoldable pub conversation_is_muted : Env → Option ℕ → ℕ → Db → Bool
unfolding is_muted_until
conversation_is_muted env none account_id db = false
conversation_is_muted env (some conversation_id) account_id db =
    exists
      (λ m.
        m.conversation_id == conversation_id
        && m.account_id == account_id
        && is_muted_until env m.muted_until)
      db.conversation_members

unfoldable pub is_same_account : Option ℕ → ℕ → Bool
is_same_account none account_id = false
is_same_account (some actor_id) account_id = actor_id == account_id

unfoldable pub create_notification_tx :
    Env → ℕ → Option ℕ → NotificationKind → Source → Text → Text → Db → Db
unfolding is_same_account thread_is_muted conversation_is_muted
create_notification_tx env account_id actor_id kind source title body db =
    if is_same_account actor_id account_id
    then db
    else if not (account_can_view_source_tx account_id source.channel_id source.conversation_id db)
    then db
    else if thread_is_muted env source.thread_id account_id db
    then db
    else if conversation_is_muted env source.conversation_id account_id db
    then db
    else record db {
      feed = record db.feed {
        notifications =
            db.notifications
            ++ record {
              account_id = account_id;
              actor_account_id = actor_id;
              kind = kind;
              source = source;
              title = sanitize_single_line_text title;
              body = sanitize_stored_text body;
              created_at = env.now;
              read_at = none;
            }
              ∷ [];
      };
    }

-- The account that a mentioned username names, if it is active.
mentioned_account : Env → Text → Db → Option AccountRow
unfolding is_active
mentioned_account env username db =
    find (λ a. text_eq (env.sql_lower a.username) (env.sql_lower username) && is_active a)
      db.accounts

unfoldable pub insert_mention : Env → ℕ → ℕ → Source → Option ℕ → Db → Db
insert_mention env target_id actor_id source obj_index db = record db {
  feed = record db.feed {
    mentions =
        db.mentions
        ++ record {
          target_account_id = target_id;
          actor_account_id = actor_id;
          source = source;
          obj_index = obj_index;
          created_at = env.now;
          read_at = none;
        }
          ∷ [];
  };
}

unfoldable pub mem_ℕ : ℕ → List ℕ → Bool
mem_ℕ a [] = false
mem_ℕ a (x ∷ xs) = a == x || mem_ℕ a xs

-- One round of the loop over the usernames: the target to add to the set, if the round gets so far.
unfoldable pub mention_target : Env → ℕ → Source → Text → List ℕ → Db → Option ℕ
unfolding mentioned_account mem_ℕ
mention_target env actor_id source username targets db = elim (mentioned_account env username db) [
  | none ↦ none
  | some row ↦
      if row.id == actor_id || mem_ℕ row.id targets
      then none
      else if not (account_can_view_source_tx row.id source.channel_id source.conversation_id db)
      then none
      else some row.id
]

unfoldable pub mention_loop :
    Env → ℕ → Source → Option ℕ → Text → Text → List Text → List ℕ → Db → Db
unfolding mention_target insert_mention
mention_loop env actor_id source obj_index title body [] targets db = db
mention_loop env actor_id source obj_index title body (username ∷ rest) targets db =
    elim (mention_target env actor_id source username targets db) [
      | none ↦ mention_loop env actor_id source obj_index title body rest targets db
      | some target_id ↦
          mention_loop env actor_id source obj_index title body rest (target_id ∷ targets) (
            create_notification_tx env target_id (some actor_id) mention source title body
              (insert_mention env target_id actor_id source obj_index db))
    ]

unfoldable pub create_mention_notifications_tx : Env → ℕ → Source → Option ℕ → Text → Text → Db → Db
unfolding mention_loop
create_mention_notifications_tx env actor_id source obj_index title body db =
    mention_loop env actor_id source obj_index title body (parse_mentions env.unicode_lower body) []
      db

-- `UNION` keeps one of each.
union : List ℕ → List ℕ → List ℕ
unfolding mem_ℕ
union [] seen = []
union (a ∷ xs) seen =
    let rest = union xs seen in
    let added = union xs (a ∷ seen) in if mem_ℕ a seen then rest else a ∷ added

unfoldable pub thread_participants : ℕ → ℕ → Db → List ℕ
unfolding union
thread_participants thread_id channel_id db =
    select_where (λ a. is_member channel_id a db)
      (union
        (map (λ t. t.creator_account_id) (select_where (λ t. t.id == thread_id) db.threads)
          ++ map (λ c. c.author_account_id)
              (select_where (λ c. c.thread_id == thread_id && is_none c.deleted_at) db.comments))
        [])

-- The loops over the participants and over the members of a conversation.
unfoldable pub notify_loop : Env → ℕ → NotificationKind → Source → Text → Text → List ℕ → Db → Db
notify_loop env actor_id kind source title body [] db = db
notify_loop env actor_id kind source title body (account_id ∷ rest) db =
    notify_loop env actor_id kind source title body rest (
      if account_id == actor_id
      then db
      else create_notification_tx env account_id (some actor_id) kind source title body db)

-- `format!("#{}: {}", obj_index, body)`
unfoldable pub notification_body : ℕ → Text → Text
notification_body obj_index body = b'#' ∷ decimal obj_index ++ codes ": " ++ body

unfoldable pub create_thread_reply_notifications_tx :
    Env → ℕ → ℕ → ℕ → Source → ℕ → Text → Text → Db → Db
unfolding notify_loop notification_body
create_thread_reply_notifications_tx env actor_id thread_id channel_id source obj_index title body
      db =
    notify_loop env actor_id reply source title (notification_body obj_index body)
      (thread_participants thread_id channel_id db) db

-- `SELECT m.account_id FROM conversation_members m JOIN accounts a …`
unfoldable pub dm_recipients : ℕ → Db → List ℕ
dm_recipients conversation_id db =
    map (λ m. m.account_id)
      (select_where (λ m. m.conversation_id == conversation_id && is_active_account m.account_id db)
        db.conversation_members)

unfoldable pub create_dm_notifications_tx : Env → ℕ → ℕ → Source → ℕ → Text → Db → Db
unfolding notify_loop notification_body
create_dm_notifications_tx env actor_id conversation_id source obj_index body db =
    notify_loop env actor_id dm source (codes "New DM") (notification_body obj_index body)
      (dm_recipients conversation_id db) db

-- `visible_source_sql`: the account of the row is active and still in the source's place.
unfoldable pub source_is_visible : ℕ → Source → Db → Bool
unfolding is_active_account in_channel in_conversation
source_is_visible account_id source db =
    is_active_account account_id db
    && in_channel source.channel_id account_id db
    && in_conversation source.conversation_id account_id db
