-- ===== src/Dms/Writes.antt =====
-- The statements on the tables `conversations`, `conversation_members` and `conversation_messages`.
use sshoosh.Base.{
  ℕ, ◌+◌, ◌-◌, Bool, ◌&&◌, ◌||◌, not, none, some, List, [], ◌∷◌, ◌++◌, ◌==◌, leb, ltb, is_none,
  if◌then◌else◌, Result, ok, err, constraint, ◌>>=◌,
}
use sshoosh.Base.Int.{ℤ, pos, below, pred_ℤ}
use sshoosh.Base.Tables.{count, exists, update_where}
use sshoosh.Text.{Text}
use sshoosh.Db.{Chat, Env, DmKey, ConversationRow, ConversationMemberRow, MessageRow}

unfoldable pub dm_key : ℕ → ℕ → DmKey
dm_key a b = if leb a b then (a, b) else (b, a)

unfoldable pub same_key : DmKey → DmKey → Bool
same_key (a, b) (c, d) = a == c && b == d

unfoldable pub is_conversation : ℕ → ConversationRow → Bool
is_conversation conversation_id c = c.id == conversation_id

-- `dm_key = ?`
unfoldable pub has_key : DmKey → ConversationRow → Bool
unfolding same_key
has_key key c = same_key c.dm_key key

-- The primary key of `conversation_members`.
unfoldable pub is_seat_of : ℕ → ℕ → ConversationMemberRow → Bool
is_seat_of conversation_id account_id m =
    m.conversation_id == conversation_id && m.account_id == account_id

-- `conversation_id = ? AND account_id <> ?`
unfoldable pub is_other_seat : ℕ → ℕ → ConversationMemberRow → Bool
is_other_seat conversation_id account_id m =
    m.conversation_id == conversation_id && not (m.account_id == account_id)

-- `conversation_id = ? AND deleted_at IS NULL AND obj_index > ?`
unfoldable pub is_unread_message : ℕ → ℤ → MessageRow → Bool
is_unread_message conversation_id last_read m =
    m.conversation_id == conversation_id && is_none m.deleted_at && below last_read m.obj_index

-- The columns that an `INSERT INTO conversation_members` does not name take their defaults.
abbrev pub new_seat : Env → ℕ → ℕ → ConversationMemberRow
new_seat env conversation_id account_id = record {
  conversation_id = conversation_id;
  account_id = account_id;
  joined_at = env.now;
  last_read_index = pos 0;
  unread_count = 0;
  muted_until = none;
  saved_at = none;
}

abbrev pub new_conversation : Env → ℕ → DmKey → ConversationRow
new_conversation env actor_id key = record {
  id = env.id;
  dm_key = key;
  creator_account_id = actor_id;
  last_message_index = 0;
  last_activity_at = env.now;
  created_at = env.now;
  archived_at = none;
}

-- The primary key of `conversations` and its `UNIQUE` column.
unfoldable pub conversation_conflicts : ConversationRow → List ConversationRow → Bool
unfolding is_conversation has_key
conversation_conflicts row conversations =
    exists (is_conversation row.id) conversations || exists (has_key row.dm_key) conversations

-- `INSERT INTO conversation_members …`
unfoldable pub insert_seat : Env → ℕ → ℕ → Chat → Result Chat
unfolding is_seat_of
insert_seat env conversation_id account_id chat =
    if exists (is_seat_of conversation_id account_id) chat.conversation_members
    then err constraint
    else ok (record chat {
      conversation_members =
          chat.conversation_members ++ new_seat env conversation_id account_id ∷ [];
    })

-- `INSERT INTO conversation_members … ON CONFLICT DO NOTHING`
unfoldable pub keep_seat : Env → ℕ → ℕ → Chat → Chat
unfolding is_seat_of
keep_seat env conversation_id account_id chat =
    if exists (is_seat_of conversation_id account_id) chat.conversation_members
    then chat
    else record chat {
      conversation_members =
          chat.conversation_members ++ new_seat env conversation_id account_id ∷ [];
    }

-- The inserts of `open_dm` where no conversation has the key.
unfoldable pub insert_conversation : Env → ℕ → ℕ → Chat → Result Chat
unfolding conversation_conflicts insert_seat dm_key
insert_conversation env actor_id target_id chat =
    let row = new_conversation env actor_id (dm_key actor_id target_id) in
    if conversation_conflicts row chat.conversations then err constraint else do
      seated ←
          insert_seat env env.id actor_id
            (record chat { conversations = chat.conversations ++ row ∷ [] })
      insert_seat env env.id target_id seated

abbrev pub new_message : Env → ℕ → ConversationRow → Text → MessageRow
new_message env actor_id conversation body = record {
  id = env.id;
  conversation_id = conversation.id;
  author_account_id = actor_id;
  obj_index = conversation.last_message_index + 1;
  body = body;
  created_at = env.now;
  updated_at = env.now;
  edited_at = none;
  deleted_at = none;
}

-- The primary key and `UNIQUE(conversation_id, obj_index)` of `conversation_messages`.
unfoldable pub message_conflicts : MessageRow → List MessageRow → Bool
message_conflicts row messages =
    exists (λ m. m.id == row.id) messages
    || exists (λ m. m.conversation_id == row.conversation_id && m.obj_index == row.obj_index)
        messages

-- `UPDATE conversation_members SET last_read_index = ?, unread_count = ? WHERE …`
unfoldable pub set_mark : ℕ → ℕ → ℤ → ℕ → List ConversationMemberRow → List ConversationMemberRow
unfolding is_seat_of
set_mark conversation_id account_id last_read unread members =
    update_where (is_seat_of conversation_id account_id)
      (λ m. record m { last_read_index = last_read; unread_count = unread }) members

-- The writes of `send_dm`, once the row conflicts with none.
unfoldable pub with_message : Env → ℕ → ConversationRow → Text → Chat → Chat
unfolding is_conversation is_other_seat set_mark
with_message env actor_id conversation body chat =
    let next_index = conversation.last_message_index + 1 in
    record chat {
      conversation_messages =
          chat.conversation_messages ++ new_message env actor_id conversation body ∷ [];
      conversations =
          update_where (is_conversation conversation.id)
            (λ c. record c { last_message_index = next_index; last_activity_at = env.now })
            chat.conversations;
      conversation_members =
          update_where (is_other_seat conversation.id actor_id)
            (λ m. record m { unread_count = m.unread_count + 1 })
            (set_mark conversation.id actor_id (pos next_index) 0 chat.conversation_members);
    }

unfoldable pub write_message : Env → ℕ → ConversationRow → Text → Chat → Result Chat
unfolding message_conflicts with_message
write_message env actor_id conversation body chat =
    if message_conflicts (new_message env actor_id conversation body) chat.conversation_messages
    then err constraint
    else ok (with_message env actor_id conversation body chat)

-- The write of `update_dm_body`.
unfoldable pub set_message_body : Env → ℕ → Text → Chat → Chat
set_message_body env message_id body chat = record chat {
  conversation_messages =
      update_where (λ m. m.id == message_id)
        (λ m. record m { body = body; updated_at = env.now; edited_at = some env.now })
        chat.conversation_messages;
}

-- The writes of `soft_delete_dm`; `MAX(unread_count - 1, 0)` of a positive number is `- 1`.
unfoldable pub delete_message_row : Env → ℕ → MessageRow → Chat → Chat
delete_message_row env conversation_id row chat = record chat {
  conversation_messages =
      update_where (λ m. m.id == row.id)
        (λ m. record m { deleted_at = some env.now; updated_at = env.now })
        chat.conversation_messages;
  conversation_members =
      update_where
        (λ m.
          m.conversation_id == conversation_id
          && ltb 0 m.unread_count
          && below m.last_read_index row.obj_index)
        (λ m. record m { unread_count = m.unread_count - 1 }) chat.conversation_members;
}

-- The write of `mark_conversation_read`.
unfoldable pub read_conversation : ℕ → ℕ → ℕ → Chat → Chat
unfolding set_mark
read_conversation conversation_id account_id last_index chat = record chat {
  conversation_members =
      set_mark conversation_id account_id (pos last_index) 0 chat.conversation_members;
}

-- The count and the write of `mark_conversation_unread`; `saturating_sub` on a signed index gives
-- -1 at 0.
unfoldable pub unread_conversation : ℕ → ℕ → ℕ → Chat → Chat
unfolding set_mark is_unread_message
unread_conversation conversation_id account_id last_index chat =
    let unread_from = pred_ℤ last_index in
    let unread_count =
      count (is_unread_message conversation_id unread_from) chat.conversation_messages in
    record chat {
      conversation_members =
          set_mark conversation_id account_id unread_from unread_count chat.conversation_members;
    }
