-- ===== src/Dms/Exact.antt =====
-- The counters of the conversations (the columns `last_message_index` of `conversations` and
-- `last_read_index` and `unread_count` of `conversation_members`) and the rows they count.
pub mod Sent
pub mod Deleted
pub mod Marked
pub mod Opened
use sshoosh.Base.{ℕ, ◌+◌, ◌≤◌, ◌≡◌, true, Option, none, some, List, ◌==◌}
use sshoosh.Base.Int.{below}
use sshoosh.Base.Tables.{find, count, exists, All}
use sshoosh.Db.{Chat, ConversationRow, ConversationMemberRow, MessageRow}
use sshoosh.Dms.Writes.{is_conversation, is_seat_of, is_unread_message}

abbrev pub index_of : Option ConversationRow → ℕ
index_of none = 0
index_of (some c) = c.last_message_index

unfoldable pub last_index : ℕ → List ConversationRow → ℕ
unfolding is_conversation
last_index k conversations = index_of (find (is_conversation k) conversations)

-- A message of the conversation lies between 1 and the last index.
pub record IsWithin (k last : ℕ) (m : MessageRow) : Type 0 where
  pub range : (m.conversation_id == k) ≡ true → (1 ≤ m.obj_index) × (m.obj_index ≤ last)

-- The mark of a seat lies within the conversation, and its unread count is that of the messages
-- after the mark.
pub record IsExactSeat (last : ℕ → ℕ) (messages : List MessageRow) (r : ConversationMemberRow)
    : Type 0 where
  pub mark : below r.last_read_index (last r.conversation_id + 1) ≡ true
  pub unread :
      r.unread_count ≡ count (is_unread_message r.conversation_id r.last_read_index) messages

-- Both accounts of the key have a seat.
pub record IsPaired (seats : List ConversationMemberRow) (c : ConversationRow) : Type 0 where
  pub left : exists (is_seat_of c.id c.dm_key.0) seats ≡ true
  pub right : exists (is_seat_of c.id c.dm_key.1) seats ≡ true

pub record IsExact (chat : Chat) : Type 0 where
  pub message_ids : (k : ℕ) → count (λ m. m.id == k) chat.conversation_messages ≤ 1
  pub conversation_ids : (k : ℕ) → count (is_conversation k) chat.conversations ≤ 1
  pub within :
      (k : ℕ) → All (IsWithin k (last_index k chat.conversations)) chat.conversation_messages
  pub seats :
      All
        (IsExactSeat (λ k. last_index k chat.conversations) chat.conversation_messages)
        chat.conversation_members
  pub paired : All (IsPaired chat.conversation_members) chat.conversations
