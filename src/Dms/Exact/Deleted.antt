-- ===== src/Dms/Exact/Deleted.antt =====
-- A deleted message and an edited one keep the counters exact.
use sshoosh.Base.{
  ℕ, ◌+◌, ◌-◌, ◌≡◌, refl, sym, ◌∙◌, true, false, Bool, ◌&&◌, some, ◌==◌, ltb, is_none, arith,
  ==_refl, if◌then◌else◌,
}
use sshoosh.Base.Int.{ℤ, below}
use sshoosh.Base.Tables.{find, count, exists, All}
use sshoosh.Base.Tables.Count.{count-update_where, count-update_where_key}
use sshoosh.Base.Tables.Find.{find_fits}
use sshoosh.Base.Tables.Rows.{All-update_where_to, All-update_where, All-mono}
use sshoosh.Text.{Text}
use sshoosh.Db.{Chat, Env, ConversationMemberRow, MessageRow}
use sshoosh.Dms.Writes.{is_seat_of, is_unread_message, delete_message_row, set_message_body}
use sshoosh.Dms.Exact.{last_index, IsExactSeat, IsExact}
use sshoosh.Dms.Exact.Sent.{seats-update_where}

module _ (env : Env) (conversation_id obj_index : ℕ) (row : MessageRow) (chat : Chat)
    (exact : IsExact chat)
    (found : find
        (λ m.
          m.conversation_id == conversation_id && m.obj_index == obj_index && is_none m.deleted_at)
        chat.conversation_messages
      ≡ some row) where
  abbrev deleted : Chat
  deleted = delete_message_row env conversation_id row chat

  row_fits :
      ((row.conversation_id == conversation_id)
        && (row.obj_index == obj_index)
        && is_none row.deleted_at)
      ≡ true
  row_fits = find_fits _ chat.conversation_messages row found

  unread_row :
      (k : ℕ) (lr : ℤ)
      → is_unread_message k lr row ≡ (k == conversation_id && below lr row.obj_index)
  unfolding is_unread_message
  unread_row k lr = ground (arith, row_fits)

  unread-deleted :
      (k : ℕ) (lr : ℤ)
      → count (is_unread_message k lr) deleted.conversation_messages
          + (if k == conversation_id && below lr row.obj_index then 1 else 0)
        ≡ count (is_unread_message k lr) chat.conversation_messages
  unfolding delete_message_row is_unread_message
  unread-deleted k lr = rw (← unread_row k lr) (
      count-update_where_key (is_unread_message k lr) (λ m. m.id == row.id) _ _
        chat.conversation_messages row (λ m. ground arith) (exact.message_ids row.id) found
        (==_refl row.id))

  abbrev IsBefore : ConversationMemberRow → Type 0
  IsBefore = IsExactSeat (λ k. last_index k chat.conversations) chat.conversation_messages

  abbrev IsAfter : ConversationMemberRow → Type 0
  IsAfter = IsExactSeat (λ k. last_index k chat.conversations) deleted.conversation_messages

  -- What the update of a seat's count does, over the numbers alone.
  one_less :
      (test : Bool) (unread before after : ℕ)
      → unread ≡ before
      → after + (if test then 1 else 0) ≡ before
      → test ≡ true
      → unread - 1 ≡ after
  one_less test unread before after h k e = ground arith

  none_less :
      (left right : Bool) (unread before after : ℕ)
      → unread ≡ before
      → after + (if left && right then 1 else 0) ≡ before
      → (left && ltb 0 unread && right) ≡ false
      → unread ≡ after
  none_less left right unread before after h k e = ground arith

  lowered_test :
      (left right : Bool) (unread : ℕ)
      → (left && ltb 0 unread && right) ≡ true
      → (left && right) ≡ true
  lowered_test left right unread e = ground arith

  lowered :
      (r : ConversationMemberRow)
      → (r.conversation_id == conversation_id
          && ltb 0 r.unread_count
          && below r.last_read_index row.obj_index)
        ≡ true
      → IsBefore r
      → IsAfter (record r { unread_count = r.unread_count - 1 })
  lowered r e h = record {
    mark = h.mark;
    unread = one_less _ _ _ _ h.unread (unread-deleted r.conversation_id r.last_read_index) (
        lowered_test (r.conversation_id == conversation_id) (below r.last_read_index row.obj_index)
          r.unread_count e);
  }

  kept :
      (r : ConversationMemberRow)
      → (r.conversation_id == conversation_id
          && ltb 0 r.unread_count
          && below r.last_read_index row.obj_index)
        ≡ false
      → IsBefore r
      → IsAfter r
  kept r e h = record {
    mark = h.mark;
    unread =
        none_less (r.conversation_id == conversation_id) (below r.last_read_index row.obj_index) _ _
          _ h.unread (unread-deleted r.conversation_id r.last_read_index) e;
  }

  deleted_seats : All IsAfter deleted.conversation_members
  unfolding delete_message_row
  deleted_seats = All-update_where_to _ _ chat.conversation_members lowered kept exact.seats

  seats-deleted :
      (k a : ℕ)
      → exists (is_seat_of k a) deleted.conversation_members
        ≡ exists (is_seat_of k a) chat.conversation_members
  unfolding delete_message_row is_seat_of
  seats-deleted k a = seats-update_where k a _ _ chat.conversation_members (λ m. refl)

  pub delete_message_row-IsExact : IsExact deleted
  unfolding delete_message_row
  delete_message_row-IsExact = record {
    message_ids = λ k. rw count-update_where (exact.message_ids k);
    conversation_ids = exact.conversation_ids;
    within = λ k.
        All-update_where (λ m. m.id == row.id) _ chat.conversation_messages
          (λ m h. record { range = h.range }) (exact.within k);
    seats = deleted_seats;
    paired =
        All-mono chat.conversations
          (λ c h. record {
            left = seats-deleted c.id c.dm_key.0 ∙ h.left;
            right = seats-deleted c.id c.dm_key.1 ∙ h.right;
          })
          exact.paired;
  }

pub set_message_body-IsExact :
    (env : Env) (message_id : ℕ) (body : Text) (chat : Chat)
    → IsExact chat
    → IsExact (set_message_body env message_id body chat)
unfolding set_message_body is_unread_message
set_message_body-IsExact env message_id body chat exact = record {
  message_ids = λ k. rw count-update_where (exact.message_ids k);
  conversation_ids = exact.conversation_ids;
  within = λ k.
      All-update_where (λ m. m.id == message_id) _ chat.conversation_messages
        (λ m h. record { range = h.range }) (exact.within k);
  seats =
      All-mono chat.conversation_members
        (λ r h. record { mark = h.mark; unread = h.unread ∙ sym (unread-body r) }) exact.seats;
  paired = exact.paired;
}
  where
    unread-body :
        (r : ConversationMemberRow)
        → count
            (is_unread_message r.conversation_id r.last_read_index)
            (set_message_body env message_id body chat).conversation_messages
          ≡ count (is_unread_message r.conversation_id r.last_read_index) chat.conversation_messages
    unread-body r =
        count-update_where (is_unread_message r.conversation_id r.last_read_index)
          (λ m. m.id == message_id) _ chat.conversation_messages (λ m. refl)
