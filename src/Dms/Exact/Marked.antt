-- ===== src/Dms/Exact/Marked.antt =====
-- Marking a conversation read or unread keeps the counters exact.
use sshoosh.Base.{ℕ, ◌+◌, ◌≡◌, refl, sym, ◌∙◌, true, arith, zero, suc}
use mathlib.Core.Path.{subst}
use sshoosh.Base.Int.{ℤ, pos, below, pred_ℤ}
use sshoosh.Base.Tables.{count, exists}
use sshoosh.Base.Tables.Rows.{All-update_where_to, All-mono}
use sshoosh.Db.{Chat, ConversationMemberRow}
use sshoosh.Dms.Writes.{
  is_seat_of, is_unread_message, set_mark, read_conversation, unread_conversation,
}
use sshoosh.Dms.Exact.{last_index, IsExactSeat, IsExact}
use sshoosh.Dms.Exact.Sent.{seats-update_where, unread-past_last}

module _ (conversation_id account_id : ℕ) (last_read : ℤ) (unread : ℕ) (chat : Chat)
    (exact : IsExact chat)
    (mark : below last_read (last_index conversation_id chat.conversations + 1) ≡ true)
    (counted : unread
      ≡ count (is_unread_message conversation_id last_read) chat.conversation_messages) where
  abbrev marked : Chat
  marked = record chat {
    conversation_members =
        set_mark conversation_id account_id last_read unread chat.conversation_members;
  }

  abbrev IsSeat : ConversationMemberRow → Type 0
  IsSeat = IsExactSeat (λ k. last_index k chat.conversations) chat.conversation_messages

  marked-IsSeat :
      (r : ConversationMemberRow)
      → is_seat_of conversation_id account_id r ≡ true
      → IsSeat r
      → IsSeat (record r { last_read_index = last_read; unread_count = unread })
  unfolding is_seat_of
  marked-IsSeat r e h =
      let same : conversation_id ≡ r.conversation_id = ground arith in
      record {
        mark = subst (λ k. below last_read (last_index k chat.conversations + 1) ≡ true) same mark;
        unread =
            subst (λ k. unread ≡ count (is_unread_message k last_read) chat.conversation_messages)
              same counted;
      }

  seats-marked :
      (k a : ℕ)
      → exists (is_seat_of k a) marked.conversation_members
        ≡ exists (is_seat_of k a) chat.conversation_members
  unfolding set_mark is_seat_of
  seats-marked k a = seats-update_where k a _ _ chat.conversation_members (λ m. refl)

  pub set_mark-IsExact : IsExact marked
  unfolding set_mark
  set_mark-IsExact = record {
    message_ids = exact.message_ids;
    conversation_ids = exact.conversation_ids;
    within = exact.within;
    seats =
        All-update_where_to _ _ chat.conversation_members marked-IsSeat (λ r e h. h) exact.seats;
    paired =
        All-mono chat.conversations
          (λ c h. record {
            left = seats-marked c.id c.dm_key.0 ∙ h.left;
            right = seats-marked c.id c.dm_key.1 ∙ h.right;
          })
          exact.paired;
  }

below_next : (n : ℕ) → below (pos n) (n + 1) ≡ true
below_next n = ground arith

below_pred : (n : ℕ) → below (pred_ℤ n) (n + 1) ≡ true
below_pred zero = refl
below_pred (suc n) = ground arith

module _ (conversation_id account_id : ℕ) (chat : Chat) (exact : IsExact chat) where
  pub read_conversation-IsExact : IsExact (
      read_conversation conversation_id account_id
        (last_index conversation_id chat.conversations)
        chat)
  unfolding read_conversation
  read_conversation-IsExact =
      set_mark-IsExact conversation_id account_id _ 0 chat exact (below_next _) (
        sym (
          unread-past_last conversation_id _ chat.conversation_messages
            (exact.within conversation_id)))

  pub unread_conversation-IsExact : IsExact (
      unread_conversation conversation_id account_id
        (last_index conversation_id chat.conversations)
        chat)
  unfolding unread_conversation
  unread_conversation-IsExact =
      set_mark-IsExact conversation_id account_id _ _ chat exact
        (below_pred (last_index conversation_id chat.conversations)) refl
