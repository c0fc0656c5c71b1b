-- ===== src/Dms/Exact/Sent.antt =====
-- A sent message keeps the counters exact.
use sshoosh.Base.{
  ℕ, ◌+◌, ◌≤◌, ◌≡◌, refl, sym, ap, ◌∙◌, inl, inr, true, false, Bool, ◌&&◌, some, List, ◌==◌, arith,
  Bool-cases, Option-cases, ==_iff, if◌then◌else◌,
}
use mathlib.Core.Path.{subst}
use mathlib.Core.Option
use sshoosh.Base.Int.{ℤ, pos, negsuc, below}
use sshoosh.Base.Tables.{find, count, exists, update_where, All}
use sshoosh.Base.Tables.Count.{count-append, count-none, count-update_where}
use sshoosh.Base.Tables.Find.{find-update_where, find_fits}
use sshoosh.Base.Tables.Rows.{All-append, All-update_where_to, All-update_where, All-mono}
use sshoosh.Text.{Text}
use sshoosh.Db.{Chat, Env, ConversationRow, ConversationMemberRow, MessageRow}
use sshoosh.Dms.Writes.{
  is_conversation, is_seat_of, is_other_seat, is_unread_message, new_message, message_conflicts,
  set_mark, with_message,
}
use sshoosh.Dms.Exact.{index_of, last_index, IsWithin, IsExactSeat, IsPaired, IsExact}

mono : (lr : ℤ) (m n : ℕ) → m ≤ n → below lr m ≡ true → below lr n ≡ true
mono (pos a) m n le h = ground arith
mono (negsuc a) m n le h = refl

-- Past the last message nothing is unread.
past_last :
    (k last : ℕ) (m : MessageRow) → IsWithin k last m → is_unread_message k (pos last) m ≡ false
unfolding is_unread_message
past_last k last m h = ground (arith, h.range)

pub unread-past_last :
    (k last : ℕ) (messages : List MessageRow)
    → All (IsWithin k last) messages
    → count (is_unread_message k (pos last)) messages ≡ 0
unread-past_last k last messages h =
    count-none (is_unread_message k (pos last)) messages (past_last k last) h

-- The updates of the seats keep their keys.
pub seats-update_where :
    (k a : ℕ) (q : ConversationMemberRow → Bool) (f : ConversationMemberRow → ConversationMemberRow)
    (xs : List ConversationMemberRow)
    → ((m : ConversationMemberRow) → is_seat_of k a (f m) ≡ is_seat_of k a m)
    → exists (is_seat_of k a) (update_where q f xs) ≡ exists (is_seat_of k a) xs
seats-update_where k a q f xs h = rw (count-update_where (is_seat_of k a) q f xs h)

module _ (env : Env) (actor_id : ℕ) (conversation : ConversationRow) (body : Text) (chat : Chat)
    (exact : IsExact chat)
    (found : find (is_conversation conversation.id) chat.conversations ≡ some conversation)
    (fresh : message_conflicts
        (new_message env actor_id conversation body)
        chat.conversation_messages
      ≡ false) where
  abbrev sent : Chat
  sent = with_message env actor_id conversation body chat

  abbrev message : MessageRow
  message = new_message env actor_id conversation body

  abbrev stamped : ConversationRow → ConversationRow
  stamped c = record c {
    last_message_index = conversation.last_message_index + 1;
    last_activity_at = env.now;
  }

  is_own : is_conversation conversation.id conversation ≡ true
  is_own = find_fits (is_conversation conversation.id) chat.conversations conversation found

  found-sent :
      (k : ℕ)
      → find (is_conversation k) sent.conversations
        ≡ Option.map
            (λ a. if is_conversation conversation.id a then stamped a else a)
            (find (is_conversation k) chat.conversations)
  unfolding with_message is_conversation
  found-sent k =
      find-update_where (is_conversation k) (is_conversation conversation.id) stamped
        chat.conversations (λ c. refl)

  last-sent_own :
      last_index conversation.id sent.conversations ≡ conversation.last_message_index + 1
  unfolding last_index
  last-sent_own =
      ap index_of (found-sent conversation.id ∙ ap (Option.map _) found) ∙ rw is_own refl

  other-id :
      (k : ℕ) (c : ConversationRow)
      → (conversation.id == k) ≡ false
      → is_conversation k c ≡ true
      → is_conversation conversation.id c ≡ false
  unfolding is_conversation
  other-id k c other h = ground arith

  last-sent_other :
      (k : ℕ)
      → (conversation.id == k) ≡ false
      → last_index k sent.conversations ≡ last_index k chat.conversations
  unfolding last_index
  last-sent_other k other =
      ap index_of (found-sent k)
      ∙ elim (Option-cases (find (is_conversation k) chat.conversations)) [
        | inl e ↦ rw e
        | inr (c, e) ↦
            rw e (rw (other-id k c other (find_fits (is_conversation k) chat.conversations c e)))
      ]

  last-found : last_index conversation.id chat.conversations ≡ conversation.last_message_index
  unfolding last_index
  last-found = ap index_of found

  sent_ids : (k : ℕ) → count (λ m. m.id == k) sent.conversation_messages ≤ 1
  unfolding with_message message_conflicts
  sent_ids k = rw count-append (elim (Bool-cases (env.id == k)) [
    | inl e ↦ rw e (
        subst (λ j. count (λ m. m.id == j) chat.conversation_messages + 1 ≤ 1)
          ((==_iff env.id k).0 e) (ground arith))
    | inr e ↦ rw e (omega (arith, exact.message_ids k))
  ])

  last_own :
      (k : ℕ)
      → (conversation.id == k) ≡ true
      → (last_index k chat.conversations ≡ conversation.last_message_index)
        × (last_index k sent.conversations ≡ conversation.last_message_index + 1)
  last_own k e =
      subst
        (λ j.
          (last_index j chat.conversations ≡ conversation.last_message_index)
          × (last_index j sent.conversations ≡ conversation.last_message_index + 1))
        ((==_iff conversation.id k).0 e) (last-found, last-sent_own)

  last_le : (k : ℕ) → last_index k chat.conversations ≤ last_index k sent.conversations
  last_le k = elim (Bool-cases (conversation.id == k)) [
    | inl e ↦ omega (arith, (last_own k e).0, (last_own k e).1)
    | inr e ↦ omega (arith, last-sent_other k e)
  ]

  sent-IsWithin :
      (k : ℕ) → All (IsWithin k (last_index k sent.conversations)) sent.conversation_messages
  unfolding with_message
  sent-IsWithin k =
      All-append _ chat.conversation_messages message
        (All-mono chat.conversation_messages
          (λ m h. record { range = λ e. omega (arith, h.range e, last_le k) }) (exact.within k))
        (record { range = λ e. omega (arith, (last_own k e).1) })

  -- The count of a seat's unread messages.
  unread-sent :
      (k : ℕ) (lr : ℤ)
      → count (is_unread_message k lr) sent.conversation_messages
        ≡ count (is_unread_message k lr) chat.conversation_messages
          + (if conversation.id == k && true && below lr (conversation.last_message_index + 1)
              then 1
              else 0)
  unfolding with_message is_unread_message
  unread-sent k lr = count-append (is_unread_message k lr) chat.conversation_messages message

  abbrev IsBefore : ConversationMemberRow → Type 0
  IsBefore = IsExactSeat (λ k. last_index k chat.conversations) chat.conversation_messages

  abbrev IsAfter : ConversationMemberRow → Type 0
  IsAfter = IsExactSeat (λ k. last_index k sent.conversations) sent.conversation_messages

  elsewhere :
      (r : ConversationMemberRow)
      → (conversation.id == r.conversation_id) ≡ false
      → IsBefore r
      → IsAfter r
  elsewhere r e h = record {
    mark = rw (last-sent_other r.conversation_id e) h.mark;
    unread = rw (unread-sent r.conversation_id r.last_read_index) (rw e (omega (arith, h.unread)));
  }

  own_seat :
      (r : ConversationMemberRow)
      → (conversation.id == r.conversation_id) ≡ true
      → IsAfter (record r {
        last_read_index = pos (conversation.last_message_index + 1);
        unread_count = 0;
      })
  own_seat r e = record {
    mark = rw (last_own r.conversation_id e).1 (ground arith);
    unread = sym (
        subst
          (λ n. count (is_unread_message r.conversation_id (pos n)) sent.conversation_messages ≡ 0)
          (last_own r.conversation_id e).1
          (unread-past_last r.conversation_id _ sent.conversation_messages
            (sent-IsWithin r.conversation_id)));
  }

  other_seat :
      (r : ConversationMemberRow)
      → (conversation.id == r.conversation_id) ≡ true
      → IsBefore r
      → IsAfter (record r { unread_count = r.unread_count + 1 })
  other_seat r e h =
      let new =
        subst (λ n. below r.last_read_index (n + 1) ≡ true) (last_own r.conversation_id e).0
          h.mark in
      record {
        mark = rw (last_own r.conversation_id e).1 (mono r.last_read_index _ _ (omega arith) new);
        unread =
            rw (unread-sent r.conversation_id r.last_read_index)
              (rw (e, new) (omega (arith, h.unread)));
      }

  -- After the first update of the seats: the others' are as before, the rest is done.
  abbrev IsHalf : ConversationMemberRow → Type 0
  IsHalf r =
      (is_other_seat conversation.id actor_id r ≡ true → IsBefore r)
      × (is_other_seat conversation.id actor_id r ≡ false → IsAfter r)

  own-IsHalf :
      (r : ConversationMemberRow)
      → is_seat_of conversation.id actor_id r ≡ true
      → IsBefore r
      → IsHalf (record r {
        last_read_index = pos (conversation.last_message_index + 1);
        unread_count = 0;
      })
  unfolding is_seat_of is_other_seat
  own-IsHalf r e h = (λ o. absurd (ground arith), λ o. own_seat r (ground arith))

  rest-IsHalf :
      (r : ConversationMemberRow)
      → is_seat_of conversation.id actor_id r ≡ false
      → IsBefore r
      → IsHalf r
  unfolding is_seat_of is_other_seat
  rest-IsHalf r e h = (λ o. h, λ o. elsewhere r (ground arith) h)

  other_id :
      (r : ConversationMemberRow)
      → is_other_seat conversation.id actor_id r ≡ true
      → (conversation.id == r.conversation_id) ≡ true
  unfolding is_other_seat
  other_id r e = ground arith

  sent_seats : All IsAfter sent.conversation_members
  unfolding with_message set_mark
  sent_seats =
      All-update_where_to (is_other_seat conversation.id actor_id) _ _
        (λ r o h. other_seat r (other_id r o) (h.0 o)) (λ r o h. h.1 o)
        (All-update_where_to {Q = IsHalf} (is_seat_of conversation.id actor_id) _
          chat.conversation_members own-IsHalf rest-IsHalf exact.seats)

  seats-sent :
      (k a : ℕ)
      → exists (is_seat_of k a) sent.conversation_members
        ≡ exists (is_seat_of k a) chat.conversation_members
  unfolding with_message set_mark is_seat_of
  seats-sent k a =
      seats-update_where k a (is_other_seat conversation.id actor_id) _ _ (λ m. refl)
      ∙ seats-update_where k a (is_seat_of conversation.id actor_id) _ _ (λ m. refl)

  sent-IsPaired : All (IsPaired sent.conversation_members) sent.conversations
  unfolding with_message
  sent-IsPaired =
      All-update_where (is_conversation conversation.id) stamped chat.conversations
        (λ c h. record { left = h.left; right = h.right })
        (All-mono chat.conversations
          (λ c h. record {
            left = seats-sent c.id c.dm_key.0 ∙ h.left;
            right = seats-sent c.id c.dm_key.1 ∙ h.right;
          })
          exact.paired)

  pub with_message-IsExact : IsExact sent
  with_message-IsExact = record {
    message_ids = sent_ids;
    conversation_ids = λ k.
        unfold with_message is_conversation in rw count-update_where (exact.conversation_ids k);
    within = sent-IsWithin;
    seats = sent_seats;
    paired = sent-IsPaired;
  }
