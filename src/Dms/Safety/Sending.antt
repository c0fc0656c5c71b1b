-- ===== src/Dms/Safety/Sending.antt =====
-- `send_dm`.
use mathlib.Core.Path.{subst}
use mathlib.Core.List.{Mem}
use sshoosh.Base.{
  ◌⊎◌, ℕ, ◌+◌, ◌≡◌, refl, sym, ap, ◌∙◌, inl, inr, true, false, false, ◌&&◌, not, some, List, [],
  ◌∷◌, ◌==◌, ==_iff, arith, ok, ensure, some_or, >>=-ok, some_or-eq-ok, ensure-eq-ok, ok_inj, is_ok,
  message_body_required, not_participant, no_row,
}
use sshoosh.Base.Tables.{find, count, exists, All}
use sshoosh.Base.Tables.Find.{find_fits}
use sshoosh.Base.Tables.Rows.{All-mono, All-self}
use sshoosh.Text.{Text, trim, is_empty, codes}
use sshoosh.Text.Sanitize.{sanitize_stored_text}
use sshoosh.Db.{Db, Env, Chat, ConversationRow, MessageRow, NotificationRow, Source}
use sshoosh.Feed.{insert_event}
use sshoosh.Feed.Index.{upsert_search_index_tx, replace_labels_tx, delete_labels_tx}
use sshoosh.Feed.Notify.{
  is_participant, is_active_account, source_is_visible, in_conversation, in_channel,
}
use sshoosh.Feed.Privacy.{
  IsNotified, IsNotified-trans, IsNotified-quiet, IsFair, source_is_visible-frame,
  create_mention_notifications_tx-IsNotified, create_dm_notifications_tx-IsNotified,
}
use sshoosh.Dms.Writes.{
  is_conversation, write_message, with_message, message_conflicts, new_message,
}
use sshoosh.Dms.Projector.{dm_source, dm_created}
use sshoosh.Dms.Handlers.{send_dm}
use sshoosh.Dms.Exact.{index_of, last_index, IsWithin, IsExact}
use sshoosh.Dms.Exact.Sent.{with_message-IsExact}

dm_created-IsNotified :
    (env : Env) (actor_id conversation_id message_id obj_index : ℕ) (body : Text) (db : Db)
    → IsNotified actor_id
        (dm_source message_id conversation_id)
        db
        (dm_created env actor_id conversation_id message_id obj_index body db)
unfolding dm_created upsert_search_index_tx replace_labels_tx delete_labels_tx insert_event
dm_created-IsNotified env actor_id conversation_id message_id obj_index body db =
    IsNotified-trans actor_id (dm_source message_id conversation_id) db _ _
      (IsNotified-trans actor_id (dm_source message_id conversation_id) db _ _
        (IsNotified-trans actor_id (dm_source message_id conversation_id) db _ _
          (IsNotified-quiet actor_id (dm_source message_id conversation_id) db _
            (record { people = refl; chat = refl }) refl)
          (create_dm_notifications_tx-IsNotified env actor_id conversation_id
            (dm_source message_id conversation_id) obj_index body _))
        (create_mention_notifications_tx-IsNotified env actor_id
          (dm_source message_id conversation_id) (some obj_index) (codes "DM") body _))
      (IsNotified-quiet actor_id (dm_source message_id conversation_id) _ _
        (record { people = refl; chat = refl }) refl)

pub same_id :
    (conversation_id : ℕ) (conversations : List ConversationRow) (c : ConversationRow)
    → find (is_conversation conversation_id) conversations ≡ some c
    → c.id ≡ conversation_id
unfolding is_conversation
same_id conversation_id conversations c e =
    (==_iff c.id conversation_id).0 (find_fits (is_conversation conversation_id) conversations c e)

-- The notification is about the conversation, and for another account than the actor, which is
-- active and sits in the conversation.
pub record IsForParticipant (actor_id conversation_id : ℕ) (db : Db) (n : NotificationRow)
    : Type 0 where
  pub about : n.source.conversation_id ≡ some conversation_id
  pub not_actor : (actor_id == n.account_id) ≡ false
  pub active : is_active_account n.account_id db ≡ true
  pub seat : is_participant conversation_id n.account_id db ≡ true

IsFair-participant :
    (actor_id conversation_id message_id : ℕ) (db : Db) (n : NotificationRow)
    → IsFair actor_id (dm_source message_id conversation_id) db n
    → IsForParticipant actor_id conversation_id db n
unfolding source_is_visible in_conversation in_channel
IsFair-participant actor_id conversation_id message_id db n fair =
    let seen =
      subst (λ source. source_is_visible n.account_id source db ≡ true) fair.about fair.visible in
    record {
      about = ap (λ (source : Source). source.conversation_id) fair.about;
      not_actor = fair.not_actor;
      active = ground (arith, seen);
      seat = ground (arith, seen);
    }

-- What a call of `send_dm` that succeeds has found and done.
record IsSent (env : Env) (actor_id conversation_id : ℕ) (body : Text) (before after : Db)
    : Type 1 where
  pub conversation : ConversationRow
  pub found : find (is_conversation conversation.id) before.conversations ≡ some conversation
  pub same : conversation.id ≡ conversation_id
  pub participant : is_participant conversation_id actor_id before ≡ true
  pub fresh :
      message_conflicts (new_message env actor_id conversation body) before.conversation_messages
      ≡ false
  pub written : Db
  pub notifications : written.notifications ≡ before.notifications
  pub chat : written.chat ≡ with_message env actor_id conversation body before.chat
  pub notified : IsNotified actor_id (dm_source env.id conversation_id) written after

module _ (env : Env) (actor_id conversation_id : ℕ) (input : Text) (before after : Db)
    (h : send_dm env actor_id conversation_id input before ≡ ok after) where
  abbrev body : Text
  body = trim (sanitize_stored_text input)

  wrote :
      (c : ConversationRow) (chat : Chat)
      → write_message env actor_id c body before.chat ≡ ok chat
      → (message_conflicts (new_message env actor_id c body) before.conversation_messages ≡ false)
        × (chat ≡ with_message env actor_id c body before.chat)
  unfolding write_message
  wrote c chat e = ground arith

  send_dm-IsSent : IsSent env actor_id conversation_id body before after
  unfolding send_dm
  send_dm-IsSent =
      let (u, e1, h1) = >>=-ok (ensure (not (is_empty body)) message_body_required) _ h in
      let (v, e2, h2) =
        >>=-ok (ensure (is_participant conversation_id actor_id before) not_participant) _ h1 in
      let (c, e3, h3) =
        >>=-ok (some_or (find (is_conversation conversation_id) before.conversations) no_row) _
          h2 in
      let (chat, e4, h4) = >>=-ok (write_message env actor_id c body before.chat) _ h3 in
      let written : Db = record before { chat = chat } in
      let found = some_or-eq-ok _ no_row e3 in
      let same = same_id conversation_id before.conversations c found in
      record {
        conversation = c;
        found =
            subst (λ k. find (is_conversation k) before.conversations ≡ some c) (sym same) found;
        same = same;
        participant = ensure-eq-ok _ not_participant e2;
        fresh = (wrote c chat e4).0;
        written = written;
        notifications = refl;
        chat = (wrote c chat e4).1;
        notified =
            subst (IsNotified actor_id (dm_source env.id conversation_id) written) (ok_inj _ _ h4) (
              dm_created-IsNotified env actor_id conversation_id env.id (c.last_message_index + 1)
                body written);
      }

  -- Sending a message keeps every message and every mark within the last index of its conversation,
  -- the unread count of every seat exactly that of the messages after its mark, and both accounts
  -- of every conversation seated.
  pub send_dm-IsExact : IsExact before.chat → IsExact after.chat
  send_dm-IsExact exact =
      let s = send_dm-IsSent in
      subst IsExact (sym (s.notified.frame.chat ∙ s.chat))
        (with_message-IsExact env actor_id s.conversation body before.chat exact s.found s.fresh)

  -- Every notification after the call was there before it, or is about the conversation and for
  -- another account than the actor, which is active and sits in the conversation.
  pub send_dm-notified :
      All
        (λ n. Mem n before.notifications ⊎ IsForParticipant actor_id conversation_id after n)
        after.notifications
  send_dm-notified =
      let s = send_dm-IsSent in
      s.notified.fair
        (λ n. Mem n before.notifications ⊎ IsForParticipant actor_id conversation_id after n)
        (λ n fair. inr (
          IsFair-participant actor_id conversation_id env.id after n (record {
            about = fair.about;
            not_actor = fair.not_actor;
            visible =
                source_is_visible-frame n.account_id n.source s.written after s.notified.frame
                ∙ fair.visible;
          })))
        (subst (All _) (sym s.notifications)
          (All-mono before.notifications (λ n m. inl m) (All-self before.notifications)))

-- No message of the conversation has the next index.
next_unused :
    (k last : ℕ) (messages : List MessageRow)
    → All (IsWithin k last) messages
    → count (λ m. m.conversation_id == k && m.obj_index == last + 1) messages ≡ 0
unfolding count
next_unused k last [] all = refl
next_unused k last (m ∷ messages) all =
    ground (arith, all.0.range, next_unused k last messages all.1)

-- With a text, a seat in the conversation and a fresh identifier, a message is sent.
pub send_dm-is_ok :
    (env : Env) (actor_id conversation_id : ℕ) (input : Text) (db : Db)
    (conversation : ConversationRow)
    → IsExact db.chat
    → is_empty (trim (sanitize_stored_text input)) ≡ false
    → is_participant conversation_id actor_id db ≡ true
    → find (is_conversation conversation_id) db.conversations ≡ some conversation
    → exists (λ m. m.id == env.id) db.conversation_messages ≡ false
    → is_ok (send_dm env actor_id conversation_id input db) ≡ true
unfolding send_dm write_message
send_dm-is_ok env actor_id conversation_id input db conversation exact text seat found fresh =
    rw (text, seat, found) (rw unused refl)
  where
    at_id : find (is_conversation conversation.id) db.conversations ≡ some conversation
    at_id =
        subst (λ k. find (is_conversation k) db.conversations ≡ some conversation)
          (sym (same_id conversation_id db.conversations conversation found)) found

    last_is : last_index conversation.id db.conversations ≡ conversation.last_message_index
    last_is = unfold last_index in ap index_of at_id

    unused :
        message_conflicts
          (new_message env actor_id conversation (trim (sanitize_stored_text input)))
          db.conversation_messages
        ≡ false
    unused =
        unfold message_conflicts in
        ground (
          arith,
          fresh,
          next_unused conversation.id conversation.last_message_index db.conversation_messages (
              subst (λ n. All (IsWithin conversation.id n) db.conversation_messages) last_is
                (exact.within conversation.id)),
        )
