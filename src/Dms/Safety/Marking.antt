-- ===== src/Dms/Safety/Marking.antt =====
-- `mark_conversation_read` and `mark_conversation_unread`.
use mathlib.Core.Path.{subst}
use sshoosh.Base.{
  ℕ, ◌≡◌, refl, ap, ◌∙◌, true, ◌&&◌, arith, ok, some_or, >>=-ok, some_or-eq-ok, ok_inj,
  not_participant,
}
use sshoosh.Base.Tables.{find, All}
use sshoosh.Base.Tables.Find.{find_key}
use sshoosh.Base.Tables.Rows.{All-update_where_to, All-self}
use sshoosh.Db.{Db, Env, Chat, ConversationMemberRow}
use sshoosh.Feed.Notify.{is_participant}
use sshoosh.Threads.Handlers.{mark_feed_read}
use sshoosh.Dms.Writes.{
  is_conversation, is_seat_of, set_mark, read_conversation, unread_conversation,
}
use sshoosh.Dms.Handlers.{
  load_seated_conversation, mark_conversation_read, mark_conversation_unread,
}
use sshoosh.Dms.Exact.{index_of, last_index, IsExact}
use sshoosh.Dms.Exact.Marked.{read_conversation-IsExact, unread_conversation-IsExact}

-- A seat of the account in the conversation has no unread message.
abbrev pub IsRead : ℕ → ℕ → Chat → Type 0
IsRead conversation_id account_id chat =
    All
      (λ (r : ConversationMemberRow).
        is_seat_of conversation_id account_id r ≡ true → r.unread_count ≡ 0)
      chat.conversation_members

module _ (account_id conversation_id : ℕ) (before : Db) (exact : IsExact before.chat) where
  seated_last :
      (n : ℕ)
      → load_seated_conversation account_id conversation_id before ≡ ok n
      → last_index conversation_id before.conversations ≡ n
  unfolding load_seated_conversation last_index
  seated_last n h =
      let (c, e, h1) =
        >>=-ok
          (some_or
            (find
              (λ c.
                is_conversation conversation_id c
                && is_participant conversation_id account_id before)
              before.conversations)
            not_participant)
          _ h in
      ap index_of (
        find_key (is_conversation conversation_id) _ before.conversations c
          (exact.conversation_ids conversation_id) (some_or-eq-ok _ not_participant e))
      ∙ ok_inj _ _ h1

  read_conversation-IsRead :
      (n : ℕ)
      → IsRead conversation_id account_id
          (read_conversation conversation_id account_id n before.chat)
  unfolding read_conversation set_mark
  read_conversation-IsRead n =
      All-update_where_to (is_seat_of conversation_id account_id) _ before.conversation_members
        (λ r e h k. refl) (λ r e h k. absurd (ground arith)) (All-self before.conversation_members)

  -- Reading a conversation leaves the reader no unread message, and the counters of every
  -- conversation exact.
  pub mark_conversation_read_lem :
      (env : Env) (after : Db)
      → mark_conversation_read env account_id conversation_id before ≡ ok after
      → IsExact after.chat × IsRead conversation_id account_id after.chat
  unfolding mark_conversation_read mark_feed_read
  mark_conversation_read_lem env after h =
      let (n, e, h1) = >>=-ok (load_seated_conversation account_id conversation_id before) _ h in
      let chat = ap (λ (db : Db). db.chat) (ok_inj _ _ h1) in
      subst (λ x. IsExact x × IsRead conversation_id account_id x) chat
        (
          subst (λ k. IsExact (read_conversation conversation_id account_id k before.chat))
              (seated_last n e)
              (read_conversation-IsExact conversation_id account_id before.chat exact),
          read_conversation-IsRead n,
        )

  -- Marking a conversation unread keeps the counters of every conversation exact.
  pub mark_conversation_unread_lem :
      (after : Db)
      → mark_conversation_unread account_id conversation_id before ≡ ok after
      → IsExact after.chat
  unfolding mark_conversation_unread
  mark_conversation_unread_lem after h =
      let (n, e, h1) = >>=-ok (load_seated_conversation account_id conversation_id before) _ h in
      let chat = ap (λ (db : Db). db.chat) (ok_inj _ _ h1) in
      subst IsExact chat (
        subst (λ k. IsExact (unread_conversation conversation_id account_id k before.chat))
          (seated_last n e)
          (unread_conversation-IsExact conversation_id account_id before.chat exact))
