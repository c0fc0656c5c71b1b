-- ===== src/Dms/Safety/Editing.antt =====
-- `update_dm_body` and `soft_delete_dm`.
use mathlib.Core.Path.{subst}
use sshoosh.Base.{
  ℕ, refl, false, Bool, ◌∙◌, inl, inr, ==_refl, Option-cases, arith, ◌≡◌, sym, ap, true, ◌&&◌, not,
  some, ◌==◌, ==_iff, is_none, ok, ensure, >>=-ok, some_or-eq-ok, ensure-eq-ok, ok_inj,
  not_participant, message_not_found, only_own_dms, message_body_required,
}
use sshoosh.Base.Tables.{find}
use sshoosh.Base.Tables.Find.{find-update_where, find_fits}
use sshoosh.Text.{Text, trim, is_empty}
use sshoosh.Text.Sanitize.{sanitize_stored_text}
use sshoosh.Db.{Db, Chat, Env, MessageRow}
use sshoosh.Feed.{insert_event, insert_audit}
use sshoosh.Feed.Index.{
  upsert_search_index_tx, delete_search_index_tx, replace_labels_tx, delete_labels_tx,
}
use sshoosh.Feed.Notify.{is_participant}
use sshoosh.Guards.{load_dm_message_meta_tx}
use sshoosh.Dms.Writes.{set_message_body, delete_message_row}
use sshoosh.Dms.Handlers.{load_own_dm, update_dm_body, soft_delete_dm}
use sshoosh.Dms.Exact.{IsExact}
use sshoosh.Dms.Exact.Deleted.{delete_message_row-IsExact, set_message_body-IsExact}

-- The actor sits in the conversation, and wrote the live message of the index.
pub record IsOwnMessage (actor_id conversation_id obj_index : ℕ) (row : MessageRow) (db : Db)
    : Type 0 where
  pub participant : is_participant conversation_id actor_id db ≡ true
  pub found :
      find
        (λ m.
          m.conversation_id == conversation_id && m.obj_index == obj_index && is_none m.deleted_at)
        db.conversation_messages
      ≡ some row
  pub author : row.author_account_id ≡ actor_id

load_own_dm-IsOwnMessage :
    (actor_id conversation_id obj_index : ℕ) (db : Db) (row : MessageRow)
    → load_own_dm actor_id conversation_id obj_index db ≡ ok row
    → IsOwnMessage actor_id conversation_id obj_index row db
unfolding load_own_dm load_dm_message_meta_tx
load_own_dm-IsOwnMessage actor_id conversation_id obj_index db row h =
    let (m, e1, h1) = >>=-ok (load_dm_message_meta_tx actor_id conversation_id obj_index db) _ h in
    let (u, e2, h2) = >>=-ok (ensure (m.author_account_id == actor_id) only_own_dms) _ h1 in
    let (v, e3, h3) =
      >>=-ok (ensure (is_participant conversation_id actor_id db) not_participant) _ e1 in
    subst (λ r. IsOwnMessage actor_id conversation_id obj_index r db) (ok_inj _ _ h2)
      (record {
        participant = ensure-eq-ok _ not_participant e3;
        found = some_or-eq-ok _ message_not_found h3;
        author = (==_iff m.author_account_id actor_id).0 (ensure-eq-ok _ only_own_dms e2);
      })

-- The live message of an index.
unfoldable pub is_at : ℕ → ℕ → MessageRow → Bool
is_at conversation_id obj_index m =
    m.conversation_id == conversation_id && m.obj_index == obj_index && is_none m.deleted_at

-- The message has the text and the time of an edit, and is the old one otherwise.
pub record IsReworded (env : Env) (body : Text) (old row : MessageRow) : Type 0 where
  pub id_kept : row.id ≡ old.id
  pub body_is : row.body ≡ body
  pub edited : row.edited_at ≡ some env.now
  pub author_kept : row.author_account_id ≡ old.author_account_id
  pub created : row.created_at ≡ old.created_at

-- Beside one message, the messages, the conversations and their seats are those before.
pub record IsOnlyMessage (message_id : ℕ) (before after : Chat) : Type 0 where
  pub others :
      (k : ℕ)
      → (k == message_id) ≡ false
      → find (λ m. m.id == k) after.conversation_messages
        ≡ find (λ m. m.id == k) before.conversation_messages
  pub conversations : after.conversations ≡ before.conversations
  pub seats : after.conversation_members ≡ before.conversation_members

module _ (env : Env) (actor_id conversation_id obj_index : ℕ) (before after : Db)
    (exact : IsExact before.chat) where
  -- Only the author deletes a message, and the counters of every conversation stay exact.
  pub soft_delete_dm_lem :
      soft_delete_dm env actor_id conversation_id obj_index before ≡ ok after
      → (row : MessageRow) × IsOwnMessage actor_id conversation_id obj_index row before
        × (after.chat ≡ delete_message_row env conversation_id row before.chat)
        × IsExact after.chat
  unfolding soft_delete_dm insert_event insert_audit delete_search_index_tx delete_labels_tx
  soft_delete_dm_lem h =
      let (row, e, h1) = >>=-ok (load_own_dm actor_id conversation_id obj_index before) _ h in
      let own = load_own_dm-IsOwnMessage actor_id conversation_id obj_index before row e in
      let chat = sym (ap (λ (db : Db). db.chat) (ok_inj _ _ h1)) in
      (
        row,
        own,
        chat,
        subst IsExact (sym chat) (
            delete_message_row-IsExact env conversation_id obj_index row before.chat exact
              own.found),
      )

  -- The message that was edited stands under its index with the new text.
  reworded :
      (row : MessageRow) (body : Text)
      → find (is_at conversation_id obj_index) before.conversation_messages ≡ some row
      → (edited : MessageRow) × (find
            (is_at conversation_id obj_index)
            (set_message_body env row.id body before.chat).conversation_messages
          ≡ some edited)
        × IsReworded env body row edited
  unfolding set_message_body is_at
  reworded row body h = (
    record row { body = body; updated_at = env.now; edited_at = some env.now },
    find-update_where (is_at conversation_id obj_index) (λ m. m.id == row.id) _
          before.conversation_messages (λ m. refl)
        ∙ rw h (rw (==_refl row.id) refl),
    record { id_kept = refl; body_is = refl; edited = refl; author_kept = refl; created = refl },
  )

  others_kept :
      (row : MessageRow) (body : Text)
      → IsOnlyMessage row.id before.chat (set_message_body env row.id body before.chat)
  unfolding set_message_body
  others_kept row body = record {
    others = λ k apart.
        find-update_where (λ m. m.id == k) (λ m. m.id == row.id) _ before.conversation_messages
          (λ m. refl)
        ∙ elim (Option-cases (find (λ m. m.id == k) before.conversation_messages)) [
          | inl e ↦ rw e refl
          | inr (m, e) ↦ rw e (rw (misses k m apart (find_fits _ _ m e)) refl)
        ];
    conversations = refl;
    seats = refl;
  }
    where
      misses :
          (k : ℕ) (m : MessageRow)
          → (k == row.id) ≡ false
          → (m.id == k) ≡ true
          → (m.id == row.id) ≡ false
      misses k m apart same = ground arith

  -- Where `update_dm_body` succeeds, the text is not empty, and the actor sits in the conversation
  -- and wrote the live message of the index. That message stands under its index with the text, no
  -- other message, conversation or seat changes, and the counters of every conversation stay exact.
  pub update_dm_body_lem :
      (input : Text)
      → update_dm_body env actor_id conversation_id obj_index input before ≡ ok after
      → (not (is_empty (trim (sanitize_stored_text input))) ≡ true)
        × ((row : MessageRow) × IsOwnMessage actor_id conversation_id obj_index row before
            × ((edited : MessageRow) × (find
                    (is_at conversation_id obj_index)
                    after.conversation_messages
                  ≡ some edited)
                × IsReworded env (trim (sanitize_stored_text input)) row edited)
            × IsOnlyMessage row.id before.chat after.chat)
        × IsExact after.chat
  unfolding update_dm_body insert_event insert_audit upsert_search_index_tx replace_labels_tx
      delete_labels_tx
  update_dm_body_lem input h =
      let body = trim (sanitize_stored_text input) in
      let (u, e0, h0) = >>=-ok (ensure (not (is_empty body)) message_body_required) _ h in
      let (row, e, h1) = >>=-ok (load_own_dm actor_id conversation_id obj_index before) _ h0 in
      let own = load_own_dm-IsOwnMessage actor_id conversation_id obj_index before row e in
      let chat = sym (ap (λ (db : Db). db.chat) (ok_inj _ _ h1)) in
      (
        ensure-eq-ok _ message_body_required e0,
        (
          row,
          own,
          subst
              (λ (c : Chat).
                (edited : MessageRow) × (find (is_at conversation_id obj_index)
                    c.conversation_messages
                  ≡ some edited)
                × IsReworded env body row edited)
              (sym chat) (reworded row body (unfold is_at in own.found)),
          subst (IsOnlyMessage row.id before.chat) (sym chat) (others_kept row body),
        ),
        subst IsExact (sym chat) (set_message_body-IsExact env row.id body before.chat exact),
      )
