-- ===== src/Threads/Safety/Editing.antt =====
-- The handlers that change a thread itself: `edit_thread` of src/features/messages/state.rs and
-- `update_thread_flag` of src/features/shared/permissions.rs.
use mathlib.Core.Path.{subst}
use sshoosh.Base.{
  ℕ, ◌≢◌, ◌≡◌, refl, sym, ap, ◌∙◌, true, false, Bool, ◌&&◌, not, Option, none, some, ◌==◌, is_none,
  if◌then◌else◌, ok, ensure, some_or, >>=-ok, some_or-eq-ok, ensure-eq-ok, ok_inj, refuted, no_row,
  thread_not_found, title_required, body_required, name_taken,
}
use sshoosh.Base.Tables.{find}
use sshoosh.Text.{Text, text_eq, trim, is_empty}
use sshoosh.Text.Name.{normalize_name_key}
use sshoosh.Threads.Handlers.{
  active_thread_name_exists, active_channel_exists, ensure_thread_name_available,
}
use sshoosh.Text.Sanitize.{sanitize_stored_text, sanitize_single_line_text}
use sshoosh.Db.{Db, Chat, Env, thread, ThreadRow}
use sshoosh.Feed.{insert_event, insert_audit}
use sshoosh.Feed.Index.{
  upsert_search_index_tx, delete_search_index_tx, replace_labels_tx, delete_labels_tx,
  delete_thread_labels_tx,
}
use sshoosh.Guards.{load_thread_meta_tx, ensure_can_modify_thread}
use sshoosh.Threads.Writes.{is_thread}
use sshoosh.Threads.Editing.{
  update_thread, ensure_title_free, thread_edited, edit_thread, set_text, ThreadFlag, archived,
  pinned, deleted, is_pinned, is_deletion, set_flag, update_thread_flag,
}
use sshoosh.Threads.Counters.{IsCounted}
use sshoosh.Threads.Counters.Edited.{
  IsMild, update_thread-IsCounted, find-update_thread, find-update_thread_other,
}
use sshoosh.Threads.Safety.Comments.{live-found}
use sshoosh.Threads.Safety.Modifier.{
  IsModifier, moderator-IsModifier, ensure_can_modify_thread-IsModifier,
}

-- No open channel has the key for its slug, and no live thread of the channel has it.
pub record IsFree (channel_id : ℕ) (key : Text) (db : Db) : Type 0 where
  pub no_channel : active_channel_exists key db ≡ false
  pub no_thread : active_thread_name_exists (some channel_id) key db ≡ false

-- Beside one thread's row, the threads, the comments and the read marks are those before.
pub record IsOnly (thread_id : ℕ) (before after : Chat) : Type 0 where
  pub others :
      (k : ℕ)
      → (k == thread_id) ≡ false
      → find (is_thread k) after.threads ≡ find (is_thread k) before.threads
  pub comments : after.comments ≡ before.comments
  pub reads : after.thread_reads ≡ before.thread_reads

-- The column that stands for a flag.
unfoldable pub flag_of : ThreadFlag → ThreadRow → Option ℕ
flag_of archived t = t.archived_at
flag_of pinned t = t.pinned_at
flag_of deleted t = t.deleted_at

-- The flag has the value, the other flags and the texts are those of the old row.
pub record IsFlagged (flag : ThreadFlag) (value : Option ℕ) (old row : ThreadRow) : Type 0 where
  pub written : flag_of flag row ≡ value
  pub others : (g : ThreadFlag) → g ≢ flag → flag_of g row ≡ flag_of g old
  pub texts : (row.title ≡ old.title) × (row.body ≡ old.body)

-- The row has the texts, the key and the time of an edit, and keeps its flags, channel and creator.
pub record IsRewritten (env : Env) (title body : Text) (old row : ThreadRow) : Type 0 where
  pub title_is : row.title ≡ title
  pub body_is : row.body ≡ body
  pub key_is : row.name_key ≡ some (normalize_name_key env.unicode_lower title)
  pub edited : row.edited_at ≡ some env.now
  pub flags : (g : ThreadFlag) → flag_of g row ≡ flag_of g old
  pub place : (row.channel_id ≡ old.channel_id) × (row.creator_account_id ≡ old.creator_account_id)

else_taken {ℓ} : {A : Type ℓ} {b : Bool} (x : A) {y : A} → b ≡ false → (if b then x else y) ≡ y
else_taken x e = rw e refl

module _ (env : Env) (actor_id thread_id : ℕ) (before after : Db)
    (counted : IsCounted before.chat) where
  flag-IsMild : (flag : ThreadFlag) (value : Option ℕ) → IsMild (set_flag env flag value)
  unfolding set_flag
  flag-IsMild archived value = record {
    id = λ t. refl;
    count_kept = λ t. refl;
    last_kept = λ t. refl;
  }
  flag-IsMild pinned value = record {
    id = λ t. refl;
    count_kept = λ t. refl;
    last_kept = λ t. refl;
  }
  flag-IsMild deleted value = record {
    id = λ t. refl;
    count_kept = λ t. refl;
    last_kept = λ t. refl;
  }

  standing :
      (t : ThreadRow)
      → load_thread_meta_tx thread_id before ≡ ok t
      → find (is_thread thread_id) before.threads ≡ some t
  unfolding load_thread_meta_tx is_thread
  standing t e = (live-found before.chat thread_id t counted (some_or-eq-ok _ thread_not_found e)).0

  only :
      (f : ThreadRow → ThreadRow)
      → IsMild f
      → after.chat ≡ update_thread thread_id f before.chat
      → IsOnly thread_id before.chat after.chat
  only f mild same = subst (IsOnly thread_id before.chat) (sym same) (record {
    others = find-update_thread_other thread_id f mild before.chat counted;
    comments = unfold update_thread in refl;
    reads = unfold update_thread in refl;
  })

  flag-IsFlagged :
      (flag : ThreadFlag) (value : Option ℕ) (t : ThreadRow)
      → IsFlagged flag value t (set_flag env flag value t)
  unfolding set_flag flag_of
  flag-IsFlagged archived value t = record {
    written = refl;
    others = elim [ archived ↦ λ n. absurd (n refl) | pinned ↦ λ n. refl | deleted ↦ λ n. refl ];
    texts = (refl, refl);
  }
  flag-IsFlagged pinned value t = record {
    written = refl;
    others = elim [ archived ↦ λ n. refl | pinned ↦ λ n. absurd (n refl) | deleted ↦ λ n. refl ];
    texts = (refl, refl);
  }
  flag-IsFlagged deleted value t = record {
    written = refl;
    others = elim [ archived ↦ λ n. refl | pinned ↦ λ n. refl | deleted ↦ λ n. absurd (n refl) ];
    texts = (refl, refl);
  }

  flag-IsModifier :
      (flag : ThreadFlag) (target : ThreadRow)
      → IsModifier actor_id target (is_pinned flag) before
      → IsModifier actor_id target false before
        × (flag ≡ pinned → IsModifier actor_id target true before)
  unfolding is_pinned
  flag-IsModifier archived target m = (m, λ e. cc)
  flag-IsModifier pinned target m = (moderator-IsModifier actor_id target before m, λ e. m)
  flag-IsModifier deleted target m = (m, λ e. cc)

  -- Where `update_thread_flag` succeeds, the thread was not deleted and the actor may modify it, for
  -- pinning as an administrator or as the creator of the channel. Of the thread's row the one flag
  -- is set to the time, or cleared, the other flags and the texts are kept; no other thread, comment
  -- or read mark changes, and the counters stay within the invariant they were in.
  pub update_thread_flag_lem :
      (flag : ThreadFlag) (enabled : Bool)
      → update_thread_flag env actor_id thread_id flag enabled before ≡ ok after
      → (target : ThreadRow) × (find (λ t. t.id == thread_id && is_none t.deleted_at) before.threads
          ≡ some target)
        × (IsModifier actor_id target false before
            × (flag ≡ pinned → IsModifier actor_id target true before))
        × ((row : ThreadRow) × (find (is_thread thread_id) after.threads ≡ some row)
            × IsFlagged flag (if enabled then some env.now else none) target row)
        × IsOnly thread_id before.chat after.chat
        × IsCounted after.chat
  unfolding update_thread_flag load_thread_meta_tx insert_event insert_audit delete_search_index_tx
      delete_thread_labels_tx
  update_thread_flag_lem flag enabled h =
      let (t, e1, h1) = >>=-ok (load_thread_meta_tx thread_id before) _ h in
      let (a, e2, h2) = >>=-ok (ensure_can_modify_thread actor_id t (is_pinned flag) before) _ h1 in
      let chat =
        sym (ap (λ (db : Db). db.chat) (ok_inj _ _ h2)) ∙ cleared (is_deletion flag enabled) in
      (
        t,
        some_or-eq-ok _ thread_not_found e1,
        flag-IsModifier flag t
            (ensure_can_modify_thread-IsModifier actor_id t (is_pinned flag) before a e2),
        (
          set_flag env flag _ t,
          ap (λ (c : Chat). find (is_thread thread_id) c.threads) chat
              ∙ find-update_thread thread_id _ (flag-IsMild flag _) before.chat counted t
                  (standing t e1),
          flag-IsFlagged flag _ t,
        ),
        only (set_flag env flag _) (flag-IsMild flag _) chat,
        subst IsCounted (sym chat)
            (update_thread-IsCounted thread_id _ (flag-IsMild flag _) before.chat counted),
      )
    where
      written : Db
      written = record before {
        chat =
            update_thread thread_id (set_flag env flag (if enabled then some env.now else none))
              before.chat;
      }

      cleared :
          (b : Bool)
          → (if b
              then delete_thread_labels_tx thread_id
                  (delete_search_index_tx thread thread_id written)
              else written).chat
            ≡ written.chat
      cleared true = refl
      cleared false = refl

  -- After `ensure_title_free` the title keeps its key, or no channel and no live thread of the
  -- channel has its key.
  ensure_title_free-IsFree :
      (target : ThreadRow) (title : Text) (u : Unit {0})
      → ensure_title_free env target title before ≡ ok u
      → text_eq
          (normalize_name_key env.unicode_lower title)
          (normalize_name_key env.unicode_lower target.title)
        ≡ false
      → IsFree target.channel_id (normalize_name_key env.unicode_lower title) before
  unfolding ensure_title_free ensure_thread_name_available
  ensure_title_free-IsFree target title u h changed =
      let key = normalize_name_key env.unicode_lower title in
      let (u, e1, h1) =
        >>=-ok (ensure (not (active_channel_exists key before)) name_taken) _
          (sym (else_taken _ changed) ∙ h) in
      record {
        no_channel = refuted _ (ensure-eq-ok _ name_taken e1);
        no_thread = refuted _ (ensure-eq-ok _ name_taken h1);
      }

  -- What follows the write leaves the chat tables alone.
  thread_edited-chat :
      (target : ThreadRow) (title body : Text) (written : Db)
      → thread_edited env actor_id thread_id target title body written ≡ ok after
      → after.chat ≡ written.chat
  unfolding thread_edited insert_event insert_audit upsert_search_index_tx replace_labels_tx
      delete_labels_tx
  thread_edited-chat target title body written h =
      let (c, e1, h1) =
        >>=-ok (some_or (find (λ c. c.id == target.channel_id) written.channels) no_row) _ h in
      let (row, e2, h2) =
        >>=-ok (some_or (find (is_thread thread_id) written.threads) no_row) _ h1 in
      sym (ap (λ (db : Db). db.chat) (ok_inj _ _ h2))

  -- Where `edit_thread` succeeds, the thread was not deleted, the actor may modify it, the new title
  -- and body are not blank, and a title with another key than before is free. The thread's row has the
  -- sanitised texts and keeps its flags; no other thread, comment or read mark changes, and the
  -- counters stay within the invariant they were in.
  pub edit_thread_lem :
      (title_input body_input : Text)
      → edit_thread env actor_id thread_id title_input body_input before ≡ ok after
      → let title = trim (sanitize_single_line_text title_input) in
        let body = trim (sanitize_stored_text body_input) in
        let key = normalize_name_key env.unicode_lower title in
        (target : ThreadRow) × (find (λ t. t.id == thread_id && is_none t.deleted_at) before.threads
          ≡ some target)
        × IsModifier actor_id target false before
        × (is_empty title ≡ false)
        × (is_empty body ≡ false)
        × (text_eq key (normalize_name_key env.unicode_lower target.title) ≡ false
            → IsFree target.channel_id key before)
        × ((row : ThreadRow) × (find (is_thread thread_id) after.threads ≡ some row)
            × IsRewritten env title body target row)
        × IsOnly thread_id before.chat after.chat
        × IsCounted after.chat
  unfolding edit_thread load_thread_meta_tx
  edit_thread_lem title_input body_input h =
      let title = trim (sanitize_single_line_text title_input) in
      let body = trim (sanitize_stored_text body_input) in
      let (t, e1, h1) = >>=-ok (load_thread_meta_tx thread_id before) _ h in
      let (a, e2, h2) = >>=-ok (ensure_can_modify_thread actor_id t false before) _ h1 in
      let (u, e3, h3) = >>=-ok (ensure (not (is_empty title)) title_required) _ h2 in
      let (v, e4, h4) = >>=-ok (ensure (not (is_empty body)) body_required) _ h3 in
      let (w, e5, h5) = >>=-ok (ensure_title_free env t title before) _ h4 in
      let chat = thread_edited-chat t title body _ h5 in
      (
        t,
        some_or-eq-ok _ thread_not_found e1,
        ensure_can_modify_thread-IsModifier actor_id t false before a e2,
        refuted _ (ensure-eq-ok _ title_required e3),
        refuted _ (ensure-eq-ok _ body_required e4),
        ensure_title_free-IsFree t title w e5,
        (
          set_text env title body t,
          ap (λ (c : Chat). find (is_thread thread_id) c.threads) chat
              ∙ find-update_thread thread_id _ text-IsMild before.chat counted t (standing t e1),
          text-IsRewritten title body t,
        ),
        only (set_text env title body) text-IsMild chat,
        subst IsCounted (sym chat)
            (update_thread-IsCounted thread_id _ text-IsMild before.chat counted),
      )
    where
      text-IsMild : {title body : Text} → IsMild (set_text env title body)
      text-IsMild = record { id = λ t. refl; count_kept = λ t. refl; last_kept = λ t. refl }

      text-IsRewritten :
          (title body : Text) (t : ThreadRow)
          → IsRewritten env title body t (set_text env title body t)
      text-IsRewritten title body t = record {
        title_is = refl;
        body_is = refl;
        key_is = refl;
        edited = refl;
        flags = unfold flag_of in elim [ archived ↦ refl | pinned ↦ refl | deleted ↦ refl ];
        place = (refl, refl);
      }
