-- ===== src/Threads/Safety/Marks.antt =====
-- The handlers that move a reader's mark, mute or save a thread.
use mathlib.Core.Path.{subst}
use sshoosh.Base.{
  ℕ, ◌≡◌, sym, ap, ◌∙◌, Bool, true, false, Option, none, some, ok, some_or, if◌then◌else◌, >>=-ok,
  some_or-eq-ok, ok_inj, some_inj, thread_not_found, no_row, leb,
}
use sshoosh.Base.Int.{pos, below}
use sshoosh.Base.Tables.{find, count}
use sshoosh.Db.{Db, Env, Chat, ThreadRow, ThreadReadRow}
use sshoosh.Feed.{insert_audit}
use sshoosh.Guards.{load_thread_meta_tx, ensure_can_view_channel}
use sshoosh.Threads.Writes.{
  is_thread, is_read_of, is_unread, read_all, unread_last, upsert_thread_read_state,
}
use sshoosh.Threads.Handlers.{
  mark_thread_read, mark_thread_unread, set_thread_muted, set_thread_saved, mark_feed_read,
}
use sshoosh.Threads.Counters.{IsCounted, IsExact}
use sshoosh.Threads.Counters.Marks.{
  read_all-IsCounted, read_all-mark, unread_last-IsCounted, unread_last-mark,
  upsert_thread_read_state-IsCounted, upsert_thread_read_state-IsExact,
}
use sshoosh.Threads.Safety.Comments.{live-found}
use sshoosh.Threads.Safety.Deletions.{IsViewer, ensure_can_view_channel-IsViewer}

-- What the handlers of a reader's own row have checked before they write `write t`.
record IsMarked (account_id thread_id : ℕ) (write : ThreadRow → Chat) (before after : Db)
    : Type 0 where
  pub thread : ThreadRow
  pub found : find (is_thread thread_id) before.threads ≡ some thread
  pub viewer : IsViewer account_id thread.channel_id before
  pub chat : after.chat ≡ write thread

module _ (account_id thread_id : ℕ) (before : Db) (counted : IsCounted before.chat) where
  checked :
      (t : ThreadRow)
      → load_thread_meta_tx thread_id before ≡ ok t
      → find (is_thread thread_id) before.threads ≡ some t
  unfolding load_thread_meta_tx is_thread
  checked t e = (live-found before.chat thread_id t counted (some_or-eq-ok _ thread_not_found e)).0

  saved_state :
      {t : ThreadRow} (mute : Bool) (muted_until : Option ℕ) (save : Bool) (saved_at : Option ℕ)
      (after : Db)
      → find (is_thread thread_id) before.threads ≡ some t
      → upsert_thread_read_state account_id thread_id mute muted_until save saved_at before.chat
        ≡ after.chat
      → IsCounted after.chat
        × (IsExact thread_id account_id before.chat → IsExact thread_id account_id after.chat)
  saved_state {t} mute muted_until save saved_at after found same =
      subst
        (λ (chat : Chat).
          IsCounted chat
          × (IsExact thread_id account_id before.chat → IsExact thread_id account_id chat))
        same
        (
          upsert_thread_read_state-IsCounted thread_id account_id before.chat counted t found mute
              save muted_until saved_at,
          upsert_thread_read_state-IsExact thread_id account_id before.chat counted t found mute
              save muted_until saved_at,
        )

  mark_thread_read-IsMarked :
      (env : Env) (after : Db)
      → mark_thread_read env account_id thread_id before ≡ ok after
      → IsMarked account_id thread_id
          (λ t. read_all thread_id account_id t.last_comment_index before.chat)
          before
          after
  unfolding mark_thread_read mark_feed_read
  mark_thread_read-IsMarked env after h =
      let (t, e1, h1) = >>=-ok (load_thread_meta_tx thread_id before) _ h in
      let (u, e2, h2) = >>=-ok (ensure_can_view_channel account_id t.channel_id before) _ h1 in
      let (l, e3, h3) = >>=-ok (some_or (find (is_thread thread_id) before.threads) no_row) _ h2 in
      record {
        thread = t;
        found = checked t e1;
        viewer = ensure_can_view_channel-IsViewer account_id t.channel_id before e2;
        chat =
            sym (ap (λ (db : Db). db.chat) (ok_inj _ _ h3))
            ∙ ap (λ (x : ThreadRow). read_all thread_id account_id x.last_comment_index before.chat)
                (some_inj l t (sym (some_or-eq-ok _ no_row e3) ∙ checked t e1));
      }

  mark_thread_unread-IsMarked :
      (env : Env) (after : Db)
      → mark_thread_unread env account_id thread_id before ≡ ok after
      → IsMarked account_id thread_id
          (λ t. unread_last env thread_id account_id t.last_comment_index before.chat)
          before
          after
  unfolding mark_thread_unread
  mark_thread_unread-IsMarked env after h =
      let (t, e1, h1) = >>=-ok (load_thread_meta_tx thread_id before) _ h in
      let (u, e2, h2) = >>=-ok (ensure_can_view_channel account_id t.channel_id before) _ h1 in
      let (l, e3, h3) = >>=-ok (some_or (find (is_thread thread_id) before.threads) no_row) _ h2 in
      record {
        thread = t;
        found = checked t e1;
        viewer = ensure_can_view_channel-IsViewer account_id t.channel_id before e2;
        chat =
            sym (ap (λ (db : Db). db.chat) (ok_inj _ _ h3))
            ∙ ap
                (λ (x : ThreadRow).
                  unread_last env thread_id account_id x.last_comment_index before.chat)
                (some_inj l t (sym (some_or-eq-ok _ no_row e3) ∙ checked t e1));
      }

  -- After `mark_thread_read` the counters are right, and the reader has a row, whose mark is the last
  -- index of the thread and whose count is 0, as no comment of the thread has an index after it.
  pub mark_thread_read_lem :
      (env : Env) (after : Db)
      → mark_thread_read env account_id thread_id before ≡ ok after
      → IsCounted after.chat
        × ((t : ThreadRow) × (find (is_thread thread_id) before.threads ≡ some t)
            × ((r : ThreadReadRow) × (find (is_read_of thread_id account_id) after.thread_reads
                  ≡ some r)
                × ((r.last_read_index ≡ pos t.last_comment_index)
                    × (r.unread_count ≡ 0)
                    × (count (is_unread thread_id r.last_read_index) before.comments) ≡ 0)))
  mark_thread_read_lem env after h =
      let m = mark_thread_read-IsMarked env after h in
      subst
        (λ (chat : Chat).
          IsCounted chat
          × ((t : ThreadRow) × (find (is_thread thread_id) before.threads ≡ some t)
              × ((r : ThreadReadRow) × (find (is_read_of thread_id account_id) chat.thread_reads
                    ≡ some r)
                  × ((r.last_read_index ≡ pos t.last_comment_index)
                      × (r.unread_count ≡ 0)
                      × (count (is_unread thread_id r.last_read_index) before.comments) ≡ 0))))
        (sym m.chat)
        (
          read_all-IsCounted thread_id account_id before.chat counted m.thread m.found,
          (
            m.thread,
            m.found,
            read_all-mark thread_id account_id before.chat counted m.thread m.found,
          ),
        )

  -- After `mark_thread_unread` the counters are right, and the reader has a row, by whose mark the
  -- indices from the thread's last one on are unread, and whose count is that of the comments after
  -- the mark.
  pub mark_thread_unread_lem :
      (env : Env) (after : Db)
      → mark_thread_unread env account_id thread_id before ≡ ok after
      → IsCounted after.chat
        × ((t : ThreadRow) × (find (is_thread thread_id) before.threads ≡ some t)
            × ((r : ThreadReadRow) × (find (is_read_of thread_id account_id) after.thread_reads
                  ≡ some r)
                × (((i : ℕ) → below r.last_read_index i ≡ leb t.last_comment_index i)
                    × (r.unread_count
                        ≡ count (is_unread thread_id r.last_read_index) before.comments))))
  mark_thread_unread_lem env after h =
      let m = mark_thread_unread-IsMarked env after h in
      subst
        (λ (chat : Chat).
          IsCounted chat
          × ((t : ThreadRow) × (find (is_thread thread_id) before.threads ≡ some t)
              × ((r : ThreadReadRow) × (find (is_read_of thread_id account_id) chat.thread_reads
                    ≡ some r)
                  × (((i : ℕ) → below r.last_read_index i ≡ leb t.last_comment_index i)
                      × (r.unread_count
                          ≡ count (is_unread thread_id r.last_read_index) before.comments)))))
        (sym m.chat)
        (
          unread_last-IsCounted thread_id account_id before.chat counted m.thread m.found env,
          (
            m.thread,
            m.found,
            unread_last-mark thread_id account_id before.chat counted m.thread m.found env,
          ),
        )

  -- Muting a thread keeps the counters, and the reader's own count exact if it was, also when the
  -- reader had no row yet.
  pub set_thread_muted_lem :
      (env : Env) (until : Option ℕ) (after : Db)
      → set_thread_muted env account_id thread_id until before ≡ ok after
      → IsCounted after.chat
        × (IsExact thread_id account_id before.chat → IsExact thread_id account_id after.chat)
  unfolding set_thread_muted insert_audit
  set_thread_muted_lem env until after h =
      let (t, e1, h1) = >>=-ok (load_thread_meta_tx thread_id before) _ h in
      let (u, e2, h2) = >>=-ok (ensure_can_view_channel account_id t.channel_id before) _ h1 in
      saved_state true until false none after (checked t e1)
        (ap (λ (db : Db). db.chat) (ok_inj _ _ h2))

  -- Saving a thread keeps the counters, and the reader's own count exact if it was.
  pub set_thread_saved_lem :
      (env : Env) (saved : Bool) (after : Db)
      → set_thread_saved env account_id thread_id saved before ≡ ok after
      → IsCounted after.chat
        × (IsExact thread_id account_id before.chat → IsExact thread_id account_id after.chat)
  unfolding set_thread_saved insert_audit
  set_thread_saved_lem env saved after h =
      let (t, e1, h1) = >>=-ok (load_thread_meta_tx thread_id before) _ h in
      let (u, e2, h2) = >>=-ok (ensure_can_view_channel account_id t.channel_id before) _ h1 in
      saved_state false none true (if saved then some env.now else none) after (checked t e1)
        (ap (λ (db : Db). db.chat) (ok_inj _ _ h2))
