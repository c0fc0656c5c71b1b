-- ===== src/Threads/Counters/Deleted.antt =====
-- `soft_delete_comment` keeps the counters.
use mathlib.Core.Option
use mathlib.Core.Path.{subst}
use sshoosh.Base.{
  ℕ, ◌+◌, ◌-◌, ◌≡◌, refl, sym, ap, ◌∙◌, Bool, true, ◌&&◌, Option, none, some, ◌==◌, ltb,
  if◌then◌else◌, arith, some_inj,
}
use sshoosh.Base.Int.{ℤ, below}
use sshoosh.Base.Tables.{find, count, All}
use sshoosh.Base.Tables.Find.{find-update_where, find_fits}
use sshoosh.Base.Tables.Count.{count-update_where, count-update_where_key}
use sshoosh.Base.Tables.Rows.{All-update_where}
use sshoosh.Db.{Chat, Env, ThreadRow, CommentRow, ThreadReadRow}
use sshoosh.Threads.Writes.{is_thread, is_read_of, is_live, is_unread, delete_comment_row}
use sshoosh.Threads.Counters.{InRange, IsCounted, IsExact, IsReadOk}

module _ (env : Env) (thread_id : ℕ) (row : CommentRow) (chat : Chat) (counted : IsCounted chat)
    (q : CommentRow → Bool) (found : find q chat.comments ≡ some row)
    (live : is_live thread_id row ≡ true) where
  abbrev after : Chat
  after = delete_comment_row env thread_id row chat

  deleted_row : CommentRow → CommentRow
  deleted_row c = record c { deleted_at = some env.now; updated_at = env.now }

  abbrev counted_out : ThreadReadRow → Bool
  counted_out r =
      r.thread_id == thread_id && ltb 0 r.unread_count && below r.last_read_index row.obj_index

  -- The comment counted for its thread alone, and for the readers whose mark lies below it.
  row-live : (k : ℕ) → is_live k row ≡ (thread_id == k)
  unfolding is_live
  row-live k = ground arith

  row-unread : (k : ℕ) (lr : ℤ) → is_unread k lr row ≡ (thread_id == k && below lr row.obj_index)
  unfolding is_unread is_live
  row-unread k lr = ground arith

  count-live :
      (k : ℕ)
      → count (is_live k) after.comments + (if thread_id == k then 1 else 0)
        ≡ count (is_live k) chat.comments
  unfolding delete_comment_row
  count-live k = rw (← row-live k) (
      count-update_where_key (is_live k) (λ c. c.id == row.id) q _ chat.comments row
        (λ b. unfold is_live in ground arith) (counted.comment_ids row.id) found (ground arith))

  count-unread :
      (k : ℕ) (lr : ℤ)
      → count (is_unread k lr) after.comments
          + (if thread_id == k && below lr row.obj_index then 1 else 0)
        ≡ count (is_unread k lr) chat.comments
  unfolding delete_comment_row
  count-unread k lr = rw (← row-unread k lr) (
      count-update_where_key (is_unread k lr) (λ c. c.id == row.id) q _ chat.comments row
        (λ b. unfold is_unread is_live in ground arith) (counted.comment_ids row.id) found
        (ground arith))

  uncounted_thread : ThreadRow → ThreadRow
  uncounted_thread t =
      if is_thread thread_id t
      then record t { comment_count = t.comment_count - 1; updated_at = env.now }
      else t

  find-threads :
      (k : ℕ)
      → find (is_thread k) after.threads
        ≡ Option.map uncounted_thread (find (is_thread k) chat.threads)
  unfolding delete_comment_row uncounted_thread is_thread
  find-threads k = find-update_where (is_thread k) _ _ chat.threads (λ t. refl)

  uncounted_read : ThreadReadRow → ThreadReadRow
  uncounted_read r = if counted_out r then record r { unread_count = r.unread_count - 1 } else r

  find-reads :
      (k a : ℕ)
      → find (is_read_of k a) after.thread_reads
        ≡ Option.map uncounted_read (find (is_read_of k a) chat.thread_reads)
  unfolding delete_comment_row uncounted_read is_read_of
  find-reads k a = find-update_where (is_read_of k a) _ _ chat.thread_reads (λ r. refl)

  -- A row after the update comes from one before.
  map_inv :
      {A : Type 0} (f : A → A) (o : Option A) (b : A)
      → Option.map f o ≡ some b
      → (a : A) × (o ≡ some a) × (f a ≡ b)
  map_inv f none b h = cc
  map_inv f (some a) b h = (a, refl, some_inj (f a) b h)

  read_ok :
      (k a last : ℕ) (r : ThreadReadRow)
      → is_read_of k a r ≡ true
      → IsReadOk k last chat.comments r
      → IsReadOk k last after.comments (uncounted_read r)
  unfolding uncounted_read is_read_of
  read_ok k a last r key h = ground (arith, count-unread k r.last_read_index)

  read_exact :
      (k a : ℕ) (r : ThreadReadRow)
      → is_read_of k a r ≡ true
      → r.unread_count ≡ count (is_unread k r.last_read_index) chat.comments
      → (uncounted_read r).unread_count
        ≡ count (is_unread k (uncounted_read r).last_read_index) after.comments
  unfolding uncounted_read is_read_of
  read_exact k a r key h = ground (arith, count-unread k r.last_read_index)

  deleted_range :
      (k : ℕ) (t : ThreadRow)
      → find (is_thread k) after.threads ≡ some t
      → All (InRange k t.last_comment_index) after.comments
  deleted_range k t h =
      let (x, e, d) = map_inv uncounted_thread _ t (sym (find-threads k) ∙ h) in
      subst (λ y. All (InRange k y) after.comments)
        (same_last x ∙ ap (λ (y : ThreadRow). y.last_comment_index) d)
        (unfold delete_comment_row in
          All-update_where _ _ chat.comments (λ c i. record { range = i.range })
            (counted.in_range k x e))
    where
      same_last : (x : ThreadRow) → x.last_comment_index ≡ (uncounted_thread x).last_comment_index
      same_last x = unfold uncounted_thread in ground arith

  deleted_count :
      (k : ℕ) (t : ThreadRow)
      → find (is_thread k) after.threads ≡ some t
      → t.comment_count ≡ count (is_live k) after.comments
  unfolding uncounted_thread is_thread
  deleted_count k t h =
      let (x, e, d) = map_inv uncounted_thread _ t (sym (find-threads k) ∙ h) in
      ground (
        arith,
        d,
        find_fits (is_thread k) chat.threads x e,
        counted.comment_count k x e,
        count-live k,
      )

  deleted_read :
      (k a : ℕ) (t : ThreadRow) (r : ThreadReadRow)
      → find (is_thread k) after.threads ≡ some t
      → find (is_read_of k a) after.thread_reads ≡ some r
      → IsReadOk k t.last_comment_index after.comments r
  deleted_read k a t r h g =
      let (x, e, d) = map_inv uncounted_thread _ t (sym (find-threads k) ∙ h) in
      let (y, e', d') = map_inv uncounted_read _ r (sym (find-reads k a) ∙ g) in
      subst (IsReadOk k t.last_comment_index after.comments) d' (
        read_ok k a t.last_comment_index y (find_fits (is_read_of k a) chat.thread_reads y e') (
          subst (λ n. IsReadOk k n chat.comments y)
            (same_last x ∙ ap (λ (z : ThreadRow). z.last_comment_index) d)
            (counted.read_marks k a x y e e', counted.unread_bound k a x y e e')))
    where
      same_last : (x : ThreadRow) → x.last_comment_index ≡ (uncounted_thread x).last_comment_index
      same_last x = unfold uncounted_thread in ground arith

  -- Deleting a comment keeps every counter.
  pub delete_comment_row-IsCounted : IsCounted (delete_comment_row env thread_id row chat)
  delete_comment_row-IsCounted = record {
    thread_ids =
        λ k. unfold delete_comment_row is_thread in rw count-update_where (counted.thread_ids k);
    comment_ids = λ k. unfold delete_comment_row in rw count-update_where (counted.comment_ids k);
    members = unfold delete_comment_row in counted.members;
    in_range = deleted_range;
    comment_count = deleted_count;
    read_marks = λ k a t r h g. (deleted_read k a t r h g).0;
    unread_bound = λ k a t r h g. (deleted_read k a t r h g).1;
  }

  -- Whoever had an exact count has one after the deletion, in every thread.
  pub delete_comment_row-IsExact :
      (k a : ℕ) → IsExact k a chat → IsExact k a (delete_comment_row env thread_id row chat)
  delete_comment_row-IsExact k a exact r h =
      let (y, e, d) = map_inv uncounted_read _ r (sym (find-reads k a) ∙ h) in
      subst
        (λ (z : ThreadReadRow).
          z.unread_count ≡ count (is_unread k z.last_read_index) after.comments)
        d (read_exact k a y (find_fits (is_read_of k a) chat.thread_reads y e) (exact y e))
