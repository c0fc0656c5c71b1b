-- ===== src/Threads/Counters/Edited.antt =====
-- A write on a thread itself, beside its counters (`update_thread` in the handlers of
-- src/features/messages/state.rs).
use sshoosh.Base.{
  ℕ, ◌≡◌, refl, sym, ap, ◌∙◌, inl, inr, none, some, if◌then◌else◌, some_inj, Bool-cases,
  Option-cases, true, false, ◌==◌, arith,
}
use mathlib.Core.Option
use sshoosh.Base.Tables.{find, update_where}
use sshoosh.Base.Tables.Find.{find-update_where, find_fits}
use sshoosh.Base.Tables.Count.{count-update_where}
use sshoosh.Db.{Chat, ThreadRow}
use sshoosh.Threads.Writes.{is_thread}
use sshoosh.Threads.Editing.{update_thread}
use sshoosh.Threads.Counters.{IsCounted}

-- An update that leaves a thread its identity and its counters.
pub record IsMild (f : ThreadRow → ThreadRow) : Type 0 where
  pub id : (t : ThreadRow) → (f t).id ≡ t.id
  pub count_kept : (t : ThreadRow) → (f t).comment_count ≡ t.comment_count
  pub last_kept : (t : ThreadRow) → (f t).last_comment_index ≡ t.last_comment_index

module _ (thread_id : ℕ) (f : ThreadRow → ThreadRow) (mild : IsMild f) (chat : Chat)
    (counted : IsCounted chat) where
  renewed :
      (k : ℕ)
      → find (is_thread k) (update_where (is_thread thread_id) f chat.threads)
        ≡ Option.map
            (λ x. if is_thread thread_id x then f x else x)
            (find (is_thread k) chat.threads)
  renewed k =
      find-update_where (is_thread k) (is_thread thread_id) f chat.threads
        (λ x. unfold is_thread in rw (mild.id x) refl)

  -- The thread of the update has the new row,
  pub find-update_thread :
      (t : ThreadRow)
      → find (is_thread thread_id) chat.threads ≡ some t
      → find (is_thread thread_id) (update_thread thread_id f chat).threads ≡ some (f t)
  unfolding update_thread
  find-update_thread t h =
      renewed thread_id ∙ rw h (rw (find_fits (is_thread thread_id) chat.threads t h) refl)

  -- and every other thread the one it had.
  pub find-update_thread_other :
      (k : ℕ)
      → (k == thread_id) ≡ false
      → find (is_thread k) (update_thread thread_id f chat).threads
        ≡ find (is_thread k) chat.threads
  unfolding update_thread
  find-update_thread_other k apart =
      renewed k ∙ elim (Option-cases (find (is_thread k) chat.threads)) [
        | inl e ↦ rw e refl
        | inr (t, e) ↦ rw e (rw (misses t (find_fits (is_thread k) chat.threads t e)) refl)
      ]
    where
      misses : (t : ThreadRow) → is_thread k t ≡ true → is_thread thread_id t ≡ false
      misses t h = unfold is_thread in let same : (t.id == k) ≡ true = h in ground arith

  -- The row that a thread had before.
  old_row :
      (k : ℕ) (t : ThreadRow)
      → find (is_thread k) (update_where (is_thread thread_id) f chat.threads) ≡ some t
      → (old : ThreadRow) × (find (is_thread k) chat.threads ≡ some old)
        × (old.comment_count ≡ t.comment_count)
        × (old.last_comment_index ≡ t.last_comment_index)
  old_row k t h = elim (Option-cases (find (is_thread k) chat.threads)) [
    | inl e ↦ absurd (nothing (sym h ∙ renewed k ∙ ap (Option.map _) e))
    | inr (old, e) ↦
        let same = some_inj _ _ (sym h ∙ renewed k ∙ ap (Option.map _) e) in
        (
          old,
          e,
          sym (ap (λ (x : ThreadRow). x.comment_count) same ∙ kept_count old),
          sym (ap (λ (x : ThreadRow). x.last_comment_index) same ∙ kept_last old),
        )
  ]
    where
      nothing : some t ≡ none → ⊥
      nothing e = cc

      kept_count :
          (x : ThreadRow)
          → (if is_thread thread_id x then f x else x).comment_count ≡ x.comment_count
      kept_count x = elim (Bool-cases (is_thread thread_id x)) [
        | inl e ↦ rw e (mild.count_kept x)
        | inr e ↦ rw e refl
      ]

      kept_last :
          (x : ThreadRow)
          → (if is_thread thread_id x then f x else x).last_comment_index ≡ x.last_comment_index
      kept_last x = elim (Bool-cases (is_thread thread_id x)) [
        | inl e ↦ rw e (mild.last_kept x)
        | inr e ↦ rw e refl
      ]

  pub update_thread-IsCounted : IsCounted (update_thread thread_id f chat)
  unfolding update_thread
  update_thread-IsCounted = record {
    thread_ids = λ k.
        rw
          (count-update_where (is_thread k) (is_thread thread_id) f chat.threads
            (λ x. unfold is_thread in rw (mild.id x) refl))
          (counted.thread_ids k);
    comment_ids = counted.comment_ids;
    members = counted.members;
    in_range = λ k t h. let (old, e, c, l) = old_row k t h in rw (← l) (counted.in_range k old e);
    comment_count =
        λ k t h. let (old, e, c, l) = old_row k t h in sym c ∙ counted.comment_count k old e;
    read_marks = λ k a t r h g.
        let (old, e, c, l) = old_row k t h in rw (← l) (counted.read_marks k a old r e g);
    unread_bound =
        λ k a t r h g. let (old, e, c, l) = old_row k t h in counted.unread_bound k a old r e g;
  }
