-- ===== src/Threads/Counters/Added.antt =====
-- `add_comment` keeps the counters.
use mathlib.Core.Path.{subst, subst₂}
use sshoosh.Base.{
  ℕ, suc, ◌+◌, ◌≤◌, ◌≡◌, refl, sym, ◌∙◌, inl, inr, Bool, true, false, ◌&&◌, Option, none, some,
  List, [], ◌∷◌, ◌++◌, ◌==◌, ==_iff, ==_refl, ltb, if◌then◌else◌, arith, Bool-cases, Option-cases,
  some_inj,
}
use sshoosh.Base.Int.{ℤ, pos, below}
use sshoosh.Base.Tables.{find, count, exists, All}
use sshoosh.Base.Tables.Count.{count-append, count-update_where}
use sshoosh.Base.Tables.Rows.{All-append, All-mono}
use sshoosh.Text.{Text}
use sshoosh.Db.{Chat, Env, ThreadRow, CommentRow, ThreadReadRow}
use sshoosh.Threads.Writes.{
  is_thread, is_read_of, is_live, is_unread, count_comment, other_members, new_comment,
  with_comment, comment_conflicts,
}
use sshoosh.Threads.Counters.{InRange, IsCounted, IsExact, IsReadOk}
use sshoosh.Threads.Counters.Members.{
  bump_thread, find-count_comment, other_members_once, other_members_not_self, other_members_has,
}
use sshoosh.Threads.Counters.Reads.{read_after, find-after_comment, bumped, caught_up}
use sshoosh.Threads.Counters.Comments.{
  below_mono, below_self, is_live_new, is_unread_new, live-eq-unread, unread-past_last,
  InRange-later,
}

module _ (env : Env) (actor_id : ℕ) (thread : ThreadRow) (body : Text) (chat : Chat)
    (counted : IsCounted chat) (found : find (is_thread thread.id) chat.threads ≡ some thread) where
  abbrev next : ℕ
  next = thread.last_comment_index + 1

  abbrev row : CommentRow
  row = new_comment env actor_id thread body

  abbrev bumped_thread : ThreadRow
  bumped_thread = bump_thread env chat.threads thread next

  -- A statement of the threads after the write is one of the thread written to, and of the others.
  thread_cases :
      (P : ℕ → ThreadRow → Type 0)
      → P thread.id bumped_thread
      → ((k : ℕ) (t : ThreadRow)
          → (thread.id == k) ≡ false
          → find (is_thread k) chat.threads ≡ some t
          → P k t)
      → (k : ℕ) (t : ThreadRow)
      → find (is_thread k) (with_comment env actor_id thread body chat).threads ≡ some t
      → P k t
  unfolding with_comment
  thread_cases P here there k t h = elim (Bool-cases (thread.id == k)) [
    | inl e ↦
        subst₂ P ((==_iff thread.id k).0 e)
          (some_inj bumped_thread t
            (rw (find-count_comment env chat.threads thread next k found, e) at h))
          here
    | inr e ↦ there k t e (rw (find-count_comment env chat.threads thread next k found, e) at h)
  ]

  count-unread :
      (k : ℕ) (lr : ℤ)
      → count (is_unread k lr) (chat.comments ++ row ∷ [])
        ≡ count (is_unread k lr) chat.comments + (if thread.id == k && below lr next then 1 else 0)
  count-unread k lr = rw (count-append, is_unread_new k lr row refl)

  count-live :
      (k : ℕ)
      → count (is_live k) (chat.comments ++ row ∷ [])
        ≡ count (is_live k) chat.comments + (if thread.id == k then 1 else 0)
  count-live k = rw (count-append, is_live_new k row refl)

  old_range : All (InRange thread.id thread.last_comment_index) chat.comments
  old_range = counted.in_range thread.id thread found

  range_after : All (InRange thread.id next) (chat.comments ++ row ∷ [])
  range_after =
      All-append _ chat.comments row
        (All-mono chat.comments
          (λ c. InRange-later thread.id thread.last_comment_index next c (omega arith)) old_range)
        (record { range = λ _. omega arith })

  added_range :
      (k : ℕ) (t : ThreadRow)
      → find (is_thread k) (with_comment env actor_id thread body chat).threads ≡ some t
      → All (InRange k t.last_comment_index) (chat.comments ++ row ∷ [])
  added_range =
      thread_cases (λ k t. All (InRange k t.last_comment_index) (chat.comments ++ row ∷ []))
        range_after
        (λ k t e h.
          All-append _ chat.comments row (counted.in_range k t h)
            (record { range = λ d. ground arith }))

  added_count :
      (k : ℕ) (t : ThreadRow)
      → find (is_thread k) (with_comment env actor_id thread body chat).threads ≡ some t
      → t.comment_count ≡ count (is_live k) (chat.comments ++ row ∷ [])
  added_count =
      thread_cases (λ k t. t.comment_count ≡ count (is_live k) (chat.comments ++ row ∷ []))
        (rw (count-live thread.id, ==_refl thread.id)
          (omega (arith, counted.comment_count thread.id thread found)))
        (λ k t e h. rw (count-live k, e) (omega (arith, counted.comment_count k t h)))

  added_ids :
      comment_conflicts row chat.comments ≡ false
      → (k : ℕ) → count (λ c. c.id == k) (chat.comments ++ row ∷ []) ≤ 1
  unfolding comment_conflicts
  added_ids fresh k = rw count-append (elim (Bool-cases (env.id == k)) [
    | inl e ↦ rw e (
        subst (λ j. count (λ c. c.id == j) chat.comments + 1 ≤ 1) ((==_iff env.id k).0 e)
          (ground arith))
    | inr e ↦ rw e (omega (arith, counted.comment_ids k))
  ])

  abbrev comments_after : List CommentRow
  comments_after = chat.comments ++ row ∷ []

  -- The row is read for an old row that is fine, or for a reader that had none.
  abbrev IsOldOk : ℕ → ℕ → Option ThreadReadRow → Type 0
  IsOldOk k last none = Unit
  IsOldOk k last (some r) = IsReadOk k last chat.comments r

  caught_up_ok :
      (a : ℕ) (old : Option ThreadReadRow)
      → IsReadOk thread.id next comments_after (caught_up thread.id a next old)
  caught_up_ok a none = (below_self next, omega arith)
  caught_up_ok a (some r) = (below_self next, omega arith)

  bumped_ok :
      (a : ℕ) (old : Option ThreadReadRow)
      → IsOldOk thread.id thread.last_comment_index old
      → IsReadOk thread.id next comments_after (bumped thread.id a (thread.comment_count + 1) old)
  bumped_ok a none h = (
    ground arith,
    rw (count-unread thread.id (pos 0), ==_refl thread.id)
        (ground (
          arith,
          counted.comment_count thread.id thread found,
          live-eq-unread thread.id thread.last_comment_index chat.comments old_range,
        )),
  )
  bumped_ok a (some r) h = (
    below_mono r.last_read_index (suc thread.last_comment_index) (suc next) (omega arith) h.0,
    rw (count-unread thread.id r.last_read_index, ==_refl thread.id)
        (ground (
          arith,
          below_mono r.last_read_index (suc thread.last_comment_index) next (omega arith) h.0,
        )),
  )

  stays_ok :
      (k last last' : ℕ) (r : ThreadReadRow)
      → last ≤ last'
      → IsReadOk k last chat.comments r
      → IsReadOk k last' comments_after r
  stays_ok k last last' r le h = (
    below_mono r.last_read_index (suc last) (suc last') (omega arith) h.0,
    rw (count-unread k r.last_read_index) (omega (arith, h.1)),
  )

  read_after_ok :
      (a : ℕ) (is_other : Bool) (old : Option ThreadReadRow) (r : ThreadReadRow)
      → IsOldOk thread.id thread.last_comment_index old
      → read_after thread.id actor_id next (thread.comment_count + 1) thread.id a is_other old
        ≡ some r
      → IsReadOk thread.id next comments_after r
  unfolding read_after
  read_after_ok a is_other old r ok_old h = elim (Bool-cases (actor_id == a)) [
    | inl e ↦
        subst (IsReadOk thread.id next comments_after)
          (some_inj _ r (rw (==_refl thread.id, e) at h)) (caught_up_ok a old)
    | inr e ↦ other is_other old ok_old (rw (==_refl thread.id, e) at h)
  ]
    where
      other :
          (is_other : Bool) (old : Option ThreadReadRow)
          → IsOldOk thread.id thread.last_comment_index old
          → (if is_other then some (bumped thread.id a (thread.comment_count + 1) old) else old)
            ≡ some r
          → IsReadOk thread.id next comments_after r
      other true old ok_old h =
          subst (IsReadOk thread.id next comments_after) (some_inj _ r h) (bumped_ok a old ok_old)
      other false none ok_old h = cc
      other false (some x) ok_old h =
          subst (IsReadOk thread.id next comments_after) (some_inj x r h)
            (stays_ok thread.id thread.last_comment_index next x (omega arith) ok_old)

  old_ok :
      (k a : ℕ) (t : ThreadRow)
      → find (is_thread k) chat.threads ≡ some t
      → IsOldOk k t.last_comment_index (find (is_read_of k a) chat.thread_reads)
  old_ok k a t h = elim (Option-cases (find (is_read_of k a) chat.thread_reads)) [
    | inl e ↦ rw e tt
    | inr (r, e) ↦ rw e (counted.read_marks k a t r h e, counted.unread_bound k a t r h e)
  ]

  others : List ℕ
  others = other_members thread.channel_id actor_id chat

  find-reads :
      (k a : ℕ)
      → find (is_read_of k a) (with_comment env actor_id thread body chat).thread_reads
        ≡ read_after thread.id actor_id next
            (thread.comment_count + 1)
            k
            a
            (ltb 0 (count (λ b. b == a) others))
            (find (is_read_of k a) chat.thread_reads)
  unfolding with_comment others
  find-reads k a =
      find-after_comment thread.id actor_id next (thread.comment_count + 1) k a others
        chat.thread_reads
        (other_members_once thread.channel_id actor_id chat a (counted.members thread.channel_id a))
        (other_members_not_self thread.channel_id actor_id chat a)

  added_reads :
      (a k : ℕ) (t : ThreadRow)
      → find (is_thread k) (with_comment env actor_id thread body chat).threads ≡ some t
      → (r : ThreadReadRow)
      → find (is_read_of k a) (with_comment env actor_id thread body chat).thread_reads ≡ some r
      → IsReadOk k t.last_comment_index comments_after r
  added_reads a =
      thread_cases
        (λ k t.
          (r : ThreadReadRow)
          → find (is_read_of k a) (with_comment env actor_id thread body chat).thread_reads ≡ some r
          → IsReadOk k t.last_comment_index comments_after r)
        (λ r h.
          read_after_ok a _ _ r (old_ok thread.id a thread found)
            (rw (find-reads thread.id a) at h))
        (λ k t e g r h.
          stays_ok k t.last_comment_index t.last_comment_index r (omega arith)
            (subst (IsOldOk k t.last_comment_index) (sym (elsewhere k a e) ∙ h) (old_ok k a t g)))
    where
      elsewhere :
          (k a : ℕ)
          → (thread.id == k) ≡ false
          → find (is_read_of k a) (with_comment env actor_id thread body chat).thread_reads
            ≡ find (is_read_of k a) chat.thread_reads
      elsewhere k a e = find-reads k a ∙ unfold read_after in rw e

  -- Adding a comment keeps every counter.
  pub with_comment-IsCounted :
      comment_conflicts row chat.comments ≡ false
      → IsCounted (with_comment env actor_id thread body chat)
  unfolding with_comment
  with_comment-IsCounted fresh = record {
    thread_ids =
        λ k. unfold count_comment is_thread in rw count-update_where (counted.thread_ids k);
    comment_ids = added_ids fresh;
    members = counted.members;
    in_range = added_range;
    comment_count = added_count;
    read_marks = λ k a t r h g. (added_reads a k t h r g).0;
    unread_bound = λ k a t r h g. (added_reads a k t h r g).1;
  }

  -- A reader whose count is right keeps it so, if the reader is a member or the author.
  exact_here :
      (a : ℕ) (is_other : Bool) (old : Option ThreadReadRow) (r : ThreadReadRow)
      → ((x : ThreadReadRow)
          → old ≡ some x
          → (below x.last_read_index (suc thread.last_comment_index) ≡ true)
            × (x.unread_count ≡ count (is_unread thread.id x.last_read_index) chat.comments))
      → ((actor_id == a) ≡ false → is_other ≡ true)
      → read_after thread.id actor_id next (thread.comment_count + 1) thread.id a is_other old
        ≡ some r
      → r.unread_count ≡ count (is_unread thread.id r.last_read_index) comments_after
  unfolding read_after
  exact_here a is_other old r exact_old member h = elim (Bool-cases (actor_id == a)) [
    | inl e ↦ subst IsRight (some_inj _ r (rw (==_refl thread.id, e) at h)) (own old)
    | inr e ↦
        subst IsRight (some_inj _ r (rw (==_refl thread.id, e, member e) at h))
          (other old exact_old)
  ]
    where
      IsRight : ThreadReadRow → Type 0
      IsRight r = r.unread_count ≡ count (is_unread thread.id r.last_read_index) comments_after

      own : (old : Option ThreadReadRow) → IsRight (caught_up thread.id a next old)
      own none = sym (unread-past_last thread.id next comments_after range_after)
      own (some x) = sym (unread-past_last thread.id next comments_after range_after)

      other :
          (old : Option ThreadReadRow)
          → ((x : ThreadReadRow)
              → old ≡ some x
              → (below x.last_read_index (suc thread.last_comment_index) ≡ true)
                × (x.unread_count ≡ count (is_unread thread.id x.last_read_index) chat.comments))
          → IsRight (bumped thread.id a (thread.comment_count + 1) old)
      other none exact_old =
          rw (count-unread thread.id (pos 0), ==_refl thread.id)
            (ground (
              arith,
              counted.comment_count thread.id thread found,
              live-eq-unread thread.id thread.last_comment_index chat.comments old_range,
            ))
      other (some x) exact_old =
          rw (count-unread thread.id x.last_read_index, ==_refl thread.id)
            (ground (
              arith,
              below_mono x.last_read_index (suc thread.last_comment_index) next (omega arith)
                  (exact_old x refl).0,
              exact_old x refl,
            ))

  -- The author and every other member keep an exact count.
  pub with_comment-IsExact :
      (a : ℕ)
      → ((actor_id == a) ≡ false
          → exists
              (λ m. m.channel_id == thread.channel_id && m.account_id == a)
              chat.channel_members
            ≡ true)
      → IsExact thread.id a chat
      → IsExact thread.id a (with_comment env actor_id thread body chat)
  unfolding with_comment others
  with_comment-IsExact a member exact r h =
      exact_here a _ (find (is_read_of thread.id a) chat.thread_reads) r
        (λ x e. (counted.read_marks thread.id a thread x found e, exact x e))
        (λ e. other_members_has thread.channel_id actor_id chat a e (member e))
        (rw (find-reads thread.id a) at h)
