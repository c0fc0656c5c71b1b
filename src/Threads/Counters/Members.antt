-- ===== src/Threads/Counters/Members.antt =====
-- The members that a comment is unread for, and the thread that it counts for.
use mathlib.Core.Path.{subst}
use native.Mathlib.Nat.{le_trans}
use sshoosh.Base.{
  ℕ, ◌+◌, ◌≤◌, ◌≡◌, refl, ◌∙◌, inl, inr, true, false, ◌&&◌, not, some, List, ◌==◌, ==_iff, ==_refl,
  ltb, if◌then◌else◌, arith, Bool-cases, Option-cases,
}
use sshoosh.Base.Tables.{find, count, exists}
use sshoosh.Base.Tables.Find.{find-update_where, find_fits}
use sshoosh.Base.Tables.Count.{count-false, count_mono, count-map-select_where, count_congr}
use sshoosh.Db.{Chat, Env, ThreadRow, MemberRow}
use sshoosh.Threads.Writes.{is_thread, count_comment, other_members}

-- The other members are members, each listed once, and the actor is none of them.
module _ (channel_id actor_id : ℕ) (chat : Chat) where
  pub other_members_once :
      (a : ℕ)
      → count (λ m. m.channel_id == channel_id && m.account_id == a) chat.channel_members ≤ 1
      → count (λ b. b == a) (other_members channel_id actor_id chat) ≤ 1
  unfolding other_members
  other_members_once a h =
      rw
        (count-map-select_where (λ b. b == a) (λ (m : MemberRow). m.account_id)
          (λ m. m.channel_id == channel_id && not (m.account_id == actor_id)) chat.channel_members)
        (le_trans (count_mono _ _ chat.channel_members (λ m e. ground arith)) h)

  pub other_members_not_self :
      (a : ℕ)
      → (actor_id == a) ≡ true
      → count (λ b. b == a) (other_members channel_id actor_id chat) ≡ 0
  unfolding other_members
  other_members_not_self a e =
      rw
        (count-map-select_where (λ b. b == a) (λ (m : MemberRow). m.account_id)
          (λ m. m.channel_id == channel_id && not (m.account_id == actor_id)) chat.channel_members)
        (count-false _ chat.channel_members (λ m. ground arith))

  pub other_members_has :
      (a : ℕ)
      → (actor_id == a) ≡ false
      → exists (λ m. m.channel_id == channel_id && m.account_id == a) chat.channel_members ≡ true
      → ltb 0 (count (λ b. b == a) (other_members channel_id actor_id chat)) ≡ true
  unfolding other_members
  other_members_has a ne h =
      rw
        (count-map-select_where (λ b. b == a) (λ (m : MemberRow). m.account_id)
          (λ m. m.channel_id == channel_id && not (m.account_id == actor_id)) chat.channel_members)
        (rw
          (count_congr
            (λ m.
              (m.channel_id == channel_id && not (m.account_id == actor_id)) && m.account_id == a)
            (λ m. m.channel_id == channel_id && m.account_id == a) chat.channel_members
            (λ m. ground arith))
          h)

-- The thread row of any key, after the count of the comment.
module _ (env : Env) (threads : List ThreadRow) (thread : ThreadRow) (next : ℕ) where
  abbrev pub bump_thread : ThreadRow
  bump_thread = record thread {
    comment_count = thread.comment_count + 1;
    last_comment_index = next;
    last_activity_at = env.now;
    updated_at = env.now;
  }

  pub find-count_comment :
      (k : ℕ)
      → find (is_thread thread.id) threads ≡ some thread
      → find (is_thread k) (count_comment env thread.id next threads)
        ≡ (if thread.id == k then some bump_thread else find (is_thread k) threads)
  unfolding count_comment is_thread
  find-count_comment k found = elim (Bool-cases (thread.id == k)) [
    | inl e ↦ rw e (
        subst
          (λ j. find (is_thread j) (count_comment env thread.id next threads) ≡ some bump_thread)
          ((==_iff thread.id k).0 e)
          (find-update_where _ _ _ threads (λ t. refl) ∙ rw found (rw (==_refl thread.id))))
    | inr e ↦ rw e (elim (Option-cases (find (is_thread k) threads)) [
      | inl d ↦ find-update_where _ _ _ threads (λ t. refl) ∙ rw d
      | inr (t, d) ↦
          find-update_where _ _ _ threads (λ t. refl)
          ∙ rw d (rw (apart t (find_fits (is_thread k) threads t d) e))
    ])
  ]
    where
      apart :
          (t : ThreadRow)
          → is_thread k t ≡ true
          → (thread.id == k) ≡ false
          → (t.id == thread.id) ≡ false
      apart t h e = ground arith
