-- ===== src/Threads/Safety/Success.antt =====
-- `add_comment` succeeds whenever its checks hold.
use mathlib.Core.Path.{subst}
use sshoosh.Base.{
  ℕ, ◌+◌, ◌≡◌, refl, sym, ◌∙◌, inl, inr, true, false, ◌&&◌, not, some, List, [], ◌∷◌, ◌==◌, ==_iff,
  arith, Option-cases, is_none, Result, ok, ◌>>=◌, ensure, some_or, is_ok, thread_not_found,
  comment_body_required, no_row,
}
use sshoosh.Base.Tables.{find, count, exists, All}
use sshoosh.Base.Tables.Count.{find-none-count, count_mono}
use sshoosh.Text.{Text, trim, is_empty}
use sshoosh.Text.Sanitize.{sanitize_stored_text}
use sshoosh.Db.{Db, Env, ThreadRow, CommentRow, ChannelRow}
use sshoosh.Feed.Notify.{is_member}
use sshoosh.Guards.{ensure_can_view_channel}
use sshoosh.Threads.Writes.{is_thread, write_comment, with_comment, comment_conflicts, new_comment}
use sshoosh.Threads.Handlers.{add_comment}
use sshoosh.Threads.Counters.{IsCounted, InRange}
use sshoosh.Threads.Counters.Members.{find-count_comment, bump_thread}
use sshoosh.Threads.Safety.Comments.{live-found}
use sshoosh.Threads.Safety.Deletions.{IsViewer, ensure_can_view_channel-IsViewer}

is_ok_next {ℓ κ} :
    {A : Type ℓ} {B : Type κ} (first : Result A) (next : A → Result B) (value : A)
    → first ≡ ok value
    → is_ok (next value) ≡ true
    → is_ok (first >>= next) ≡ true
is_ok_next first next value e h = rw e h

-- No comment of the thread has the next index.
next_unused :
    (k last : ℕ) (comments : List CommentRow)
    → All (InRange k last) comments
    → count (λ c. c.thread_id == k && c.obj_index == last + 1) comments ≡ 0
unfolding count
next_unused k last [] all = refl
next_unused k last (c ∷ comments) all =
    ground (arith, all.0.range, next_unused k last comments all.1)

channel_there :
    (actor_id channel_id : ℕ) (db : Db)
    → IsViewer actor_id channel_id db
    → (channel : ChannelRow) × (find (λ c. c.id == channel_id) db.channels ≡ some channel)
channel_there actor_id channel_id db viewer =
    elim (Option-cases (find (λ c. c.id == channel_id) db.channels)) [
      | inr found ↦ found
      | inl e ↦ absurd (
          ground (
            arith,
            viewer.channel,
            find-none-count (λ c. c.id == channel_id) db.channels e,
            count_mono
                (λ c.
                  c.id == channel_id && is_none c.archived_at && is_member channel_id actor_id db)
                (λ c. c.id == channel_id) db.channels (λ c h. ground arith),
          ))
    ]

-- With a text, a live thread that the author sees, and a fresh identifier, a comment is added.
pub add_comment-is_ok :
    (env : Env) (actor_id thread_id : ℕ) (input : Text) (db : Db) (thread : ThreadRow)
    → IsCounted db.chat
    → is_empty (trim (sanitize_stored_text input)) ≡ false
    → find (λ t. is_thread thread_id t && is_none t.deleted_at) db.threads ≡ some thread
    → ensure_can_view_channel actor_id thread.channel_id db ≡ ok tt
    → exists (λ c. c.id == env.id) db.comments ≡ false
    → is_ok (add_comment env actor_id thread_id input db) ≡ true
unfolding add_comment write_comment
add_comment-is_ok env actor_id thread_id input db thread counted text found view fresh =
    let body = trim (sanitize_stored_text input) in
    let (there, same) = live-found db.chat thread_id thread counted found in
    let (channel, channel_found) =
      channel_there actor_id thread.channel_id db
        (ensure_can_view_channel-IsViewer actor_id thread.channel_id db view) in
    is_ok_next (ensure (not (is_empty body)) comment_body_required) _ tt (rw text refl) (
      is_ok_next
        (some_or (find (λ t. is_thread thread_id t && is_none t.deleted_at) db.threads)
          thread_not_found)
        _ thread (rw found refl)
        (is_ok_next (ensure_can_view_channel actor_id thread.channel_id db) _ tt view (
          is_ok_next (write_comment env actor_id thread body db.chat) _
            (with_comment env actor_id thread body db.chat)
            (rw
              (unused thread
                (subst (λ k. find (is_thread k) db.threads ≡ some thread) (sym same) there))
              refl)
            (is_ok_next
              (some_or
                (find (is_thread thread_id) (with_comment env actor_id thread body db.chat).threads)
                no_row)
              _ (bump_thread env db.threads thread (thread.last_comment_index + 1))
              (rw (title_there thread thread_id same there) refl)
              (is_ok_next (some_or (find (λ c. c.id == thread.channel_id) db.channels) no_row) _
                channel (rw channel_found refl) refl)))))
  where
    unused :
        (t : ThreadRow)
        → find (is_thread t.id) db.threads ≡ some t
        → comment_conflicts
            (new_comment env actor_id t (trim (sanitize_stored_text input)))
            db.comments
          ≡ false
    unused t there =
        unfold comment_conflicts in
        ground (
          arith,
          fresh,
          next_unused t.id t.last_comment_index db.comments (counted.in_range t.id t there),
        )

    title_there :
        (t : ThreadRow) (k : ℕ)
        → t.id ≡ k
        → find (is_thread k) db.threads ≡ some t
        → find
            (is_thread k)
            (with_comment env actor_id t (trim (sanitize_stored_text input)) db.chat).threads
          ≡ some (bump_thread env db.threads t (t.last_comment_index + 1))
    title_there t k same there =
        unfold with_comment in
        (find-count_comment env db.threads t (t.last_comment_index + 1) k
            (subst (λ j. find (is_thread j) db.threads ≡ some t) (sym same) there)
          ∙ rw ((==_iff t.id k).1 same) refl)
