-- ===== src/Sample/Threads.antt =====
-- Runs of the thread handlers on the sample database.
use mathlib.Core.List.{Mem}
use sshoosh.Base.{
  ℕ, leb, ◌≡◌, refl, true, false, some, arith, Result, ok, err, is_ok, ◌⊎◌, is_none, ◌==◌, ◌&&◌,
}
use sshoosh.Base.Int.{pos, below}
use sshoosh.Base.Tables.{find, count, All}
use sshoosh.Text.{Text, codes, trim, is_empty, text_eq}
use sshoosh.Text.Sanitize.{sanitize_single_line_text, sanitize_stored_text}
use sshoosh.Text.Name.{normalize_name_key}
use sshoosh.Db.{Db, ThreadRow, CommentRow, ThreadReadRow}
use sshoosh.Threads.Writes.{is_thread, is_read_of, is_live, is_unread, delete_comment_row}
use sshoosh.Threads.Handlers.{
  add_comment, soft_delete_comment, mark_thread_read, mark_thread_unread,
}
use sshoosh.Threads.Counters.{IsCounted, IsExact}
use sshoosh.Threads.Safety.Comments.{
  IsForMember, add_comment-IsCounted, add_comment-IsExact, add_comment-notified,
}
use sshoosh.Threads.Safety.Deletions.{
  IsOwn, soft_delete_comment-IsOwn, soft_delete_comment-IsCounted, soft_delete_comment-IsExact,
}
use sshoosh.Threads.Safety.Success.{add_comment-is_ok}
use sshoosh.Threads.Safety.Marks.{mark_thread_read_lem, mark_thread_unread_lem}
use sshoosh.Threads.Editing.{pinned, update_thread_flag, edit_thread}
use sshoosh.Threads.Safety.Modifier.{IsModifier}
use sshoosh.Threads.Safety.Editing.{
  IsFree, IsFlagged, IsRewritten, IsOnly, update_thread_flag_lem, edit_thread_lem,
}
use sshoosh.Feed.Notify.{is_member}
use sshoosh.Sample.Run.{run}
use sshoosh.Sample.{sample_db, sample_env, sample_chat, sample_thread}

abbrev after_ok : Result Db → Db
after_ok (ok db) = db
after_ok (err e) = sample_db

-- The member 2 comments, and mentions the member 3.
abbrev body : Text
body = codes "see @d"

commented : Db
commented = after_ok (add_comment (sample_env 20) 2 9 body sample_db)

commented_ok : add_comment (sample_env 20) 2 9 body sample_db ≡ ok commented
unfolding commented run
commented_ok = refl

sample_chat-IsCounted : IsCounted sample_chat
unfolding count find is_thread is_live
sample_chat-IsCounted = record {
  thread_ids = λ k. ground arith;
  comment_ids = λ k. ground arith;
  members = λ k a. ground arith;
  in_range = λ k t h. tt;
  comment_count = λ k t h. ground arith;
  read_marks = λ k a t r h g. cc;
  unread_bound = λ k a t r h g. cc;
}

commented-IsCounted : IsCounted commented.chat
commented-IsCounted =
    add_comment-IsCounted (sample_env 20) 2 9 body sample_db commented sample_chat-IsCounted
      commented_ok

-- The member 3 has one unread comment, exactly.
commented-IsExact : IsExact 9 3 commented.chat
unfolding find is_thread is_member count
commented-IsExact =
    add_comment-IsExact (sample_env 20) 2 9 body sample_db commented sample_chat-IsCounted
      commented_ok sample_thread 3 refl refl (λ r h. cc)

commented-notified :
    (thread : ThreadRow) × (find (is_thread 9) sample_db.threads ≡ some thread)
    × All
        (λ n. Mem n sample_db.notifications ⊎ IsForMember 2 9 thread.channel_id commented n)
        commented.notifications
commented-notified =
    add_comment-notified (sample_env 20) 2 9 body sample_db commented sample_chat-IsCounted
      commented_ok

-- The owner deletes it.
deleted : Db
deleted = after_ok (soft_delete_comment (sample_env 21) 1 9 1 commented)

deleted_ok : soft_delete_comment (sample_env 21) 1 9 1 commented ≡ ok deleted
unfolding deleted commented run
deleted_ok = refl

deleted-IsOwn :
    (thread : ThreadRow) × (row : CommentRow) × IsOwn 1 9 1 thread row commented
    × (deleted.chat ≡ delete_comment_row (sample_env 21) 9 row commented.chat)
deleted-IsOwn = soft_delete_comment-IsOwn (sample_env 21) 1 9 1 commented deleted deleted_ok

deleted-IsCounted : IsCounted deleted.chat
deleted-IsCounted =
    soft_delete_comment-IsCounted (sample_env 21) 1 9 1 commented deleted commented-IsCounted
      deleted_ok

deleted-IsExact : IsExact 9 3 deleted.chat
deleted-IsExact =
    soft_delete_comment-IsExact (sample_env 21) 1 9 1 commented deleted 9 3 commented-IsCounted
      deleted_ok commented-IsExact

-- The member 3 reads the thread, and marks it unread again.
read : Db
read = after_ok (mark_thread_read (sample_env 22) 3 9 commented)

read_ok : mark_thread_read (sample_env 22) 3 9 commented ≡ ok read
unfolding read commented run
read_ok = refl

read_example :
    IsCounted read.chat
    × ((t : ThreadRow) × (find (is_thread 9) commented.threads ≡ some t)
        × ((r : ThreadReadRow) × (find (is_read_of 9 3) read.thread_reads ≡ some r)
            × ((r.last_read_index ≡ pos t.last_comment_index)
                × (r.unread_count ≡ 0)
                × (count (is_unread 9 r.last_read_index) commented.comments) ≡ 0)))
read_example = mark_thread_read_lem 3 9 commented commented-IsCounted (sample_env 22) read read_ok

unread : Db
unread = after_ok (mark_thread_unread (sample_env 23) 3 9 commented)

unread_ok : mark_thread_unread (sample_env 23) 3 9 commented ≡ ok unread
unfolding unread commented run
unread_ok = refl

unread_example :
    IsCounted unread.chat
    × ((t : ThreadRow) × (find (is_thread 9) commented.threads ≡ some t)
        × ((r : ThreadReadRow) × (find (is_read_of 9 3) unread.thread_reads ≡ some r)
            × (((i : ℕ) → below r.last_read_index i ≡ leb t.last_comment_index i)
                × (r.unread_count ≡ count (is_unread 9 r.last_read_index) commented.comments))))
unread_example =
    mark_thread_unread_lem 3 9 commented commented-IsCounted (sample_env 23) unread unread_ok

comment_succeeds : is_ok (add_comment (sample_env 20) 2 9 body sample_db) ≡ true
unfolding run
comment_succeeds =
    add_comment-is_ok (sample_env 20) 2 9 body sample_db sample_thread sample_chat-IsCounted refl
      refl refl refl

-- The owner pins the thread.
pinned_db : Db
pinned_db = after_ok (update_thread_flag (sample_env 24) 1 9 pinned true commented)

pinned_ok : update_thread_flag (sample_env 24) 1 9 pinned true commented ≡ ok pinned_db
unfolding pinned_db commented run
pinned_ok = refl

pinned_example :
    (target : ThreadRow) × (find (λ t. t.id == 9 && is_none t.deleted_at) commented.threads
      ≡ some target)
    × (IsModifier 1 target false commented × (pinned ≡ pinned → IsModifier 1 target true commented))
    × ((row : ThreadRow) × (find (is_thread 9) pinned_db.threads ≡ some row)
        × IsFlagged pinned (some 124) target row)
    × IsOnly 9 commented.chat pinned_db.chat
    × IsCounted pinned_db.chat
pinned_example =
    update_thread_flag_lem (sample_env 24) 1 9 commented pinned_db commented-IsCounted pinned true
      pinned_ok

-- The creator gives it another title, and a text.
abbrev new_title : Text
new_title = codes " Plan B"

abbrev new_body : Text
new_body = codes "to do "

edited : Db
edited = after_ok (edit_thread (sample_env 25) 2 9 new_title new_body commented)

edited_ok : edit_thread (sample_env 25) 2 9 new_title new_body commented ≡ ok edited
unfolding edited commented run
edited_ok = refl

thread_edited_example :
    let title = trim (sanitize_single_line_text new_title) in
    let body = trim (sanitize_stored_text new_body) in
    let key = normalize_name_key (sample_env 25).unicode_lower title in
    (target : ThreadRow) × (find (λ t. t.id == 9 && is_none t.deleted_at) commented.threads
      ≡ some target)
    × IsModifier 2 target false commented
    × (is_empty title ≡ false)
    × (is_empty body ≡ false)
    × (text_eq key (normalize_name_key (sample_env 25).unicode_lower target.title) ≡ false
        → IsFree target.channel_id key commented)
    × ((row : ThreadRow) × (find (is_thread 9) edited.threads ≡ some row)
        × IsRewritten (sample_env 25) title body target row)
    × IsOnly 9 commented.chat edited.chat
    × IsCounted edited.chat
thread_edited_example =
    edit_thread_lem (sample_env 25) 2 9 commented edited commented-IsCounted new_title new_body
      edited_ok
