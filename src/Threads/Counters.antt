-- ===== src/Threads/Counters.antt =====
-- The denormalised counters of a thread: `comment_count`, `last_comment_index` and the
-- `unread_count` of every reader.
pub mod Reads
pub mod Comments
pub mod Members
pub mod Added
pub mod Deleted
pub mod Edited
pub mod Marks
use sshoosh.Base.{ℕ, suc, ◌+◌, ◌≤◌, ◌<◌, ◌≡◌, true, ◌&&◌, some, none, List, ◌==◌, is_none, Option}
use sshoosh.Base.Int.{ℤ, below}
use sshoosh.Base.Tables.{find, count, All}
use sshoosh.Db.{Chat, ThreadRow, CommentRow, ThreadReadRow, MemberRow}
use sshoosh.Threads.Writes.{is_thread, is_read_of, is_live, is_unread}

-- A comment of the thread has an index from 1 to the last one.
pub record InRange (thread_id last : ℕ) (c : CommentRow) : Type 0 where
  pub range : c.thread_id ≡ thread_id → (1 ≤ c.obj_index) × (c.obj_index ≤ last)

-- The keys that the tables' primary keys and the fresh indices keep apart, and the counters of
-- each thread against the comments that are there.
pub record IsCounted (chat : Chat) : Type 0 where
  pub thread_ids : (k : ℕ) → count (is_thread k) chat.threads ≤ 1
  pub comment_ids : (k : ℕ) → count (λ c. c.id == k) chat.comments ≤ 1
  pub members :
      (k a : ℕ) → count (λ m. m.channel_id == k && m.account_id == a) chat.channel_members ≤ 1
  pub in_range :
      (k : ℕ) (t : ThreadRow)
      → find (is_thread k) chat.threads ≡ some t
      → All (InRange k t.last_comment_index) chat.comments
  pub comment_count :
      (k : ℕ) (t : ThreadRow)
      → find (is_thread k) chat.threads ≡ some t
      → t.comment_count ≡ count (is_live k) chat.comments
  -- No reader has read past the last comment.
  pub read_marks :
      (k a : ℕ) (t : ThreadRow) (r : ThreadReadRow)
      → find (is_thread k) chat.threads ≡ some t
      → find (is_read_of k a) chat.thread_reads ≡ some r
      → below r.last_read_index (suc t.last_comment_index) ≡ true
  -- No reader is shown more unread comments than there are.
  pub unread_bound :
      (k a : ℕ) (t : ThreadRow) (r : ThreadReadRow)
      → find (is_thread k) chat.threads ≡ some t
      → find (is_read_of k a) chat.thread_reads ≡ some r
      → r.unread_count ≤ count (is_unread k r.last_read_index) chat.comments

-- The reader's `unread_count` is the number of comments after the read mark.
abbrev pub IsExact : ℕ → ℕ → Chat → Type 0
IsExact k a chat =
    (r : ThreadReadRow)
    → find (is_read_of k a) chat.thread_reads ≡ some r
    → r.unread_count ≡ count (is_unread k r.last_read_index) chat.comments

-- What the invariant says of one read row of the thread `k`, whose last index is `last`.
abbrev pub IsReadOk : ℕ → ℕ → List CommentRow → ThreadReadRow → Type 0
IsReadOk k last comments r =
    (below r.last_read_index (suc last) ≡ true)
    × (r.unread_count ≤ count (is_unread k r.last_read_index) comments)
