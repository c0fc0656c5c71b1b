-- ===== src/Threads/Counters/Comments.antt =====
-- The counts over the comments, after a comment is added and after one is deleted.
use sshoosh.Base.{ℕ, suc, ◌≤◌, ◌≡◌, refl, true, false, ◌&&◌, none, List, ◌==◌, arith}
use sshoosh.Base.Int.{ℤ, pos, negsuc, below}
use sshoosh.Base.Tables.{count, All}
use sshoosh.Base.Tables.Count.{count_congr-All, count-none}
use sshoosh.Db.{CommentRow}
use sshoosh.Threads.Writes.{is_live, is_unread}
use sshoosh.Threads.Counters.{InRange}

pub below_mono : (lr : ℤ) (m n : ℕ) → m ≤ n → below lr m ≡ true → below lr n ≡ true
below_mono (pos a) m n le h = ground arith
below_mono (negsuc a) m n le h = refl

pub below_self : (n : ℕ) → below (pos n) (suc n) ≡ true
below_self n = ground arith

-- A new comment counts for its own thread, and for the readers whose mark lies below it.
pub is_live_new : (k : ℕ) (c : CommentRow) → c.deleted_at ≡ none → is_live k c ≡ (c.thread_id == k)
unfolding is_live
is_live_new k c h = ground arith

pub is_unread_new :
    (k : ℕ) (lr : ℤ) (c : CommentRow)
    → c.deleted_at ≡ none
    → is_unread k lr c ≡ (c.thread_id == k && below lr c.obj_index)
unfolding is_unread is_live
is_unread_new k lr c h = ground arith

module _ (k last : ℕ) where
  -- With no mark set every comment of the thread is unread.
  InRange-unread : (c : CommentRow) → InRange k last c → is_live k c ≡ is_unread k (pos 0) c
  unfolding is_unread is_live
  InRange-unread c h = ground (arith, h.range)

  pub live-eq-unread :
      (comments : List CommentRow)
      → All (InRange k last) comments
      → count (is_live k) comments ≡ count (is_unread k (pos 0)) comments
  live-eq-unread comments h =
      count_congr-All (is_live k) (is_unread k (pos 0)) comments InRange-unread h

  -- Past the last comment nothing is unread.
  past_last : (c : CommentRow) → InRange k last c → is_unread k (pos last) c ≡ false
  unfolding is_unread is_live
  past_last c h = ground (arith, h.range)

  pub unread-past_last :
      (comments : List CommentRow)
      → All (InRange k last) comments
      → count (is_unread k (pos last)) comments ≡ 0
  unread-past_last comments h = count-none (is_unread k (pos last)) comments past_last h

pub InRange-later :
    (k last next : ℕ) (c : CommentRow) → last ≤ next → InRange k last c → InRange k next c
InRange-later k last next c le h = record { range = λ e. omega (arith, h.range e) }
