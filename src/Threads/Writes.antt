-- ===== src/Threads/Writes.antt =====
-- The statements on the tables `threads`, `comments` and `thread_reads`.
use sshoosh.Base.{
  ℕ, ◌+◌, ◌-◌, Bool, ◌&&◌, ◌||◌, not, Option, none, some, List, [], ◌∷◌, ◌++◌, map, ◌==◌, ltb,
  is_none, if◌then◌else◌, Result, ok, err, constraint,
}
use sshoosh.Base.Int.{ℤ, pos, below, pred_ℤ}
use sshoosh.Base.Tables.{find, count, exists, update_where, upsert, select_where}
use sshoosh.Text.{Text}
use sshoosh.Db.{Chat, Env, ThreadRow, CommentRow, ThreadReadRow}

unfoldable pub is_thread : ℕ → ThreadRow → Bool
is_thread thread_id t = t.id == thread_id

-- The primary key of `thread_reads`.
unfoldable pub is_read_of : ℕ → ℕ → ThreadReadRow → Bool
is_read_of thread_id account_id r = r.thread_id == thread_id && r.account_id == account_id

-- `thread_id = ? AND deleted_at IS NULL`
unfoldable pub is_live : ℕ → CommentRow → Bool
is_live thread_id c = c.thread_id == thread_id && is_none c.deleted_at

-- `thread_id = ? AND deleted_at IS NULL AND obj_index > ?`
unfoldable pub is_unread : ℕ → ℤ → CommentRow → Bool
unfolding is_live
is_unread thread_id last_read c = is_live thread_id c && below last_read c.obj_index

-- The columns that an `INSERT INTO thread_reads` does not name take their defaults.
abbrev pub new_read : ℕ → ℕ → ThreadReadRow
new_read thread_id account_id = record {
  thread_id = thread_id;
  account_id = account_id;
  last_read_index = pos 0;
  unread_count = 0;
  marked_unread_at = none;
  muted_until = none;
  saved_at = none;
}

-- The primary key and `UNIQUE(thread_id, obj_index)` of `comments`.
unfoldable pub comment_conflicts : CommentRow → List CommentRow → Bool
comment_conflicts row comments =
    exists (λ c. c.id == row.id) comments
    || exists (λ c. c.thread_id == row.thread_id && c.obj_index == row.obj_index) comments

-- `UPDATE threads SET comment_count = comment_count + 1, last_comment_index = ?, …`
unfoldable pub count_comment : Env → ℕ → ℕ → List ThreadRow → List ThreadRow
unfolding is_thread
count_comment env thread_id next_index threads =
    update_where (is_thread thread_id)
      (λ t. record t {
        comment_count = t.comment_count + 1;
        last_comment_index = next_index;
        last_activity_at = env.now;
        updated_at = env.now;
      })
      threads

-- The author has read up to the own comment.
unfoldable pub read_up_to : ℕ → ℕ → ℕ → List ThreadReadRow → List ThreadReadRow
unfolding is_read_of
read_up_to thread_id account_id last_index reads =
    upsert (is_read_of thread_id account_id)
      (record (new_read thread_id account_id) { last_read_index = pos last_index })
      (λ r. record r { last_read_index = pos last_index; unread_count = 0 }) reads

-- One row of `INSERT … SELECT … ON CONFLICT DO UPDATE SET unread_count = unread_count + 1`.
unfoldable pub bump_unread_of : ℕ → ℕ → ℕ → List ThreadReadRow → List ThreadReadRow
unfolding is_read_of
bump_unread_of thread_id comment_count account_id reads =
    upsert (is_read_of thread_id account_id)
      (record (new_read thread_id account_id) { unread_count = comment_count })
      (λ r. record r { unread_count = r.unread_count + 1 }) reads

unfoldable pub bump_unread : ℕ → ℕ → List ℕ → List ThreadReadRow → List ThreadReadRow
bump_unread thread_id comment_count [] reads = reads
bump_unread thread_id comment_count (account_id ∷ rest) reads =
    bump_unread thread_id comment_count rest
      (bump_unread_of thread_id comment_count account_id reads)

-- `SELECT m.account_id FROM channel_members m WHERE m.channel_id = ? AND m.account_id <> ?`
unfoldable pub other_members : ℕ → ℕ → Chat → List ℕ
other_members channel_id actor_id chat =
    map (λ m. m.account_id)
      (select_where (λ m. m.channel_id == channel_id && not (m.account_id == actor_id))
        chat.channel_members)

-- The row that `add_comment` inserts.
abbrev pub new_comment : Env → ℕ → ThreadRow → Text → CommentRow
new_comment env actor_id thread body = record {
  id = env.id;
  thread_id = thread.id;
  channel_id = thread.channel_id;
  author_account_id = actor_id;
  obj_index = thread.last_comment_index + 1;
  body = body;
  created_at = env.now;
  updated_at = env.now;
  edited_at = none;
  deleted_at = none;
}

-- The statements of `add_comment`, once the row conflicts with none.
unfoldable pub with_comment : Env → ℕ → ThreadRow → Text → Chat → Chat
with_comment env actor_id thread body chat =
    let next_index = thread.last_comment_index + 1 in
    let next_comment_count = thread.comment_count + 1 in
    record chat {
      comments = chat.comments ++ new_comment env actor_id thread body ∷ [];
      threads = count_comment env thread.id next_index chat.threads;
      thread_reads =
          bump_unread thread.id next_comment_count (other_members thread.channel_id actor_id chat)
            (read_up_to thread.id actor_id next_index chat.thread_reads);
    }

unfoldable pub write_comment : Env → ℕ → ThreadRow → Text → Chat → Result Chat
unfolding comment_conflicts with_comment
write_comment env actor_id thread body chat =
    if comment_conflicts (new_comment env actor_id thread body) chat.comments
    then err constraint
    else ok (with_comment env actor_id thread body chat)

-- The writes of `soft_delete_comment`.
unfoldable pub delete_comment_row : Env → ℕ → CommentRow → Chat → Chat
unfolding is_thread
delete_comment_row env thread_id row chat = record chat {
  comments =
      update_where (λ c. c.id == row.id)
        (λ c. record c { deleted_at = some env.now; updated_at = env.now }) chat.comments;
  threads =
      update_where (is_thread thread_id)
        (λ t. record t { comment_count = t.comment_count - 1; updated_at = env.now }) chat.threads;
  thread_reads =
      update_where
        (λ r.
          r.thread_id == thread_id && ltb 0 r.unread_count && below r.last_read_index row.obj_index)
        (λ r. record r { unread_count = r.unread_count - 1 }) chat.thread_reads;
}

-- The upsert of `mark_thread_read`.
unfoldable pub read_all : ℕ → ℕ → ℕ → Chat → Chat
unfolding is_read_of
read_all thread_id account_id last_index chat = record chat {
  thread_reads =
      upsert (is_read_of thread_id account_id)
        (record (new_read thread_id account_id) { last_read_index = pos last_index })
        (λ r. record r {
          last_read_index = pos last_index;
          unread_count = 0;
          marked_unread_at = none;
        })
        chat.thread_reads;
}

-- The count and the upsert of `mark_thread_unread`; `saturating_sub` on a signed index gives -1 at 0.
unfoldable pub unread_last : Env → ℕ → ℕ → ℕ → Chat → Chat
unfolding is_read_of is_unread
unread_last env thread_id account_id last_index chat =
    let unread_from = pred_ℤ last_index in
    let unread_count = count (is_unread thread_id unread_from) chat.comments in
    record chat {
      thread_reads =
          upsert (is_read_of thread_id account_id)
            (record (new_read thread_id account_id) {
              last_read_index = unread_from;
              unread_count = unread_count;
              marked_unread_at = some env.now;
            })
            (λ r. record r {
              last_read_index = unread_from;
              unread_count = unread_count;
              marked_unread_at = some env.now;
            })
            chat.thread_reads;
    }

old_value : Bool → Option ℕ → (ThreadReadRow → Option ℕ) → Option ThreadReadRow → Option ℕ
old_value update value field existing =
    if update then value else elim existing [ none ↦ none | some r ↦ field r ]

-- `upsert_thread_read_state`.
unfoldable pub upsert_thread_read_state : ℕ → ℕ → Bool → Option ℕ → Bool → Option ℕ → Chat → Chat
unfolding is_read_of is_live old_value
upsert_thread_read_state account_id thread_id update_mute muted_until update_saved saved_at chat =
    let existing = find (is_read_of thread_id account_id) chat.thread_reads in
    let next_muted_until = old_value update_mute muted_until (λ r. r.muted_until) existing in
    let next_saved_at = old_value update_saved saved_at (λ r. r.saved_at) existing in
    record chat {
      thread_reads =
          upsert (is_read_of thread_id account_id)
            (record (new_read thread_id account_id) {
              unread_count = count (is_live thread_id) chat.comments;
              muted_until = next_muted_until;
              saved_at = next_saved_at;
            })
            (λ r. record r { muted_until = next_muted_until; saved_at = next_saved_at })
            chat.thread_reads;
    }
