-- ===== src/Threads/Safety/Deletions.antt =====
-- `soft_delete_comment` and `update_comment_body`: who may, and what it leaves.
use mathlib.Core.Path.{subst, subst₂}
use sshoosh.Base.{
  ℕ, ◌≡◌, sym, ap, ◌∙◌, true, ◌&&◌, ◌||◌, some, ◌==◌, arith, is_none, is_some, ok, ensure, some_or,
  >>=-ok, ensure-eq-ok, some_or-eq-ok, ok_inj, some_inj, channel_not_found, comment_not_found,
  no_row, no_access, not_activated, only_own_comments, thread_not_found,
}
use sshoosh.Base.Tables.{find, exists}
use sshoosh.Base.Tables.Find.{find_fits}
use sshoosh.Text.{Text}
use sshoosh.Db.{Db, Env, ThreadRow, CommentRow, ChannelRow, AccountRow}
use sshoosh.Feed.{insert_event, insert_audit}
use sshoosh.Feed.Index.{delete_search_index_tx, delete_labels_tx}
use sshoosh.Feed.Notify.{is_member}
use sshoosh.Guards.{
  Account, can_admin, load_account_tx, account_from_row, load_thread_meta_tx, load_comment_meta_tx,
  load_channel_by_id_tx, ensure_can_view_channel,
}
use sshoosh.Threads.Writes.{is_live, delete_comment_row}
use sshoosh.Threads.Handlers.{can_moderate, load_own_comment, soft_delete_comment}
use sshoosh.Threads.Counters.{IsCounted, IsExact}
use sshoosh.Threads.Counters.Deleted.{delete_comment_row-IsCounted, delete_comment_row-IsExact}

-- An activated account that is not disabled and that is a member of a channel that is not archived.
pub record IsViewer (actor_id channel_id : ℕ) (db : Db) : Type 0 where
  pub row : AccountRow
  pub account : find (λ a. a.id == actor_id && is_none a.disabled_at) db.accounts ≡ some row
  pub activated : is_some row.activated_at ≡ true
  pub channel :
      exists
        (λ c. c.id == channel_id && is_none c.archived_at && is_member channel_id actor_id db)
        db.channels
      ≡ true

pub ensure_can_view_channel-IsViewer :
    (actor_id channel_id : ℕ) (db : Db)
    → ensure_can_view_channel actor_id channel_id db ≡ ok tt
    → IsViewer actor_id channel_id db
unfolding ensure_can_view_channel load_account_tx account_from_row
ensure_can_view_channel-IsViewer actor_id channel_id db h =
    let (account, e, h1) = >>=-ok (load_account_tx actor_id db) _ h in
    let (row, e1, e2) =
      >>=-ok (some_or (find (λ a. a.id == actor_id && is_none a.disabled_at) db.accounts) no_row) _
        e in
    let (u, e3, h2) = >>=-ok (ensure account.activated not_activated) _ h1 in
    record {
      row = row;
      account = some_or-eq-ok _ _ e1;
      activated =
          subst (λ (a : Account). a.activated ≡ true) (sym (ok_inj _ _ e2))
            (ensure-eq-ok account.activated not_activated e3);
      channel = ensure-eq-ok _ no_access h2;
    }

-- What `load_own_comment` has checked: the thread is the one named, the actor sees its channel, and wrote the comment or
-- administers the place or its channel.
pub record IsOwn (actor_id thread_id obj_index : ℕ) (thread : ThreadRow) (row : CommentRow)
    (db : Db) : Type 0 where
  pub thread_found : find (λ t. t.id == thread_id && is_none t.deleted_at) db.threads ≡ some thread
  pub viewer : IsViewer actor_id thread.channel_id db
  pub found :
      find
        (λ c. c.thread_id == thread_id && c.obj_index == obj_index && is_none c.deleted_at)
        db.comments
      ≡ some row
  pub channel : ChannelRow
  pub channel_found :
      find (λ c. c.id == thread.channel_id && is_none c.archived_at) db.channels ≡ some channel
  pub allowed :
      (can_admin viewer.row.role
        || channel.created_by_account_id == actor_id
        || row.author_account_id == actor_id)
      ≡ true

load_own_comment-IsOwn :
    (actor_id thread_id obj_index : ℕ) (db : Db) (thread : ThreadRow) (row : CommentRow)
    (slug : Text)
    → load_own_comment actor_id thread_id obj_index db ≡ ok (thread, row, slug)
    → IsOwn actor_id thread_id obj_index thread row db
unfolding load_own_comment load_thread_meta_tx load_comment_meta_tx load_channel_by_id_tx
    load_account_tx can_moderate
load_own_comment-IsOwn actor_id thread_id obj_index db thread row slug h =
    let (t, e1, h1) = >>=-ok (load_thread_meta_tx thread_id db) _ h in
    let (u, e2, h2) = >>=-ok (ensure_can_view_channel actor_id t.channel_id db) _ h1 in
    let (c, e3, h3) = >>=-ok (load_comment_meta_tx thread_id obj_index db) _ h2 in
    let (actor, e4, h4) = >>=-ok (load_account_tx actor_id db) _ h3 in
    let (channel, e5, h5) = >>=-ok (load_channel_by_id_tx t.channel_id db) _ h4 in
    let (v, e6, h6) =
      >>=-ok
        (ensure
          (can_moderate actor actor_id channel.created_by_account_id
            || c.author_account_id == actor_id)
          only_own_comments)
        _ h5 in
    let (own, e7, e8) =
      >>=-ok (some_or (find (λ a. a.id == actor_id && is_none a.disabled_at) db.accounts) no_row) _
        e4 in
    let viewer = ensure_can_view_channel-IsViewer actor_id t.channel_id db e2 in
    let same : viewer.row ≡ own = some_inj _ _ (sym viewer.account ∙ some_or-eq-ok _ _ e7) in
    let role : viewer.row.role ≡ actor.role =
      ap (λ (a : AccountRow). a.role) same ∙ ap (λ (a : Account). a.role) (ok_inj _ _ e8) in
    let loaded = ok_inj _ _ h6 in
    subst₂ (λ t c. IsOwn actor_id thread_id obj_index t c db)
      (ap (λ (x : ThreadRow × CommentRow × Text). x.0) loaded)
      (ap (λ (x : ThreadRow × CommentRow × Text). x.1) loaded)
      (record {
        thread_found = some_or-eq-ok _ thread_not_found e1;
        viewer = viewer;
        found = some_or-eq-ok _ comment_not_found e3;
        channel = channel;
        channel_found = some_or-eq-ok _ channel_not_found e5;
        allowed = rw role (ground (arith, ensure-eq-ok _ only_own_comments e6));
      })

-- What a deletion that succeeds has found and done.
record IsDeleted (env : Env) (actor_id thread_id obj_index : ℕ) (before after : Db) : Type 0 where
  pub thread : ThreadRow
  pub row : CommentRow
  pub own : IsOwn actor_id thread_id obj_index thread row before
  pub chat : after.chat ≡ delete_comment_row env thread_id row before.chat

module _ (env : Env) (actor_id thread_id obj_index : ℕ) (before after : Db) where
  soft_delete_comment-IsDeleted :
      soft_delete_comment env actor_id thread_id obj_index before ≡ ok after
      → IsDeleted env actor_id thread_id obj_index before after
  unfolding soft_delete_comment insert_event insert_audit delete_search_index_tx delete_labels_tx
  soft_delete_comment-IsDeleted h =
      let (x, e, h1) = >>=-ok (load_own_comment actor_id thread_id obj_index before) _ h in
      record {
        thread = x.0;
        row = x.1;
        own = load_own_comment-IsOwn actor_id thread_id obj_index before x.0 x.1 x.2 e;
        chat = sym (ap (λ (db : Db). db.chat) (ok_inj _ _ h1));
      }

  -- Only an active member of the channel of the named thread who wrote the comment, created that
  -- channel or is an administrator deletes a comment of the thread.
  pub soft_delete_comment-IsOwn :
      soft_delete_comment env actor_id thread_id obj_index before ≡ ok after
      → (thread : ThreadRow) × (row : CommentRow) × IsOwn actor_id thread_id obj_index thread row
          before
        × (after.chat ≡ delete_comment_row env thread_id row before.chat)
  soft_delete_comment-IsOwn h =
      let d = soft_delete_comment-IsDeleted h in (d.thread, d.row, d.own, d.chat)

  row-is_live :
      (row : CommentRow)
      → find
          (λ c. c.thread_id == thread_id && c.obj_index == obj_index && is_none c.deleted_at)
          before.comments
        ≡ some row
      → is_live thread_id row ≡ true
  unfolding is_live
  row-is_live row h = ground (arith, find_fits _ before.comments row h)

  -- Deleting a comment keeps every counter of every thread and reader.
  pub soft_delete_comment-IsCounted :
      IsCounted before.chat
      → soft_delete_comment env actor_id thread_id obj_index before ≡ ok after
      → IsCounted after.chat
  soft_delete_comment-IsCounted counted h =
      let d = soft_delete_comment-IsDeleted h in
      subst IsCounted (sym d.chat) (
        delete_comment_row-IsCounted env thread_id d.row before.chat counted _ d.own.found
          (row-is_live d.row d.own.found))

  -- Whoever has an exact unread count has one after a deletion, in every thread.
  pub soft_delete_comment-IsExact :
      (k a : ℕ)
      → IsCounted before.chat
      → soft_delete_comment env actor_id thread_id obj_index before ≡ ok after
      → IsExact k a before.chat
      → IsExact k a after.chat
  soft_delete_comment-IsExact k a counted h exact =
      let d = soft_delete_comment-IsDeleted h in
      subst (IsExact k a) (sym d.chat) (
        delete_comment_row-IsExact env thread_id d.row before.chat counted _ d.own.found
          (row-is_live d.row d.own.found) k a exact)
