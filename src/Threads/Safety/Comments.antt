-- ===== src/Threads/Safety/Comments.antt =====
-- `add_comment` and `soft_delete_comment`.
use mathlib.Core.Path.{subst}
use mathlib.Core.List.{Mem}
use sshoosh.Base.{
  ◌⊎◌, ℕ, ◌+◌, ◌≡◌, refl, sym, ap, ◌∙◌, inl, inr, true, false, ◌&&◌, ◌||◌, not, some, ◌==◌, ==_iff,
  arith, is_none, ok, ensure, some_or, >>=-ok, some_or-eq-ok, some_inj, ok_inj,
  comment_body_required, thread_not_found, no_row,
}
use sshoosh.Base.Tables.{find, All}
use sshoosh.Base.Tables.Find.{find_key, find_fits}
use sshoosh.Base.Tables.Rows.{All-mono, All-self}
use sshoosh.Text.{Text, trim, is_empty}
use sshoosh.Text.Sanitize.{sanitize_stored_text}
use sshoosh.Db.{Db, Env, Chat, ThreadRow, NotificationRow, Source}
use sshoosh.Guards.{ensure_can_view_channel}
use sshoosh.Threads.Writes.{is_thread, write_comment, with_comment, comment_conflicts, new_comment}
use sshoosh.Threads.Handlers.{add_comment}
use sshoosh.Threads.Projector.Notified.{comment_created-IsNotified}
use sshoosh.Threads.Counters.{IsCounted, IsExact}
use sshoosh.Threads.Counters.Added.{with_comment-IsCounted, with_comment-IsExact}
use sshoosh.Feed.Privacy.{IsNotified, IsFair, source_is_visible-frame}
use sshoosh.Feed.Notify.{
  is_member, is_active_account, source_is_visible, in_conversation, in_channel,
}
use sshoosh.Threads.Projector.{comment_source}

-- The notification is about the thread, and for another account than the actor, which is active and
-- a member of the channel.
pub record IsForMember (actor_id thread_id channel_id : ℕ) (db : Db) (n : NotificationRow)
    : Type 0 where
  pub about : n.source.thread_id ≡ some thread_id
  pub not_actor : (actor_id == n.account_id) ≡ false
  pub active : is_active_account n.account_id db ≡ true
  pub seat : is_member channel_id n.account_id db ≡ true

IsFair-member :
    (actor_id thread_id channel_id comment_id : ℕ) (db : Db) (n : NotificationRow)
    → IsFair actor_id (comment_source comment_id thread_id channel_id) db n
    → IsForMember actor_id thread_id channel_id db n
unfolding source_is_visible in_conversation in_channel
IsFair-member actor_id thread_id channel_id comment_id db n fair =
    let seen =
      subst (λ source. source_is_visible n.account_id source db ≡ true) fair.about fair.visible in
    record {
      about = ap (λ (source : Source). source.thread_id) fair.about;
      not_actor = fair.not_actor;
      active = ground (arith, seen);
      seat = ground (arith, seen);
    }

-- What a call of `add_comment` that succeeds has found and done.
pub record IsAdded (env : Env) (actor_id thread_id : ℕ) (body : Text) (before after : Db)
    : Type 1 where
  pub thread : ThreadRow
  pub found : find (λ t. is_thread thread_id t && is_none t.deleted_at) before.threads ≡ some thread
  pub viewer : ensure_can_view_channel actor_id thread.channel_id before ≡ ok tt
  pub fresh : comment_conflicts (new_comment env actor_id thread body) before.comments ≡ false
  pub written : Db
  pub notifications : written.notifications ≡ before.notifications
  pub chat : written.chat ≡ with_comment env actor_id thread body before.chat
  pub notified :
      IsNotified actor_id (comment_source env.id thread_id thread.channel_id) written after

add_comment-IsAdded :
    (env : Env) (actor_id thread_id : ℕ) (input : Text) (before after : Db)
    → add_comment env actor_id thread_id input before ≡ ok after
    → IsAdded env actor_id thread_id (trim (sanitize_stored_text input)) before after
unfolding add_comment write_comment
add_comment-IsAdded env actor_id thread_id input before after h =
    let body = trim (sanitize_stored_text input) in
    let (u, e1, h1) = >>=-ok (ensure (not (is_empty body)) comment_body_required) _ h in
    let (t, e2, h2) =
      >>=-ok
        (some_or (find (λ t. is_thread thread_id t && is_none t.deleted_at) before.threads)
          thread_not_found)
        _ h1 in
    let (v, e3, h3) = >>=-ok (ensure_can_view_channel actor_id t.channel_id before) _ h2 in
    let (chat, e4, h4) = >>=-ok (write_comment env actor_id t body before.chat) _ h3 in
    let written : Db = record before { chat = chat } in
    let (title, e5, h5) =
      >>=-ok (some_or (find (is_thread thread_id) written.threads) no_row) _ h4 in
    let (channel, e6, h6) =
      >>=-ok (some_or (find (λ c. c.id == t.channel_id) written.channels) no_row) _ h5 in
    record {
      thread = t;
      found = some_or-eq-ok _ _ e2;
      viewer = e3;
      fresh = (wrote _ t chat e4).0;
      written = record before { chat = chat };
      notifications = refl;
      chat = (wrote _ t chat e4).1;
      notified =
          subst (IsNotified actor_id (comment_source env.id thread_id t.channel_id) written)
            (ok_inj _ _ h6)
            (comment_created-IsNotified env actor_id env.id t.channel_id channel.slug thread_id
              title.title (t.last_comment_index + 1) body written);
    }
  where
    wrote :
        (b : Text) (t : ThreadRow) (chat : Chat)
        → write_comment env actor_id t b before.chat ≡ ok chat
        → (comment_conflicts (new_comment env actor_id t b) before.comments ≡ false)
          × (chat ≡ with_comment env actor_id t b before.chat)
    wrote b t chat e = ground arith

-- The live thread that a handler finds by its id is the thread of that id.
pub live-found :
    (chat : Chat) (thread_id : ℕ) (thread : ThreadRow)
    → IsCounted chat
    → find (λ t. is_thread thread_id t && is_none t.deleted_at) chat.threads ≡ some thread
    → (find (is_thread thread_id) chat.threads ≡ some thread) × (thread.id ≡ thread_id)
unfolding is_thread
live-found chat thread_id thread counted h =
    let found =
      find_key (is_thread thread_id) (λ t. is_none t.deleted_at) chat.threads thread
        (counted.thread_ids thread_id) h in
    (
      found,
      (==_iff thread.id thread_id).0 (find_fits (is_thread thread_id) chat.threads thread found),
    )

module _ (env : Env) (actor_id thread_id : ℕ) (input : Text) (before after : Db)
    (counted : IsCounted before.chat)
    (h : add_comment env actor_id thread_id input before ≡ ok after) where
  abbrev added : IsAdded env actor_id thread_id (trim (sanitize_stored_text input)) before after
  added = add_comment-IsAdded env actor_id thread_id input before after h

  at_thread :
      (added.thread.id ≡ thread_id)
      × (find (is_thread added.thread.id) before.threads ≡ some added.thread)
  at_thread =
      let (found, same) = live-found before.chat thread_id added.thread counted added.found in
      (same, subst (λ k. find (is_thread k) before.threads ≡ some added.thread) (sym same) found)

  chat_after :
      after.chat
      ≡ with_comment env actor_id added.thread (trim (sanitize_stored_text input)) before.chat
  chat_after = added.notified.frame.chat ∙ added.chat

  -- Adding a comment keeps every counter of every thread and reader.
  pub add_comment-IsCounted : IsCounted after.chat
  add_comment-IsCounted = subst IsCounted (sym chat_after) (
      with_comment-IsCounted env actor_id added.thread _ before.chat counted at_thread.1
        added.fresh)

  -- The author and every member of the thread's channel whose unread count is exact keep it exact.
  pub add_comment-IsExact :
      (t : ThreadRow) (a : ℕ)
      → find (is_thread thread_id) before.threads ≡ some t
      → (actor_id == a || is_member t.channel_id a before) ≡ true
      → IsExact thread_id a before.chat
      → IsExact thread_id a after.chat
  unfolding is_member
  add_comment-IsExact t a found reader exact =
      let same : added.thread ≡ t =
        some_inj added.thread t
          (sym (live-found before.chat thread_id added.thread counted added.found).0 ∙ found) in
      subst (λ chat. IsExact thread_id a before.chat → IsExact thread_id a chat) (sym chat_after)
        (subst
          (λ k.
            IsExact k a before.chat
            → IsExact k a (
                with_comment env actor_id added.thread (trim (sanitize_stored_text input))
                  before.chat))
          at_thread.0
          (with_comment-IsExact env actor_id added.thread _ before.chat counted at_thread.1 a
            (λ e. rw same (ground (arith, reader, e)))))
        exact

  -- Every notification after the call was there before it, or is about the thread and for another
  -- account than the author, which is active and a member of the thread's channel.
  pub add_comment-notified :
      (thread : ThreadRow) × (find (is_thread thread_id) before.threads ≡ some thread)
      × All
          (λ n.
            Mem n before.notifications ⊎ IsForMember actor_id thread_id thread.channel_id after n)
          after.notifications
  add_comment-notified = (
    added.thread,
    (live-found before.chat thread_id added.thread counted added.found).0,
    added.notified.fair
        (λ n.
          Mem n before.notifications
          ⊎ IsForMember actor_id thread_id added.thread.channel_id after n)
        (λ n f. inr (
          IsFair-member actor_id thread_id added.thread.channel_id env.id after n (record {
            about = f.about;
            not_actor = f.not_actor;
            visible =
                source_is_visible-frame n.account_id n.source added.written after
                  added.notified.frame
                ∙ f.visible;
          })))
        (subst (All _) (sym added.notifications)
          (All-mono before.notifications (λ n m. inl m) (All-self before.notifications))),
  )
