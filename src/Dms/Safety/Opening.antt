-- ===== src/Dms/Safety/Opening.antt =====
-- `open_dm`.
use mathlib.Core.Path.{subst}
use sshoosh.Base.{
  ℕ, ◌≡◌, sym, ap, ◌∙◌, true, not, some, ◌==◌, ok, ensure, some_or, >>=-ok, some_or-eq-ok,
  ensure-eq-ok, ok_inj, some_inj, not_activated, user_not_found, cannot_dm_self,
}
use sshoosh.Base.Tables.{find}
use sshoosh.Text.{Text}
use sshoosh.Db.{Db, Env, Chat, AccountRow}
use sshoosh.Feed.{insert_event}
use sshoosh.Guards.{load_account_tx}
use sshoosh.Dms.Writes.{has_key, keep_seat}
use sshoosh.Dms.Handlers.{open_dm, open_conversation, dm_target}
use sshoosh.Dms.Exact.{IsExact}
use sshoosh.Dms.Exact.Opened.{IsOpen, open_conversation-IsOpen, dm_key_comm}

-- The statements that insert a seat if there is none leave the tables of an open conversation.
keep_seats :
    (env : Env) (k a b : ℕ) (chat : Chat)
    → IsOpen k a b chat
    → keep_seat env k b (keep_seat env k a chat) ≡ chat
unfolding keep_seat
keep_seats env k a b chat seated = rw (seated.left, seated.right)

-- What a call of `open_dm` that succeeds has found and done.
record IsOpened (env : Env) (actor_id : ℕ) (target : Text) (before after : Db) (k : ℕ)
    : Type 0 where
  pub row : AccountRow
  pub target_found : dm_target env target before ≡ some row
  pub other : not (row.id == actor_id) ≡ true
  pub chat : open_conversation env actor_id row.id before.chat ≡ ok (k, after.chat)
  pub seated : IsOpen k actor_id row.id after.chat
  pub exact : IsExact after.chat

open_dm-IsOpened :
    (env : Env) (actor_id : ℕ) (target : Text) (before after : Db) (k : ℕ)
    → IsExact before.chat
    → open_dm env actor_id target before ≡ ok (k, after)
    → IsOpened env actor_id target before after k
unfolding open_dm insert_event
open_dm-IsOpened env actor_id target before after k exact h =
    let (a, e1, h1) = >>=-ok (load_account_tx actor_id before) _ h in
    let (u, e2, h2) = >>=-ok (ensure a.activated not_activated) _ h1 in
    let (row, e3, h3) = >>=-ok (some_or (dm_target env target before) user_not_found) _ h2 in
    let (v, e4, h4) = >>=-ok (ensure (not (row.id == actor_id)) cannot_dm_self) _ h3 in
    let (x, e5, h5) = >>=-ok (open_conversation env actor_id row.id before.chat) _ h4 in
    let kept = open_conversation-IsOpen env actor_id row.id before.chat exact x.0 x.1 e5 in
    let same : (x.0, x.1) ≡ (k, after.chat) =
      ap (λ c. (x.0, c)) (sym (keep_seats env x.0 actor_id row.id x.1 kept.1))
      ∙ ap (λ (y : ℕ × Db). (y.0, y.1.chat)) (ok_inj _ _ h5) in
    record {
      row = row;
      target_found = some_or-eq-ok _ user_not_found e3;
      other = ensure-eq-ok _ cannot_dm_self e4;
      chat = e5 ∙ ap ok same;
      seated = subst (λ (y : ℕ × Chat). IsOpen y.0 actor_id row.id y.1) same kept.1;
      exact = subst (λ (y : ℕ × Chat). IsExact y.1) same kept.0;
    }

-- Opening a direct message keeps the counters of every conversation exact, and the actor and
-- the active account that is named, which is another account, both sit in the one conversation
-- that has their key.
pub open_dm_lem :
    (env : Env) (actor_id : ℕ) (target : Text) (before after : Db) (k : ℕ)
    → IsExact before.chat
    → open_dm env actor_id target before ≡ ok (k, after)
    → IsExact after.chat
      × ((row : AccountRow) × (dm_target env target before ≡ some row)
          × (not (row.id == actor_id) ≡ true)
          × IsOpen k actor_id row.id after.chat)
open_dm_lem env actor_id target before after k exact h =
    let o = open_dm-IsOpened env actor_id target before after k exact h in
    (o.exact, (o.row, o.target_found, o.other, o.seated))

open_again :
    (env : Env) (a b k k' : ℕ) (chat chat' : Chat)
    → IsOpen k b a chat
    → open_conversation env a b chat ≡ ok (k', chat')
    → (k' ≡ k) × (chat' ≡ chat)
unfolding open_conversation
open_again env a b k k' chat chat' seated h =
    let found =
      subst (λ key. find (has_key key) chat.conversations ≡ some seated.conversation)
        (dm_key_comm b a) seated.found in
    let same = ok_inj _ _ (rw (open_conversation, found) at h) in
    (sym (ap (λ (x : ℕ × Chat). x.0) same) ∙ seated.id, sym (ap (λ (x : ℕ × Chat). x.1) same))

-- When the account that was named opens a direct message to the first actor, both get the same
-- conversation, and no table of the chat changes.
pub open_dm_again :
    (env env' : Env) (actor_id : ℕ) (target target' : Text) (before middle after : Db) (k k' : ℕ)
    (row row' : AccountRow)
    → IsExact before.chat
    → open_dm env actor_id target before ≡ ok (k, middle)
    → dm_target env target before ≡ some row
    → open_dm env' row.id target' middle ≡ ok (k', after)
    → dm_target env' target' middle ≡ some row'
    → row'.id ≡ actor_id
    → (k' ≡ k) × (after.chat ≡ middle.chat)
open_dm_again env env' actor_id target target' before middle after k k' row row' exact first named
      second back same =
    let o = open_dm-IsOpened env actor_id target before middle k exact first in
    let o' = open_dm-IsOpened env' row.id target' middle after k' o.exact second in
    let one : o.row ≡ row = some_inj _ _ (sym o.target_found ∙ named) in
    let two : o'.row.id ≡ actor_id =
      ap (λ (r : AccountRow). r.id) (some_inj o'.row row' (sym o'.target_found ∙ back)) ∙ same in
    open_again env' row.id actor_id k k' middle.chat after.chat
      (subst (λ (r : AccountRow). IsOpen k actor_id r.id middle.chat) one o.seated)
      (subst (λ i. open_conversation env' row.id i middle.chat ≡ ok (k', after.chat)) two o'.chat)
