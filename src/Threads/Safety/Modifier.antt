-- ===== src/Threads/Safety/Modifier.antt =====
-- Who may modify a thread: `ensure_can_modify_thread` of src/features/shared/permissions.rs.
use sshoosh.Base.{
  ℕ, ◌≡◌, ap, ◌∙◌, true, false, Bool, ◌&&◌, ◌||◌, not, some, ◌==◌, is_none, is_some, arith, ok,
  ensure, some_or, >>=-ok, some_or-eq-ok, ensure-eq-ok, ok_inj, no_row, not_activated,
  channel_not_found,
}
use sshoosh.Base.Tables.{find}
use sshoosh.Db.{Db, AccountRow, ChannelRow, ThreadRow}
use sshoosh.Guards.{
  Account, load_account_tx, account_from_row, can_admin, load_channel_by_id_tx,
  ensure_can_modify_thread,
}

-- The actor is an active account that is an administrator, created the channel, or, where no
-- moderator is asked for, created the thread.
pub record IsModifier (actor_id : ℕ) (target : ThreadRow) (moderator : Bool) (db : Db)
    : Type 0 where
  pub row : AccountRow
  pub found : find (λ a. a.id == actor_id && is_none a.disabled_at) db.accounts ≡ some row
  pub active : is_some row.activated_at ≡ true
  pub channel : ChannelRow
  pub channel_found :
      find (λ c. c.id == target.channel_id && is_none c.archived_at) db.channels ≡ some channel
  pub allowed :
      (can_admin row.role
        || channel.created_by_account_id == actor_id
        || (not moderator && target.creator_account_id == actor_id))
      ≡ true

-- A moderator may do what the creator may.
pub moderator-IsModifier :
    (actor_id : ℕ) (target : ThreadRow) (db : Db)
    → IsModifier actor_id target true db
    → IsModifier actor_id target false db
moderator-IsModifier actor_id target db m = record {
  row = m.row;
  found = m.found;
  active = m.active;
  channel = m.channel;
  channel_found = m.channel_found;
  allowed = ground (arith, m.allowed);
}

pub ensure_can_modify_thread-IsModifier :
    (actor_id : ℕ) (target : ThreadRow) (moderator : Bool) (db : Db) (actor : Account)
    → ensure_can_modify_thread actor_id target moderator db ≡ ok actor
    → IsModifier actor_id target moderator db
unfolding ensure_can_modify_thread load_account_tx account_from_row load_channel_by_id_tx
ensure_can_modify_thread-IsModifier actor_id target moderator db actor h =
    let (a, e1, h1) = >>=-ok (load_account_tx actor_id db) _ h in
    let (row, e2, h2) =
      >>=-ok (some_or (find (λ a. a.id == actor_id && is_none a.disabled_at) db.accounts) no_row) _
        e1 in
    let same = ok_inj (account_from_row row) a h2 in
    let (u, e3, h3) = >>=-ok (ensure a.activated not_activated) _ h1 in
    let (channel, e4, h4) = >>=-ok (load_channel_by_id_tx target.channel_id db) _ h3 in
    record {
      row = row;
      found = some_or-eq-ok _ no_row e2;
      active = ap (λ (x : Account). x.activated) same ∙ ensure-eq-ok _ not_activated e3;
      channel = channel;
      channel_found = some_or-eq-ok _ channel_not_found e4;
      allowed =
          ap
            (λ (x : Account).
              can_admin x.role
              || channel.created_by_account_id == actor_id
              || (not moderator && target.creator_account_id == actor_id))
            same
          ∙ ground arith;
    }
