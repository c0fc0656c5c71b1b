-- ===== src/Accounts.antt =====
-- The handlers on accounts: src/features/accounts/state.rs.
-- A user to act on is named by a username, or is the actor where the source finds the actor's own
-- identifier in place of a username.
pub mod Owners
pub mod Renaming
pub mod Rights
use sshoosh.Base.{
  ℕ, ◌+◌, Bool, true, false, ◌&&◌, ◌||◌, not, Option, none, some, List, [], ◌∷◌, ◌++◌, ◌==◌, ltb,
  leb, is_none, is_some, if◌then◌else◌, Result, ok, err, ensure, some_or, ◌>>=◌, ◌>>◌,
  only_owners_grant, bad_length, key_not_found, no_row, constraint,
}
use sshoosh.Base.Tables.{find, exists, update_where, upsert}
use sshoosh.Text.{Text, codes, length, text_eq, trim}
use sshoosh.Text.Sanitize.{sanitize_single_line_text}
use sshoosh.Text.Name.{normalize_username}
use sshoosh.Db.{
  Db, Env, Role, owner, admin, member, AccountRow, ReservationRow, SshKeyRow, num, text,
}
use sshoosh.Feed.{entry, insert_event, insert_audit}
use sshoosh.Guards.{
  Account, is_owner, is_admin, load_account_tx, load_account_by_username_tx, require_admin_tx,
  ensure_can_manage_account, ensure_not_last_active_owner, ensure_owner_keeps_active_key,
  ensure_username_reservable_tx,
}

unfoldable pub is_account : ℕ → AccountRow → Bool
is_account account_id a = a.id == account_id

-- `UPDATE accounts SET … WHERE id = ?`
unfoldable pub update_account : ℕ → (AccountRow → AccountRow) → Db → Db
unfolding is_account
update_account account_id f db = record db {
  people = record db.people { accounts = update_where (is_account account_id) f db.accounts };
}

abbrev pub disable_row : Env → Bool → AccountRow → AccountRow
disable_row env disabled a = record a {
  disabled_at = if disabled then some env.now else none;
  updated_at = env.now;
}

unfoldable pub set_user_disabled : Env → ℕ → Text → Bool → Db → Result Db
set_user_disabled env actor_id username disabled db = do
  actor ← require_admin_tx actor_id db
  target ← load_account_by_username_tx env username db
  ensure_can_manage_account actor target
  (if disabled && is_owner target.role then ensure_not_last_active_owner target.id db else ok tt)
  let written = update_account target.id (disable_row env disabled) db
  let action = if disabled then "user.disabled" else "user.enabled"
  let audited =
      insert_audit env (some actor_id) action (some target.id)
        (entry "username" (text target.username) ∷ []) written
  ok (
      insert_event env none none none action
        (entry "account_id" (num target.id) ∷ entry "username" (text target.username) ∷ []) audited)

abbrev pub role_name : Role → Text
role_name owner = codes "owner"
role_name admin = codes "admin"
role_name member = codes "member"

abbrev pub role_row : Env → Role → AccountRow → AccountRow
role_row env role a = record a { role = role; updated_at = env.now }

unfoldable pub set_user_role : Env → ℕ → Text → Role → Db → Result Db
set_user_role env actor_id username role db = do
  actor ← require_admin_tx actor_id db
  target ← load_account_by_username_tx env username db
  ensure_can_manage_account actor target
  ensure (not (not (is_owner actor.role) && (is_owner role || is_admin role))) only_owners_grant
  (if is_owner target.role && not (is_owner role)
      then ensure_not_last_active_owner target.id db
      else ok tt)
  let written = update_account target.id (role_row env role) db
  let audited =
      insert_audit env (some actor_id) "user.role_changed" (some target.id)
        (entry "username" (text target.username) ∷ entry "role" (text (role_name role)) ∷ [])
        written
  ok (
      insert_event env none none none "user.role_changed"
        (entry "account_id" (num target.id)
          ∷ entry "username" (text target.username)
          ∷ entry "role" (text (role_name role))
          ∷ [])
        audited)

-- The account that a handler acts on.
unfoldable pub load_target : Env → Account → Option Text → Db → Result Account
load_target env actor none db = ok actor
load_target env actor (some username) db = load_account_by_username_tx env username db

unfoldable pub ensure_own_or_manage : Account → Account → Result (Unit {0})
ensure_own_or_manage actor target =
    if actor.id == target.id then ok tt else ensure_can_manage_account actor target

-- The two statements of `set_current_username_reservation_tx`.
unfoldable pub reserve_username : Env → ℕ → Text → List ReservationRow → List ReservationRow
reserve_username env account_id username reservations =
    let retired =
      update_where
        (λ r.
          r.account_id == account_id && r.current && not (text_eq r.normalized_username username))
        (λ r. record r {
          current = false;
          last_used_at = if is_some r.last_used_at then r.last_used_at else some env.now;
        })
        reservations in
    upsert (λ r. text_eq r.normalized_username username)
      (record {
        normalized_username = username;
        username = username;
        account_id = account_id;
        first_used_at = env.now;
        last_used_at = none;
        current = true;
      })
      (λ r.
        if r.account_id == account_id
        then record r { username = username; last_used_at = none; current = true }
        else r)
      retired

unfoldable pub set_current_username_reservation_tx : Env → ℕ → Text → Db → Result Db
set_current_username_reservation_tx env account_id username db = do
  ensure_username_reservable_tx account_id username db
  ok (record db {
    people = record db.people {
      reservations = reserve_username env account_id username db.reservations;
    };
  })

-- `accounts.username` is unique, so the update that gives the name to an account may fail.
unfoldable pub ensure_username_unique : ℕ → Text → Db → Result (Unit {0})
ensure_username_unique account_id username db =
    ensure (not (exists (λ a. text_eq a.username username && not (a.id == account_id)) db.accounts))
      constraint

unfoldable pub rename_user : Env → ℕ → Option Text → Text → Db → Result Db
unfolding ensure_username_unique
rename_user env actor_id username next_username db = do
  next ← normalize_username env.unicode_lower next_username
  actor ← load_account_tx actor_id db
  target ← load_target env actor username db
  ensure_own_or_manage actor target
  ensure_username_reservable_tx target.id next db
  ensure_username_unique target.id next db
  let written =
      update_account target.id (λ a. record a { username = next; updated_at = env.now }) db
  reserved ← set_current_username_reservation_tx env target.id next written
  let audited =
      insert_audit env (some actor_id) "user.renamed" (some target.id)
        (entry "from" (text target.username) ∷ entry "to" (text next) ∷ []) reserved
  ok (
      insert_event env none none none "user.renamed"
        (entry "account_id" (num target.id) ∷ entry "username" (text next) ∷ []) audited)

unfoldable pub set_display_name : Env → ℕ → Option Text → Text → Db → Result Db
set_display_name env actor_id username input db = do
  let display_name = trim (sanitize_single_line_text input)
  ensure (leb 1 (length display_name) && leb (length display_name) 80) bad_length
  actor ← load_account_tx actor_id db
  target ← load_target env actor username db
  ensure_own_or_manage actor target
  let written =
      update_account target.id (λ a. record a { display_name = display_name; updated_at = env.now })
        db
  let audited =
      insert_audit env (some actor_id) "user.display_name_changed" (some target.id)
        (entry "username" (text target.username) ∷ entry "display_name" (text display_name) ∷ [])
        written
  ok (
      insert_event env none none none "user.display_name_changed"
        (entry "account_id" (num target.id) ∷ entry "display_name" (text display_name) ∷ [])
        audited)

-- `id_like` says which identifiers start with the text that names the key.
unfoldable pub revoke_ssh_key : Env → (ℕ → Bool) → ℕ → Text → Db → Result Db
revoke_ssh_key env id_like actor_id key db = do
  actor ← load_account_tx actor_id db
  k ←
      some_or
        (find
          (λ k.
            (id_like k.id || text_eq k.fingerprint (trim key))
            && is_none k.revoked_at
            && exists (is_account k.account_id) db.accounts)
          db.ssh_keys)
        key_not_found
  row ← some_or (find (is_account k.account_id) db.accounts) key_not_found
  let target : Account = record {
    id = k.account_id;
    username = row.username;
    display_name = [];
    role = row.role;
    activated = true;
    pending_username = none;
  }
  ensure_own_or_manage actor target
  (if is_owner target.role then ensure_owner_keeps_active_key target.id db else ok tt)
  let written : Db = record db {
    people = record db.people {
      ssh_keys =
          update_where (λ x. x.id == k.id) (λ x. record x { revoked_at = some env.now })
            db.ssh_keys;
    };
  }
  let audited =
      insert_audit env (some actor_id) "ssh_key.revoked" (some k.id)
        (entry "username" (text target.username) ∷ entry "fingerprint" (text k.fingerprint) ∷ [])
        written
  ok (
      insert_event env none none none "ssh_key.revoked"
        (entry "key_id" (num k.id) ∷ entry "account_id" (num target.id) ∷ []) audited)
