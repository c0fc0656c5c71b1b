-- ===== src/Accounts/Owners.antt =====
-- No handler on accounts takes away the last active owner.
use mathlib.Core.Path.{subst}
use sshoosh.Base.{
  ℕ, ◌≤◌, ◌≡◌, ap, inl, inr, Bool, true, false, ◌&&◌, not, some, ==_refl, arith, Bool-cases, ◌||◌,
  if◌then◌else◌, ok, ensure, some_or, >>=-ok, ensure-eq-ok, some_or-eq-ok, ok_inj, user_not_found,
  last_active_owner, only_owners_grant,
}
use sshoosh.Base.Tables.{find, count, exists}
use sshoosh.Base.Tables.Count.{
  count-update_where_other, count-update_where_keep, count-update_where_unfit,
}
use sshoosh.Text.{Text, text_eq, trim, trim_start_matches}
use sshoosh.Db.{Db, Env, Role, AccountRow}
use sshoosh.Feed.{insert_event, insert_audit}
use sshoosh.Guards.{
  Account, is_owner, is_admin, is_at_sign, is_active_owner, account_from_row,
  load_account_by_username_tx, require_admin_tx, ensure_can_manage_account,
  ensure_not_last_active_owner,
}
use sshoosh.Accounts.{
  is_account, update_account, disable_row, role_row, set_user_disabled, set_user_role,
}

-- The primary key of `accounts`.
pub record IsKeyed (db : Db) : Type 0 where
  pub account_ids : (k : ℕ) → count (is_account k) db.accounts ≤ 1

unfoldable pub has_owner : Db → Bool
has_owner db = exists is_active_owner db.accounts

-- The row that a username names.
pub record IsNamed (target : Account) (db : Db) : Type 0 where
  pub test : AccountRow → Bool
  pub row : AccountRow
  pub found : find test db.accounts ≡ some row
  pub same : account_from_row row ≡ target

pub load_account_by_username_tx-IsNamed :
    (env : Env) (username : Text) (db : Db) (target : Account)
    → load_account_by_username_tx env username db ≡ ok target
    → IsNamed target db
unfolding load_account_by_username_tx
load_account_by_username_tx-IsNamed env username db target h =
    let name = trim_start_matches is_at_sign (trim username) in
    let test : AccountRow → Bool = λ a. text_eq (env.sql_lower a.username) (env.sql_lower name) in
    let (row, e, h1) = >>=-ok (some_or (find test db.accounts) user_not_found) _ h in
    record { test = test; row = row; found = some_or-eq-ok _ _ e; same = ok_inj _ _ h1 }

module _ (db : Db) (target : Account) (f : AccountRow → AccountRow) where
  -- Another active owner is checked to be there.
  other_owner :
      ensure_not_last_active_owner target.id db ≡ ok tt
      → has_owner (update_account target.id f db) ≡ true
  unfolding has_owner update_account ensure_not_last_active_owner
  other_owner h = ground (
    arith,
    ensure-eq-ok _ last_active_owner h,
    count-update_where_other is_active_owner (is_account target.id) f db.accounts,
  )

  -- The account is no owner.
  no_owner :
      IsKeyed db
      → IsNamed target db
      → is_owner target.role ≡ false
      → has_owner db ≡ true
      → has_owner (update_account target.id f db) ≡ true
  unfolding has_owner update_account
  no_owner keyed named h owner = ground (
    arith,
    owner,
    count-update_where_unfit is_active_owner (is_account target.id) named.test f db.accounts
        named.row (keyed.account_ids target.id) named.found
        (unfold is_account account_from_row in
          rw (← ap (λ (a : Account). a.id) named.same) (==_refl named.row.id))
        (unfold is_active_owner account_from_row in
          rw (ap (λ (a : Account). is_owner a.role) named.same, h)),
  )

  -- The update keeps every active owner one.
  owner_kept :
      ((a : AccountRow) → is_active_owner a ≡ true → is_active_owner (f a) ≡ true)
      → has_owner db ≡ true
      → has_owner (update_account target.id f db) ≡ true
  unfolding has_owner update_account
  owner_kept keep owner = ground (
    arith,
    owner,
    count-update_where_keep is_active_owner (is_account target.id) f db.accounts keep,
  )

module _ (env : Env) (actor_id : ℕ) (username : Text) (db after : Db) (keyed : IsKeyed db) where
  -- Disabling or enabling a user leaves an active owner where there was one.
  pub set_user_disabled-has_owner :
      (disabled : Bool)
      → has_owner db ≡ true
      → set_user_disabled env actor_id username disabled db ≡ ok after
      → has_owner after ≡ true
  unfolding set_user_disabled insert_event insert_audit has_owner
  set_user_disabled-has_owner disabled owner h =
      let (actor, e1, h1) = >>=-ok (require_admin_tx actor_id db) _ h in
      let (target, e2, h2) = >>=-ok (load_account_by_username_tx env username db) _ h1 in
      let (u, e3, h3) = >>=-ok (ensure_can_manage_account actor target) _ h2 in
      let (v, e4, h4) =
        >>=-ok
          (if disabled && is_owner target.role
            then ensure_not_last_active_owner target.id db
            else ok tt)
          _ h3 in
      subst (λ (d : Db). has_owner d ≡ true) (ok_inj _ _ h4)
        (kept target (load_account_by_username_tx-IsNamed env username db target e2) e4)
    where
      kept :
          (target : Account)
          → IsNamed target db
          → (if disabled && is_owner target.role
              then ensure_not_last_active_owner target.id db
              else ok tt)
            ≡ ok tt
          → has_owner (update_account target.id (disable_row env disabled) db) ≡ true
      kept target named e = elim (Bool-cases disabled) [
        | inr d ↦
            owner_kept db target (disable_row env disabled)
              (λ a p. unfold is_active_owner in ground arith) owner
        | inl d ↦ elim (Bool-cases (is_owner target.role)) [
          | inl o ↦ other_owner db target (disable_row env disabled) (rw (d, o) at e)
          | inr o ↦ no_owner db target (disable_row env disabled) keyed named o owner
        ]
      ]

  -- Changing a user's role leaves an active owner where there was one.
  pub set_user_role-has_owner :
      (role : Role)
      → has_owner db ≡ true
      → set_user_role env actor_id username role db ≡ ok after
      → has_owner after ≡ true
  unfolding set_user_role insert_event insert_audit has_owner
  set_user_role-has_owner role owner h =
      let (actor, e1, h1) = >>=-ok (require_admin_tx actor_id db) _ h in
      let (target, e2, h2) = >>=-ok (load_account_by_username_tx env username db) _ h1 in
      let (u, e3, h3) = >>=-ok (ensure_can_manage_account actor target) _ h2 in
      let (w, e4, h4) =
        >>=-ok
          (ensure (not (not (is_owner actor.role) && (is_owner role || is_admin role)))
            only_owners_grant)
          _ h3 in
      let (v, e5, h5) =
        >>=-ok
          (if is_owner target.role && not (is_owner role)
            then ensure_not_last_active_owner target.id db
            else ok tt)
          _ h4 in
      subst (λ (d : Db). has_owner d ≡ true) (ok_inj _ _ h5)
        (kept target (load_account_by_username_tx-IsNamed env username db target e2) e5)
    where
      kept :
          (target : Account)
          → IsNamed target db
          → (if is_owner target.role && not (is_owner role)
              then ensure_not_last_active_owner target.id db
              else ok tt)
            ≡ ok tt
          → has_owner (update_account target.id (role_row env role) db) ≡ true
      kept target named e = elim (Bool-cases (is_owner role)) [
        | inl d ↦
            owner_kept db target (role_row env role) (λ a p. unfold is_active_owner in ground arith)
              owner
        | inr d ↦ elim (Bool-cases (is_owner target.role)) [
          | inl o ↦ other_owner db target (role_row env role) (rw (d, o) at e)
          | inr o ↦ no_owner db target (role_row env role) keyed named o owner
        ]
      ]
