-- ===== src/Accounts/Rights.antt =====
-- Who may change a role.
use mathlib.Core.Path.{subst}
use sshoosh.Base.{
  ℕ, ◌≡◌, refl, sym, ap, ◌∙◌, ◌⊎◌, inl, inr, true, false, ◌&&◌, ◌||◌, not, arith, Bool-cases,
  if◌then◌else◌, ok, ensure, >>=-ok, ensure-eq-ok, ok_inj, only_owners_grant, only_admins,
}
use sshoosh.Base.Tables.{update_where}
use sshoosh.Text.{Text}
use sshoosh.Db.{Db, Env, Role, owner, admin, member}
use sshoosh.Feed.{insert_event, insert_audit}
use sshoosh.Guards.{
  Account, can_admin, is_owner, is_admin, load_account_tx, load_account_by_username_tx,
  require_admin_tx, ensure_can_manage_account, ensure_not_last_active_owner,
}
use sshoosh.Accounts.{is_account, update_account, role_row, set_user_role}

-- What a change of a role has checked and done: an activated administrator changes it, and one
-- that is no owner neither changes an owner's nor makes an owner or an administrator.
pub record IsGranted (env : Env) (actor_id : ℕ) (username : Text) (role : Role) (db after : Db)
    : Type 0 where
  pub actor : Account
  pub target : Account
  pub loaded : load_account_tx actor_id db ≡ ok actor
  pub named : load_account_by_username_tx env username db ≡ ok target
  pub rights : (actor.activated && can_admin actor.role) ≡ true
  pub allowed : (is_owner actor.role ≡ true) ⊎ ((is_owner target.role ≡ false) × (role ≡ member))
  pub accounts :
      after.accounts ≡ update_where (is_account target.id) (role_row env role) db.accounts

plain_role : (r : Role) → (is_owner r || is_admin r) ≡ false → r ≡ member
unfolding is_owner is_admin
plain_role member e = refl
plain_role owner e = cc
plain_role admin e = cc

-- A role is changed only as `IsGranted` says.
pub set_user_role-IsGranted :
    (env : Env) (actor_id : ℕ) (username : Text) (role : Role) (db after : Db)
    → set_user_role env actor_id username role db ≡ ok after
    → IsGranted env actor_id username role db after
unfolding set_user_role insert_event insert_audit require_admin_tx update_account
set_user_role-IsGranted env actor_id username role db after h =
    let (actor, e1, h1) = >>=-ok (require_admin_tx actor_id db) _ h in
    let (target, e2, h2) = >>=-ok (load_account_by_username_tx env username db) _ h1 in
    let (u, e3, h3) = >>=-ok (ensure_can_manage_account actor target) _ h2 in
    let (w, e4, h4) =
      >>=-ok
        (ensure (not (not (is_owner actor.role) && (is_owner role || is_admin role)))
          only_owners_grant)
        _ h3 in
    let (v, e5, h5) =
      >>=-ok
        (if is_owner target.role && not (is_owner role)
          then ensure_not_last_active_owner target.id db
          else ok tt)
        _ h4 in
    let (own, e6, h6) = >>=-ok (load_account_tx actor_id db) _ e1 in
    let (x, e7, h7) = >>=-ok (ensure (own.activated && can_admin own.role) only_admins) _ h6 in
    let same = ok_inj own actor h7 in
    record {
      actor = actor;
      target = target;
      loaded = e6 ∙ ap ok same;
      named = e2;
      rights =
          subst (λ (a : Account). (a.activated && can_admin a.role) ≡ true) same
            (ensure-eq-ok _ only_admins e7);
      allowed = granted actor target e3 (ensure-eq-ok _ only_owners_grant e4);
      accounts = sym (ap (λ (d : Db). d.accounts) (ok_inj _ _ h5));
    }
  where
    granted :
        (actor target : Account)
        → ensure_can_manage_account actor target ≡ ok tt
        → not (not (is_owner actor.role) && (is_owner role || is_admin role)) ≡ true
        → (is_owner actor.role ≡ true) ⊎ ((is_owner target.role ≡ false) × (role ≡ member))
    granted actor target e g = elim (Bool-cases (is_owner actor.role)) [
      | inl o ↦ inl o
      | inr o ↦
          inr (unfold ensure_can_manage_account in ground arith, plain_role role (ground arith))
    ]
