-- ===== src/Accounts/Renaming.antt =====
-- `rename_user` of src/features/accounts/state.rs: whose a username is.
use mathlib.Core.Path.{subst}
use sshoosh.Base.{
  ℕ, ◌≡◌, refl, sym, ap, ◌∙◌, inl, inr, Bool, true, false, Option, none, some, List, arith,
  Bool-cases, Option-cases, if◌then◌else◌, is_some, ok, ensure, >>=-ok, ensure-eq-ok, ok_inj, [],
  ◌∷◌, ◌==◌, ==_refl, ==_iff, username_used,
}
use sshoosh.Base.Tables.{find, update_where, upsert}
use sshoosh.Base.Tables.Find.{find-update_where, find-append, find-upsert_self, find_fits}
use sshoosh.Text.{Text, text_eq}
use sshoosh.Text.Name.{normalize_username}
use sshoosh.Db.{Db, Env, AccountRow, ReservationRow}
use sshoosh.Feed.{insert_event, insert_audit}
use sshoosh.Guards.{
  Account, load_account_tx, username_reservation_owner_tx, is_free_for,
  ensure_username_reservable_tx,
}
use sshoosh.Accounts.{
  is_account, update_account, rename_user, reserve_username, load_target, ensure_username_unique,
  ensure_own_or_manage, set_current_username_reservation_tx,
}

abbrev owner_of : Option ReservationRow → Option ℕ
owner_of none = none
owner_of (some r) = some r.account_id

names : Text → ReservationRow → Bool
names name r = text_eq r.normalized_username name

owner-reserved :
    (name : Text) (db : Db)
    → username_reservation_owner_tx name db ≡ owner_of (find (names name) db.reservations)
unfolding username_reservation_owner_tx names
owner-reserved name db = go (find (names name) db.reservations)
  where
    go :
        (o : Option ReservationRow)
        → elim o [ none ↦ none | some r ↦ some r.account_id ] ≡ owner_of o
    go none = refl
    go (some r) = refl

-- The statements of a new reservation change no row's account.
module _ (env : Env) (account_id : ℕ) (username name : Text) where
  owner-update_where :
      (p : ReservationRow → Bool) (f : ReservationRow → ReservationRow) (rs : List ReservationRow)
      → ((r : ReservationRow) → (names name) (f r) ≡ (names name) r)
      → ((r : ReservationRow) → (f r).account_id ≡ r.account_id)
      → owner_of (find (names name) (update_where p f rs)) ≡ owner_of (find (names name) rs)
  owner-update_where p f rs keep same = elim (Option-cases (find (names name) rs)) [
    | inl e ↦ rw (find-update_where (names name) p f rs keep, e)
    | inr (r, e) ↦
        rw (find-update_where (names name) p f rs keep, e)
          (elim (Bool-cases (p r)) [ inl d ↦ rw (d, same r) | inr d ↦ rw d ])
  ]

  owner-upsert :
      (p : ReservationRow → Bool) (new : ReservationRow) (f : ReservationRow → ReservationRow)
      (rs : List ReservationRow) (o : ℕ)
      → ((r : ReservationRow) → (names name) (f r) ≡ (names name) r)
      → ((r : ReservationRow) → (f r).account_id ≡ r.account_id)
      → owner_of (find (names name) rs) ≡ some o
      → owner_of (find (names name) (upsert p new f rs)) ≡ some o
  unfolding upsert
  owner-upsert p new f rs o keep same h = elim (Bool-cases (is_some (find p rs))) [
    | inl e ↦ rw e (owner-update_where p f rs keep same ∙ h)
    | inr e ↦
        rw (e, find-append (names name) rs new)
          (elim (Option-cases (find (names name) rs)) [
            | inl d ↦ cc
            | inr (r, d) ↦ rw d (rw d at h)
          ])
  ]

  reserve_username-owner :
      (rs : List ReservationRow) (o : ℕ)
      → owner_of (find (names name) rs) ≡ some o
      → owner_of (find (names name) (reserve_username env account_id username rs)) ≡ some o
  unfolding reserve_username names
  reserve_username-owner rs o h =
      owner-upsert _ _ _ _ o (λ r. ground arith) (λ r. ground arith)
        (owner-update_where _ _ rs (λ r. refl) (λ r. refl) ∙ h)

text_eq_refl : (t : Text) → text_eq t t ≡ true
unfolding text_eq
text_eq_refl [] = refl
text_eq_refl (c ∷ t) = rw (==_refl c) (text_eq_refl t)

-- A name that is free for the account is reserved for it then.
reserve_username-reserved :
    (env : Env) (account_id : ℕ) (username : Text) (rs : List ReservationRow)
    → ((o : ℕ) → owner_of (find (names username) rs) ≡ some o → o ≡ account_id)
    → owner_of (find (names username) (reserve_username env account_id username rs))
      ≡ some account_id
unfolding reserve_username names
reserve_username-reserved env account_id username rs free =
    ap owner_of
      (find-upsert_self (names username) _ _ _ (λ r. ground arith) (text_eq_refl username))
    ∙ go _ (owner-update_where env account_id username username _ _ rs (λ r. refl) (λ r. refl))
  where
    go :
        (found : Option ReservationRow)
        → owner_of found ≡ owner_of (find (names username) rs)
        → owner_of (elim found [
          | none ↦ some (record {
            normalized_username = username;
            username = username;
            account_id = account_id;
            first_used_at = env.now;
            last_used_at = none;
            current = true;
          })
          | some r ↦ some (
              if r.account_id == account_id
              then record r { username = username; last_used_at = none; current = true }
              else r)
        ])
          ≡ some account_id
    go none same = refl
    go (some r) same = elim (Bool-cases (r.account_id == account_id)) [
      | inl e ↦ rw e (ap some (free r.account_id (sym same)))
      | inr e ↦ rw e (ap some (free r.account_id (sym same)))
    ]

reservable :
    (account_id : ℕ) (name : Text) (db : Db) {u : Unit {0}}
    → ensure_username_reservable_tx account_id name db ≡ ok u
    → (o : ℕ) → username_reservation_owner_tx name db ≡ some o
    → o ≡ account_id
unfolding ensure_username_reservable_tx is_free_for
reservable account_id name db {u} e o held = (==_iff o account_id).0 (
    ensure-eq-ok (o == account_id) username_used
      (subst (λ x. ensure (is_free_for account_id x) username_used ≡ ok u) held e))

-- The account has the name and no other account changes.
pub record IsRenamed (account_id : ℕ) (name : Text) (before after : List AccountRow) : Type 0 where
  pub account :
      (row : AccountRow)
      → find (is_account account_id) before ≡ some row
      → (new : AccountRow) × (find (is_account account_id) after ≡ some new) × (new.username ≡ name)
  pub others :
      (k : ℕ) → (k == account_id) ≡ false → find (is_account k) after ≡ find (is_account k) before

update_account-IsRenamed :
    (env : Env) (account_id : ℕ) (name : Text) (db : Db)
    → IsRenamed account_id name db.accounts
        (update_account account_id
          (λ a. record a { username = name; updated_at = env.now })
          db).accounts
unfolding update_account is_account
update_account-IsRenamed env account_id name db = record {
  account = λ row h. (
    record row { username = name; updated_at = env.now },
    find-update_where (is_account account_id) (is_account account_id) _ db.accounts (λ a. refl)
        ∙ rw h (rw (find_fits (is_account account_id) db.accounts row h) refl),
    refl,
  );
  others = λ k apart.
      find-update_where (is_account k) (is_account account_id) _ db.accounts (λ a. refl)
      ∙ elim (Option-cases (find (is_account k) db.accounts)) [
        | inl e ↦ rw e refl
        | inr (a, e) ↦ rw e (rw (misses k a apart (find_fits (is_account k) db.accounts a e)) refl)
      ];
}
  where
    misses :
        (k : ℕ) (a : AccountRow)
        → (k == account_id) ≡ false
        → (a.id == k) ≡ true
        → (a.id == account_id) ≡ false
    misses k a apart same = ground arith

-- Where `rename_user` succeeds, the name was not reserved for another account than the one that is
-- renamed, and is reserved for that one then; every name that was reserved stays reserved for the
-- account that has it; the account has the name, and no other account changes.
pub rename_user_lem :
    (env : Env) (actor_id : ℕ) (username : Option Text) (input : Text) (db after : Db)
    → rename_user env actor_id username input db ≡ ok after
    → (next : Text) × (normalize_username env.unicode_lower input ≡ ok next)
      × ((actor : Account) × (load_account_tx actor_id db ≡ ok actor)
          × ((target : Account) × (load_target env actor username db ≡ ok target)
              × ((o : ℕ) → username_reservation_owner_tx next db ≡ some o → o ≡ target.id)
              × (username_reservation_owner_tx next after ≡ some target.id)
              × ((name : Text) (o : ℕ)
                  → username_reservation_owner_tx name db ≡ some o
                  → username_reservation_owner_tx name after ≡ some o)
              × IsRenamed target.id next db.accounts after.accounts))
unfolding rename_user set_current_username_reservation_tx insert_event insert_audit update_account
rename_user_lem env actor_id username input db after h =
    let (next, e1, h1) = >>=-ok (normalize_username env.unicode_lower input) _ h in
    let (actor, e2, h2) = >>=-ok (load_account_tx actor_id db) _ h1 in
    let (target, e3, h3) = >>=-ok (load_target env actor username db) _ h2 in
    let (u, e4, h4) = >>=-ok (ensure_own_or_manage actor target) _ h3 in
    let (v, e5, h5) = >>=-ok (ensure_username_reservable_tx target.id next db) _ h4 in
    let (x, e, h5) = >>=-ok (ensure_username_unique target.id next db) _ h5 in
    let written =
      update_account target.id (λ a. record a { username = next; updated_at = env.now }) db in
    let (reserved, e6, h6) =
      >>=-ok (set_current_username_reservation_tx env target.id next written) _ h5 in
    let (w, e7, h7) = >>=-ok (ensure_username_reservable_tx target.id next written) _ e6 in
    let reservations : reserve_username env target.id next db.reservations ≡ after.reservations =
      ap (λ (d : Db). d.reservations) (ok_inj _ _ h7)
      ∙ ap (λ (d : Db). d.reservations) (ok_inj _ _ h6) in
    let accounts : written.accounts ≡ after.accounts =
      ap (λ (d : Db). d.accounts) (ok_inj _ _ h7) ∙ ap (λ (d : Db). d.accounts) (ok_inj _ _ h6) in
    let free = reservable target.id next db e5 in
    (
      next,
      e1,
      (
        actor,
        e2,
        (
          target,
          e3,
          free,
          owner-reserved next after
              ∙ subst (λ rs. owner_of (find (names next) rs) ≡ some target.id) reservations
                  (reserve_username-reserved env target.id next db.reservations
                    (λ o k. free o (owner-reserved next db ∙ k))),
          λ name o held.
              owner-reserved name after
              ∙ subst (λ rs. owner_of (find (names name) rs) ≡ some o) reservations
                  (reserve_username-owner env target.id next name db.reservations o
                    (sym (owner-reserved name db) ∙ held)),
          subst (IsRenamed target.id next db.accounts) accounts
              (update_account-IsRenamed env target.id next db),
        ),
      ),
    )
