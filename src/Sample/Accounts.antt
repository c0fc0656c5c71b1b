-- ===== src/Sample/Accounts.antt =====
-- Runs of the account handlers: the owner `b` and the members `c` and `d`.
use sshoosh.Base.{ℕ, ◌≡◌, refl, true, none, some, [], ◌∷◌, Result, ok, err, arith}
use sshoosh.Base.Tables.{count}
use sshoosh.Text.{Text, codes}
use sshoosh.Text.Name.{normalize_username}
use sshoosh.Db.{Db, admin}
use sshoosh.Guards.{Account, load_account_tx, username_reservation_owner_tx}
use sshoosh.Accounts.{is_account, set_user_disabled, set_user_role, rename_user, load_target}
use sshoosh.Accounts.Owners.{
  IsKeyed, has_owner, set_user_disabled-has_owner, set_user_role-has_owner,
}
use sshoosh.Accounts.Rights.{IsGranted, set_user_role-IsGranted}
use sshoosh.Accounts.Renaming.{rename_user_lem, IsRenamed}
use sshoosh.Sample.Run.{run}
use sshoosh.Sample.{sample_db, sample_env}

-- The username of the owner is reserved.
abbrev named_db : Db
named_db = record sample_db {
  people = record sample_db.people {
    reservations =
        record {
          normalized_username = codes "bob";
          username = codes "bob";
          account_id = 1;
          first_used_at = 1;
          last_used_at = none;
          current = true;
        }
        ∷ [];
  };
}

after_ok : Result Db → Db
after_ok (ok db) = db
after_ok (err e) = named_db

named_db-IsKeyed : IsKeyed named_db
unfolding count is_account
named_db-IsKeyed = record { account_ids = λ k. ground arith }

named_db-has_owner : has_owner named_db ≡ true
unfolding has_owner run
named_db-has_owner = refl

disabled : Db
unfolding after_ok
disabled = after_ok (set_user_disabled (sample_env 30) 1 (codes "@c") true named_db)

disabled_ok : set_user_disabled (sample_env 30) 1 (codes "@c") true named_db ≡ ok disabled
unfolding disabled run
disabled_ok = refl

disabled_example : has_owner disabled ≡ true
disabled_example =
    set_user_disabled-has_owner (sample_env 30) 1 (codes "@c") named_db disabled named_db-IsKeyed
      true named_db-has_owner disabled_ok

promoted : Db
unfolding after_ok
promoted = after_ok (set_user_role (sample_env 31) 1 (codes "c") admin named_db)

promoted_ok : set_user_role (sample_env 31) 1 (codes "c") admin named_db ≡ ok promoted
unfolding promoted run
promoted_ok = refl

promoted_example : has_owner promoted ≡ true
promoted_example =
    set_user_role-has_owner (sample_env 31) 1 (codes "c") named_db promoted named_db-IsKeyed admin
      named_db-has_owner promoted_ok

role_IsGranted : IsGranted (sample_env 31) 1 (codes "c") admin named_db promoted
role_IsGranted =
    set_user_role-IsGranted (sample_env 31) 1 (codes "c") admin named_db promoted promoted_ok

renamed : Db
unfolding after_ok
renamed = after_ok (rename_user (sample_env 32) 3 none (codes "Zed") named_db)

renamed_ok : rename_user (sample_env 32) 3 none (codes "Zed") named_db ≡ ok renamed
unfolding renamed run
renamed_ok = refl

renamed_example :
    (next : Text) × (normalize_username (sample_env 32).unicode_lower (codes "Zed") ≡ ok next)
    × ((actor : Account) × (load_account_tx 3 named_db ≡ ok actor)
        × ((target : Account) × (load_target (sample_env 32) actor none named_db ≡ ok target)
            × ((o : ℕ) → username_reservation_owner_tx next named_db ≡ some o → o ≡ target.id)
            × (username_reservation_owner_tx next renamed ≡ some target.id)
            × ((name : Text) (o : ℕ)
                → username_reservation_owner_tx name named_db ≡ some o
                → username_reservation_owner_tx name renamed ≡ some o)
            × IsRenamed target.id next named_db.accounts renamed.accounts))
renamed_example = rename_user_lem (sample_env 32) 3 none (codes "Zed") named_db renamed renamed_ok
