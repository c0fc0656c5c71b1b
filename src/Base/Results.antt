-- ===== src/Base/Results.antt =====
-- Handlers that may fail. An error drops the transaction, so no state comes back beside it.
use mathlib.Core.Path.{◌≡◌, refl}
use mathlib.Core.Bool.{Bool, true, false, not}
use sshoosh.Base.Tests.{if◌then◌else◌}
use mathlib.Core.Option.{Option, none, some}

-- The messages of `bail!`, `ensure!` and of the database driver that the handlers report.
pub data Error : Type 0 where
  no_row constraint not_activated only_admins only_owners_manage_owners last_active_owner : Error
  only_owners_grant username_used user_not_found channel_not_found thread_not_found : Error
  no_access not_manager cannot_modify_thread comment_not_found comment_body_required : Error
  only_own_comments not_participant message_not_found message_body_required only_own_dms : Error
  name_taken name_required title_required members_of_private_only creator_stays general_stays :
      Error
  body_required private_needs_invite bad_length key_not_found invite_not_found token_invalid : Error
  account_disabled cannot_dm_self label_required master_required commit_failed : Error

-- What a handler gives back: the new state, or why there is none.
pub data Result {ℓ} (State : Type ℓ) : Type ℓ where
  err : Error → Result State
  ok : State → Result State

module _ {ℓ κ} {A : Type ℓ} {B : Type κ} where
  infixl 5 ◌>>=◌ ◌>>◌
  -- `?`: the error leaves the handler at once.
  abbrev pub ◌>>=◌ : Result A → (A → Result B) → Result B
  err error >>= next = err error
  ok value >>= next = next value

  abbrev pub ◌>>◌ : Result A → Result B → Result B
  first >> second = first >>= λ value. second

  -- The parts of a chain that has succeeded.
  pub >>=-ok :
      (first : Result A) (next : A → Result B) {result : B}
      → (first >>= next) ≡ ok result
      → (value : A) × (first ≡ ok value) × (next value ≡ ok result)
  >>=-ok (err error) next h = cc
  >>=-ok (ok value) next h = (value, refl, h)

-- `anyhow::ensure!(test, error)`
abbrev pub ensure : Bool → Error → Result (Unit {0})
ensure test error = if test then ok tt else err error

-- `let Some(x) = o else { bail!(error) }`
abbrev pub some_or {ℓ} : {A : Type ℓ} → Option A → Error → Result A
some_or (some a) error = ok a
some_or none error = err error

abbrev pub is_ok {ℓ} : {A : Type ℓ} → Result A → Bool
is_ok (ok _) = true
is_ok (err _) = false

pub ensure-eq-ok : (t : Bool) (e : Error) {u : Unit {0}} → ensure t e ≡ ok u → t ≡ true
ensure-eq-ok true e h = refl
ensure-eq-ok false e h = cc

pub refuted : (b : Bool) → not b ≡ true → b ≡ false
refuted false h = refl
refuted true h = cc

pub some_or-eq-ok {ℓ} :
    {A : Type ℓ} (o : Option A) (e : Error) {a : A} → some_or o e ≡ ok a → o ≡ some a
some_or-eq-ok none e h = cc
some_or-eq-ok (some a) e h = cc

pub ok_inj {ℓ} : {A : Type ℓ} (a b : A) → ok a ≡ ok b → a ≡ b
ok_inj a b h = cc
