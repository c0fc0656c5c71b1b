-- ===== src/Abuse.antt =====
-- The penalties for failed logins: `AuthAbuseLimiter` of src/ssh/server.rs. An instant is a number
-- of the clock's ticks; a map is a table with one row per key. The permits of connections that are
-- not logged in yet are left out.
pub mod Burst
use sshoosh.Base.{
  ℕ, ◌+◌, ◌-◌, Bool, true, false, ◌&&◌, ◌||◌, not, Option, none, some, List, [], ◌∷◌, zero, suc,
  ◌==◌, leb, ltb, if◌then◌else◌,
}
use sshoosh.Base.Tables.{find, update_where, delete_where, upsert, select_where}
use sshoosh.Text.{Text, text_eq, is_control}

pub record FailureKey : Type 0 where
  pub ip : ℕ
  pub username : Text
  pub key_fp : Text

pub record FailureBucket : Type 0 where
  pub key : FailureKey
  pub window_started : ℕ
  pub count : ℕ

pub record Penalty : Type 0 where
  pub ip : ℕ
  pub until : ℕ

pub record AuthAbuseLimiter : Type 0 where
  pub failure_window : ℕ
  pub failures_before_penalty : ℕ
  pub penalty : ℕ
  pub failures : List FailureBucket
  pub penalties : List Penalty

unfoldable pub take : ℕ → Text → Text
take zero t = []
take (suc n) [] = []
take (suc n) (c ∷ t) = c ∷ take n t

unfoldable pub safe_log_field : Text → Text
unfolding take
safe_log_field value = take 128 (select_where (λ c. not (is_control c)) value)

-- `FailureKey::ip`
abbrev pub ip_key : ℕ → FailureKey
ip_key ip = record { ip = ip; username = []; key_fp = [] }

unfoldable pub or_default : Option Text → Text
unfolding safe_log_field
or_default none = []
or_default (some key_fp) = safe_log_field key_fp

-- `FailureKey::composite`
unfoldable pub composite : ℕ → Text → Option Text → FailureKey
unfolding or_default safe_log_field
composite ip username key_fp = record {
  ip = ip;
  username = safe_log_field username;
  key_fp = or_default key_fp;
}

unfoldable pub has_key : FailureKey → FailureBucket → Bool
has_key key row =
    row.key.ip == key.ip
    && text_eq row.key.username key.username
    && text_eq row.key.key_fp key.key_fp

-- `usize::MAX`
abbrev pub usize_max : ℕ
usize_max = 18446744073709551615

-- `saturating_add(1)`
unfoldable pub saturating_succ : ℕ → ℕ
saturating_succ n = if ltb n usize_max then n + 1 else n

-- `failures.entry(key).or_insert(…)`
unfoldable pub open_bucket : ℕ → FailureKey → List FailureBucket → List FailureBucket
unfolding has_key
open_bucket now key rows =
    upsert (has_key key) (record { key = key; window_started = now; count = 0 }) (λ row. row) rows

-- A window that has passed starts anew, and the failure is counted.
unfoldable pub bump_bucket : ℕ → ℕ → FailureBucket → FailureBucket
unfolding saturating_succ
bump_bucket now window row =
    if ltb window (now - row.window_started)
    then record row { window_started = now; count = saturating_succ 0 }
    else record row { count = saturating_succ row.count }

unfoldable pub bump_key : ℕ → ℕ → FailureKey → List FailureBucket → List FailureBucket
unfolding has_key open_bucket bump_bucket
bump_key now window key rows =
    update_where (has_key key) (bump_bucket now window) (open_bucket now key rows)

unfoldable pub reached : ℕ → Option FailureBucket → Bool
reached limit none = false
reached limit (some row) = leb limit row.count

-- `penalties.insert(ip, now + penalty)`, the failures of the address being forgotten.
unfoldable pub penalize : ℕ → ℕ → List FailureBucket → AuthAbuseLimiter → AuthAbuseLimiter
penalize now ip rows l = record l {
  failures = delete_where (λ row. row.key.ip == ip) rows;
  penalties =
      upsert (λ p. p.ip == ip) (record { ip = ip; until = now + l.penalty })
        (λ p. record p { until = now + l.penalty }) l.penalties;
}

unfoldable pub record_failure :
    ℕ → Option ℕ → Text → Option Text → AuthAbuseLimiter → Bool × AuthAbuseLimiter
unfolding has_key composite bump_key reached penalize
record_failure now none username key_fp l = (false, l)
record_failure now (some ip) username key_fp l =
    let by_ip = bump_key now l.failure_window (ip_key ip) l.failures in
    let by_both = bump_key now l.failure_window (composite ip username key_fp) by_ip in
    let should_penalize =
      reached l.failures_before_penalty (find (has_key (ip_key ip)) by_ip)
      || reached l.failures_before_penalty
          (find (has_key (composite ip username key_fp)) by_both) in
    (
      should_penalize,
      if should_penalize then penalize now ip by_both l else record l { failures = by_both },
    )

-- `penalty_remaining`
unfoldable pub remaining : ℕ → ℕ → AuthAbuseLimiter → Option Penalty → Option ℕ × AuthAbuseLimiter
remaining now ip l none = (none, l)
remaining now ip l (some p) =
    if ltb now p.until
    then (some (p.until - now), l)
    else (none, record l { penalties = delete_where (λ q. q.ip == ip) l.penalties })

unfoldable pub penalty_remaining : ℕ → ℕ → AuthAbuseLimiter → Option ℕ × AuthAbuseLimiter
unfolding remaining
penalty_remaining now ip l = remaining now ip l (find (λ p. p.ip == ip) l.penalties)

unfoldable pub clear_source : Option ℕ → AuthAbuseLimiter → AuthAbuseLimiter
clear_source none l = l
clear_source (some ip) l = record l {
  penalties = delete_where (λ p. p.ip == ip) l.penalties;
  failures = delete_where (λ row. row.key.ip == ip) l.failures;
}
