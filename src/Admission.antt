-- ===== src/Admission.antt =====
-- The admission of connections: `AdmissionLimiter` of src/ssh/server.rs. The semaphore is its free
-- permits; the map from addresses to counts is a table with one row per address. The permits that
-- live are listed by their addresses; dropping one runs `release`.
pub mod Permits
use sshoosh.Base.{
  ℕ, ◌+◌, ◌-◌, Bool, true, false, Option, none, some, List, [], ◌==◌, leb, if◌then◌else◌,
}
use sshoosh.Base.Tables.{find, update_where, delete_where, upsert}

pub record IpCount : Type 0 where
  pub ip : ℕ
  pub count : ℕ

pub record AdmissionLimiter : Type 0 where
  pub global : ℕ
  pub per_ip : List IpCount
  pub max_per_ip : ℕ

unfoldable pub is_ip : ℕ → IpCount → Bool
is_ip ip row = row.ip == ip

unfoldable pub count_of_row : Option IpCount → ℕ
count_of_row none = 0
count_of_row (some row) = row.count

unfoldable pub count_of : ℕ → List IpCount → ℕ
unfolding count_of_row
count_of ip rows = count_of_row (find (is_ip ip) rows)

-- `per_ip.entry(ip).or_insert(0)`
unfoldable pub enter : ℕ → List IpCount → List IpCount
unfolding is_ip
enter ip rows = upsert (is_ip ip) (record { ip = ip; count = 0 }) (λ row. row) rows

unfoldable pub try_acquire : ℕ → AdmissionLimiter → Bool × AdmissionLimiter
try_acquire ip l =
    if l.global == 0
    then (false, l)
    else if leb l.max_per_ip (count_of ip (enter ip l.per_ip))
    then (false, record l { per_ip = enter ip l.per_ip })
    else (
      true,
      record l {
        global = l.global - 1;
        per_ip =
            update_where (is_ip ip) (λ row. record row { count = row.count + 1 })
              (enter ip l.per_ip);
      },
    )

unfoldable pub release_row : ℕ → List IpCount → Option IpCount → List IpCount
release_row ip rows none = rows
release_row ip rows (some row) =
    if row.count - 1 == 0
    then delete_where (is_ip ip) rows
    else update_where (is_ip ip) (λ r. record r { count = r.count - 1 }) rows

unfoldable pub release_ip : ℕ → List IpCount → List IpCount
unfolding release_row
release_ip ip rows = release_row ip rows (find (is_ip ip) rows)

-- Dropping an `AdmissionPermit`: `release_ip`, then the permit of the semaphore goes back.
unfoldable pub release : ℕ → AdmissionLimiter → AdmissionLimiter
release ip l = record l { global = l.global + 1; per_ip = release_ip ip l.per_ip }

-- `AdmissionLimiter::new`
unfoldable pub new_limiter : ℕ → ℕ → AdmissionLimiter
new_limiter max_connections max_per_ip = record {
  global = max_connections;
  per_ip = [];
  max_per_ip = max_per_ip;
}
