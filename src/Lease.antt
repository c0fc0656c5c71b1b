-- ===== src/Lease.antt =====
-- The master lease: src/db/lease.rs, the write check of src/db/executor.rs, and the manager of
-- src/features/system/runtime.rs. Several nodes share one row of `server_leases`; each keeps in
-- memory whether it is the master and with which token. A node's identifier is its own. The text
-- of a lease's end is one that a node has written, so it is a time. Every reading of a clock is an
-- argument, so the nodes' clocks need not agree.
pub mod Fencing
pub mod Writing
use sshoosh.Base.{
  ℕ, ◌+◌, ◌≡◌, Bool, true, false, ◌&&◌, not, Option, none, some, ◌==◌, ltb, if◌then◌else◌, Result,
  ok, err, ensure, master_required, commit_failed,
}

pub data DbRole : Type 0 where
  master standby : DbRole

pub record LeaseRow : Type 0 where
  pub node_id : ℕ
  pub fencing_token : ℕ
  pub lease_until : ℕ
  pub heartbeat_at : ℕ

-- The two atomics of a `Database`.
pub record NodeStatus : Type 0 where
  pub is_master : Bool
  pub fencing_token : ℕ

pub record Cluster : Type 0 where
  pub lease : Option LeaseRow
  pub status : ℕ → NodeStatus

-- The clock at the start, the end of a lease taken now, and the clock when the old lease is read.
pub record Clocks : Type 0 where
  pub now : ℕ
  pub lease_until : ℕ
  pub checked_at : ℕ

unfoldable pub role : NodeStatus → DbRole
role status = if status.is_master then master else standby

unfoldable pub set_master_status : Bool → ℕ → ℕ → Cluster → Cluster
set_master_status is_master token node c = record c {
  status = λ n.
      if n == node then record { is_master = is_master; fencing_token = token } else c.status n;
}

-- `INSERT … ON CONFLICT(name) DO NOTHING`, and the row that is there then.
unfoldable pub insert_lease : Clocks → ℕ → Option LeaseRow → LeaseRow
insert_lease clocks node (some row) = row
insert_lease clocks node none = record {
  node_id = node;
  fencing_token = 1;
  lease_until = clocks.lease_until;
  heartbeat_at = clocks.now;
}

-- What the rest of the transaction makes of the row, and the status that it sets.
pub record Attempt : Type 0 where
  pub acquired : Bool
  pub row : LeaseRow
  pub status : NodeStatus

unfoldable pub attempt : Clocks → ℕ → LeaseRow → NodeStatus → Attempt
attempt clocks node row status =
    if row.node_id == node
    then record {
      acquired = true;
      row = record row { lease_until = clocks.lease_until; heartbeat_at = clocks.now };
      status = record { is_master = true; fencing_token = row.fencing_token };
    }
    else if ltb row.lease_until clocks.checked_at
    then record {
      acquired = true;
      row = record {
        node_id = node;
        fencing_token = row.fencing_token + 1;
        lease_until = clocks.lease_until;
        heartbeat_at = clocks.now;
      };
      status = record { is_master = true; fencing_token = row.fencing_token + 1 };
    }
    else record {
      acquired = false;
      row = row;
      status = record { is_master = false; fencing_token = row.fencing_token };
    }

-- The status is set before the commit; a commit that fails leaves the old row. The two `UPDATE`s
-- name the values just read in the same transaction, so each changes the row.
unfoldable pub try_acquire_or_renew_master : Clocks → Bool → ℕ → Cluster → Result Bool × Cluster
unfolding attempt insert_lease set_master_status
try_acquire_or_renew_master clocks commits node c =
    let a = attempt clocks node (insert_lease clocks node c.lease) (c.status node) in
    let told = set_master_status a.status.is_master a.status.fencing_token node c in
    if commits
    then (ok a.acquired, record told { lease = some a.row })
    else (err commit_failed, told)

-- A whole round of `start_master_lease_manager`, as the node itself sees it; what other nodes do
-- between its parts is left to `Step`.
unfoldable pub lease_tick : Clocks → Bool → ℕ → Cluster → Cluster
unfolding try_acquire_or_renew_master set_master_status
lease_tick clocks commits node c =
    let (outcome, next) = try_acquire_or_renew_master clocks commits node c in
    elim outcome [ ok acquired ↦ next | err error ↦ set_master_status false 0 node next ]

-- What the check reads of a `Query`.
pub record Query : Type 0 where
  pub bypass_master_check : Bool
  pub is_write : Bool

unfoldable pub standby_writes : DbRole → Bool
standby_writes master = true
standby_writes standby = false

unfoldable pub require_master_for_write : DbRole → Bool → Query → Result (Unit {0})
unfolding standby_writes
require_master_for_write role allow_standby_writes query =
    if query.bypass_master_check
    then ok tt
    else ensure (not (not allow_standby_writes && not (standby_writes role) && query.is_write))
        master_required

-- An attempt that has set the node's status and awaits the end of its commit: what it has read.
pub record Asked : Type 0 where
  pub clocks : Clocks
  pub read : Option LeaseRow
  pub before : NodeStatus

-- The cluster, with the attempts under way.
pub record Nodes : Type 0 where
  pub cluster : Cluster
  pub asked : ℕ → Option Asked

unfoldable pub set_asked : Option Asked → ℕ → Nodes → Nodes
set_asked value node s = record s { asked = λ n. if n == node then value else s.asked n }

unfoldable pub outcome : ℕ → Asked → Attempt
unfolding attempt insert_lease
outcome node a = attempt a.clocks node (insert_lease a.clocks node a.read) a.before

-- `try_acquire_or_renew_master` up to its commit: the status is set already.
unfoldable pub ask : Clocks → ℕ → Nodes → Nodes
unfolding set_asked outcome set_master_status
ask clocks node s =
    let a : Asked = record {
      clocks = clocks;
      read = s.cluster.lease;
      before = s.cluster.status node;
    } in
    let told = (outcome node a).status in
    set_asked (some a) node
      (record s { cluster = set_master_status told.is_master told.fencing_token node s.cluster })

-- The commit is done in the database.
unfoldable pub write_lease : ℕ → Asked → Nodes → Nodes
unfolding outcome
write_lease node a s = record s { cluster = record s.cluster { lease = some (outcome node a).row } }

-- The lease manager resets the status on an error, and `ServerRuntime::start` sets it so at first.
unfoldable pub give_up : ℕ → Nodes → Nodes
unfolding set_asked set_master_status
give_up node s =
    set_asked none node (record s { cluster = set_master_status false 0 node s.cluster })

-- `ServerRuntime::start`, up to the commit of its attempt.
unfoldable pub start : Clocks → ℕ → Nodes → Nodes
unfolding give_up ask
start clocks node s = ask clocks node (give_up node s)

-- What the nodes and the database do, in any order. The database's transactions are serialisable:
-- one that has read the lease is committed only while the row is the one it has read. A commit may
-- be done and its success reported, be done and an error reported, or fail; a node may give up at
-- any time, by an error or because its process ends.
pub data Step (s : Nodes) : Nodes → Type 0 where
  asking : (clocks : Clocks) (node : ℕ) → s.asked node ≡ none → Step s (ask clocks node s)
  committed :
      (node : ℕ) (a : Asked)
      → s.asked node ≡ some a
      → s.cluster.lease ≡ a.read
      → Step s (set_asked none node (write_lease node a s))
  unreported :
      (node : ℕ) (a : Asked)
      → s.asked node ≡ some a
      → s.cluster.lease ≡ a.read
      → Step s (give_up node (write_lease node a s))
  given_up : (node : ℕ) → Step s (give_up node s)
  started : (clocks : Clocks) (node : ℕ) → Step s (start clocks node s)

pub data Steps (s : Nodes) : Nodes → Type 0 where
  done : Steps s s
  after : {d e : Nodes} → Steps s d → Step d e → Steps s e

abbrev pub no_lease : Cluster
no_lease = record { lease = none; status = λ n. record { is_master = false; fencing_token = 0 } }

abbrev pub at_rest : Nodes
at_rest = record { cluster = no_lease; asked = λ n. none }
