-- ===== src/Sample/Lease.antt =====
-- Two nodes and one lease: the second takes it over once it has run out.
use sshoosh.Base.{ℕ, ◌+◌, ◌≡◌, ◌≢◌, ◌≤◌, refl, true, false, none, some, is_ok, ltb}
use sshoosh.Lease.{
  LeaseRow, Cluster, Clocks, role, lease_tick, require_master_for_write, no_lease, Asked, Nodes,
  at_rest, ask, set_asked, write_lease,
}
use sshoosh.Lease.Writing.{lease_tick-holder}

abbrev at : ℕ → Clocks
at now = record { now = now; lease_until = now + 30; checked_at = now }

first : Cluster
first = lease_tick (at 10) true 1 no_lease

second : Cluster
second = lease_tick (at 50) true 2 first

-- The same as parts of rounds: the node 1 asks and is committed, then the node 2.
asked_1 : Asked
asked_1 = record {
  clocks = at 10;
  read = none;
  before = record { is_master = false; fencing_token = 0 };
}

asked_2 : Asked
asked_2 = record {
  clocks = at 50;
  read = some (record { node_id = 1; fencing_token = 1; lease_until = 40; heartbeat_at = 10 });
  before = record { is_master = false; fencing_token = 0 };
}

nodes_1 : Nodes
nodes_1 = set_asked none 1 (write_lease 1 asked_1 (ask (at 10) 1 at_rest))

nodes_2 : Nodes
nodes_2 = set_asked none 2 (write_lease 2 asked_2 (ask (at 50) 2 nodes_1))

abbrev node : ℕ
node = 2

-- The node 1 may still write: it learns of its loss in its next round.
old_master_writes :
    is_ok (
      require_master_for_write
        (role (second.status 1))
        false
        (record { bypass_master_check = false; is_write = true }))
    ≡ true
unfolding second first lease_tick require_master_for_write role
old_master_writes = refl

holder_example :
    (next : LeaseRow) × (second.lease ≡ some next)
    × (1 ≤ next.fencing_token)
    × (next.node_id ≢ 1 → (ltb 40 50 ≡ true) × (next.fencing_token ≡ 1 + 1) × (next.node_id ≡ 2))
unfolding second first lease_tick
holder_example =
    lease_tick-holder (at 50) true 2 first
      (record { node_id = 1; fencing_token = 1; lease_until = 40; heartbeat_at = 10 }) refl
