-- ===== src/Lease/Fencing.antt =====
-- Two masters whose attempts are done never hold the same fencing token.
use sshoosh.Base.{ℕ, ◌≤◌, ◌≡◌, ◌≢◌, refl, ◌∙◌, true, Option, none, some, ltb, arith, if◌then◌else◌}
use sshoosh.Lease.{
  LeaseRow, NodeStatus, Clocks, Attempt, attempt, insert_lease, Asked, Nodes, outcome,
}

-- A master's token is not above the row's, and is the row's for its holder only.
pub record IsHolder (lease : Option LeaseRow) (node token : ℕ) : Type 0 where
  pub row : LeaseRow
  pub held : lease ≡ some row
  pub bound : token ≤ row.fencing_token
  pub holder : token ≡ row.fencing_token → row.node_id ≡ node

-- The token that a node claims: that of a master with no attempt under way.
claim_of : NodeStatus → Option Asked → Option ℕ
claim_of status none = if status.is_master then some status.fencing_token else none
claim_of status (some a) = none

abbrev claim : Nodes → ℕ → Option ℕ
claim s n = claim_of (s.cluster.status n) (s.asked n)

pub record IsFenced (lease : Option LeaseRow) (claims : ℕ → Option ℕ) : Type 0 where
  pub masters : (n token : ℕ) → claims n ≡ some token → IsHolder lease n token
  pub apart : (m n token : ℕ) → claims m ≡ some token → claims n ≡ some token → m ≡ n

module _ (clocks : Clocks) (node : ℕ) (row : LeaseRow) (status : NodeStatus) where
  abbrev next : Attempt
  next = attempt clocks node row status

  pub attempt-le : row.fencing_token ≤ next.row.fencing_token
  unfolding attempt
  attempt-le = ground arith

  pub attempt_same : next.row.fencing_token ≡ row.fencing_token → next.row.node_id ≡ row.node_id
  unfolding attempt
  attempt_same h = ground arith

  pub attempt_master :
      next.status.is_master ≡ true
      → (next.status.fencing_token ≡ next.row.fencing_token) × (next.row.node_id ≡ node)
  unfolding attempt
  attempt_master h = ground arith

  -- The holder changes only when the lease has run out.
  pub attempt_expired :
      next.row.node_id ≢ row.node_id → ltb row.lease_until clocks.checked_at ≡ true
  unfolding attempt
  attempt_expired h = ground arith

new-IsHolder :
    (clocks : Clocks) (node n : ℕ) (row : LeaseRow) (status : NodeStatus)
    → (attempt clocks node row status).status.is_master ≡ true
    → node ≡ n
    → IsHolder
        (some (attempt clocks node row status).row)
        n
        (attempt clocks node row status).status.fencing_token
new-IsHolder clocks node n row status h e =
    let (token, holder) = attempt_master clocks node row status h in
    record {
      row = (attempt clocks node row status).row;
      held = refl;
      bound = omega (arith, token);
      holder = λ t. holder ∙ e;
    }

-- A lease that is written keeps the fencing of the claims there were, and the node's new claim is
-- apart from them.
module _ (node : ℕ) (a : Asked) (old : ℕ → Option ℕ) (fenced : IsFenced a.read old) where
  abbrev won : Attempt
  won = attempt a.clocks node (insert_lease a.clocks node a.read) a.before

-- The claims are fenced, and a node with an attempt under way has the status of its outcome.
record IsSafe (s : Nodes) : Type 0 where
  pub fenced : IsFenced s.cluster.lease (claim s)
  pub told : (n : ℕ) (a : Asked) → s.asked n ≡ some a → s.cluster.status n ≡ (outcome n a).status
