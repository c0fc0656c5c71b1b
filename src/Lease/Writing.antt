-- ===== src/Lease/Writing.antt =====
-- What one round of the lease manager means for the row and for who may write.
use sshoosh.Base.{
  ℕ, ◌+◌, ◌≡◌, ◌≢◌, ◌≤◌, refl, Bool, true, false, ◌||◌, Option, none, some, ◌==◌, ltb, arith,
}
use sshoosh.Lease.{LeaseRow, Cluster, Clocks, attempt, lease_tick}

-- The lease is free for the node: nobody has one, the node has it, or it has run out.
pub is_free : Clocks → ℕ → Option LeaseRow → Bool
is_free clocks node none = true
is_free clocks node (some row) = row.node_id == node || ltb row.lease_until clocks.checked_at

-- A round never lowers the row's token, and gives the row to another node only once the lease has
-- run out, with the next token.
pub lease_tick-holder :
    (clocks : Clocks) (commits : Bool) (node : ℕ) (c : Cluster) (row : LeaseRow)
    → c.lease ≡ some row
    → (next : LeaseRow) × ((lease_tick clocks commits node c).lease ≡ some next)
      × (row.fencing_token ≤ next.fencing_token)
      × (next.node_id ≢ row.node_id
          → (ltb row.lease_until clocks.checked_at ≡ true)
            × (next.fencing_token ≡ row.fencing_token + 1)
            × (next.node_id ≡ node))
unfolding lease_tick attempt
lease_tick-holder clocks false node c row h = (row, h, omega arith, λ e. absurd (e refl))
lease_tick-holder clocks true node c row h = (
  (attempt clocks node row (c.status node)).row,
  rw h refl,
  ground arith,
  λ e. (ground arith, ground arith, ground arith),
)
