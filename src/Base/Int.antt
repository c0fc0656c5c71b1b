-- ===== src/Base/Int.antt =====
-- The signed indices of the read marks: marking a thread with no comments unread gives -1.
use Prim.Native.Nat.{ℕ, zero, suc}
use mathlib.Core.Bool.{Bool, true}
use sshoosh.Base.Tests.{ltb}

-- `negsuc n` is -(n + 1).
pub data ℤ : Type 0 where
  pos : ℕ → ℤ
  negsuc : ℕ → ℤ

-- `i < n` for a row number `n`.
abbrev pub below : ℤ → ℕ → Bool
below (pos m) n = ltb m n
below (negsuc _) n = true

-- `n - 1`.
abbrev pub pred_ℤ : ℕ → ℤ
pred_ℤ zero = negsuc 0
pred_ℤ (suc n) = pos n
