-- ===== src/Base/Int.antt =====
-- Signed integers over the native numbers; a timestamp is only stored and compared.
use Prim.Native.Nat.{ℕ}
use mathlib.Core.Bool.{Bool, true, false}
use substra_tee_node_pre.Base.Tests.{leb}

-- `negsuc n` is -(n + 1).
pub data ℤ : Type 0 where
  pos : ℕ → ℤ
  negsuc : ℕ → ℤ

-- `a >= b`
abbrev pub geb : ℤ → ℤ → Bool
geb (pos m) (pos n) = leb n m
geb (pos m) (negsuc n) = true
geb (negsuc m) (pos n) = false
geb (negsuc m) (negsuc n) = leb m n
