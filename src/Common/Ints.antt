-- ===== src/Common/Ints.antt =====
-- Integers over the native numbers, under the library's names.
use Prim.Native.Nat.{ℕ, suc, ◌+◌, ◌-◌, ◌≤◌}
use mathlib.Core.Path.{◌≡◌, refl}
use native.Mathlib.Omega.{arith}
use pirx.Common.Tests.{leb, if◌then◌else◌}

pub data ℤ : Type 0 where
  pos : ℕ → ℤ
  negsuc : ℕ → ℤ

-- `m - n` as an integer.
abbrev pub diff : ℕ → ℕ → ℤ
diff m n = if leb n m then ℤ.pos (m - n) else ℤ.negsuc (n - suc m)

infixl 65 ◌+ℤ◌
abbrev pub ◌+ℤ◌ : ℤ → ℤ → ℤ
ℤ.pos a +ℤ ℤ.pos b = ℤ.pos (a + b)
ℤ.pos a +ℤ ℤ.negsuc b = diff a (suc b)
ℤ.negsuc a +ℤ ℤ.pos b = diff b (suc a)
ℤ.negsuc a +ℤ ℤ.negsuc b = ℤ.negsuc (suc (a + b))

pub diff-+ℤ : (a b c d : ℕ) → diff a b +ℤ diff c d ≡ diff (a + c) (b + d)
diff-+ℤ a b c d = ground arith

pub pos_diff : (a b : ℕ) → b ≤ a → diff a b ≡ ℤ.pos (a - b)
pos_diff a b h = ground arith

pub diff_same : {a b c d : ℕ} → a ≡ c → b ≡ d → diff a b ≡ diff c d
diff_same p q = rw (p, q) refl
