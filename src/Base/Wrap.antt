-- ===== src/Base/Wrap.antt =====
-- Counting round the end of an array.
use Prim.Native.Nat.{ℕ, ◌+◌, ◌%◌, ◌<◌}
use mathlib.Core.Path.{◌≡◌}
use native.Mathlib.Omega.{arith}
use yamemcached.Base.Tests.{◌==◌, if◌then◌else◌}

pub mod-next : (m c : ℕ) → c < m → (c + 1) % m ≡ (if c + 1 == m then 0 else c + 1)
mod-next m c h = grind arith
