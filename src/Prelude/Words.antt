-- ===== src/Prelude/Words.antt =====
-- Unsigned machine words: the bound of a `u64`, and Rust's saturating and checked addition.
use Prim.Native.Nat.{ℕ, ◌+◌, ◌-◌, ◌%◌, min}
use mathlib.Core.Option.{Option, none, some}
use dashboard_quip_network.Prelude.Tests.{leb, if◌then◌else◌}

abbrev pub u64_max : ℕ
u64_max = 18446744073709551615

-- `saturating_add` of u64
abbrev pub saturating_add : ℕ → ℕ → ℕ
saturating_add a b = min (a + b) u64_max

-- `checked_add` of u64
abbrev pub checked_add : ℕ → ℕ → Option ℕ
checked_add a b = if leb (a + b) u64_max then some (a + b) else none

-- `fetch_sub(k)` of a 64-bit atomic: the stored value wraps around.
abbrev pub wrapping_sub : ℕ → ℕ → ℕ
wrapping_sub a k = (a + 18446744073709551616 - k) % 18446744073709551616

-- `fetch_add(k)` of a 64-bit atomic
abbrev pub wrapping_add : ℕ → ℕ → ℕ
wrapping_add a k = (a + k) % 18446744073709551616
