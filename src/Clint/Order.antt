-- ===== src/Clint/Order.antt =====
-- `clint_mtime_less_than` and the deadline arithmetic, against the 64-bit numbers.
use chimera_sdk.Base.{ℕ, ◌+◌, ◌%◌, ◌^◌, ◌≤◌, ◌<◌, ◌≡◌, ◌↔◌, true, false, arith}
use chimera_sdk.Clint.{Mtime, value, IsMtime, less_than, deadline}

-- On times of two words, the comparison of the halves is the order of the 64-bit numbers.
pub less_than_iff :
    (a b : Mtime) → IsMtime a → IsMtime b → (less_than a b ≡ true) ↔ (value a < value b)
unfolding less_than
less_than_iff a b va vb = ground arith

-- The deadline of `clint_spin_ticks` and `clint_sleep_ticks` is the start plus the ticks in 64-bit
-- arithmetic, wrap included.
pub deadline-value :
    (start : Mtime) (ticks : ℕ)
    → IsMtime start
    → ticks < 2 ^ 32
    → (value (deadline start ticks) ≡ (value start + ticks) % 2 ^ 64)
      × IsMtime (deadline start ticks)
unfolding deadline
deadline-value start ticks v h = ground arith

pub not-less_than :
    (a b : Mtime) → IsMtime a → IsMtime b → less_than a b ≡ false → value b ≤ value a
unfolding less_than
not-less_than a b va vb h = ground arith
