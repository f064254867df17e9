-- ===== src/Clint64/Tests.antt =====
-- The 64-bit driver on a timer that carries between the two accesses of a reading, and on one that
-- does not.
use Prim.Native.Nat.{min}
use chimera_sdk.Base.{ℕ, ◌+◌, ◌-◌, ◌*◌, ◌^◌, ◌≤◌, ◌≡◌, ◌≢◌, ◌⊎◌, refl, arith, some, false}
use chimera_sdk.Clint.{Mtime, value, Counters, mtime_high}
use chimera_sdk.Clint.Read.{IsClock}
use chimera_sdk.Clint.Spin.{IsSlow}
use chimera_sdk.Clint.Sleep.{Core, sleep_until}
use chimera_sdk.Clint64.{
  get_mtime64, spin_ticks64, sleep_until64, get_core_freq64, await_tick64, await_target64, sample64,
  quotient64,
}
use chimera_sdk.Clint64.Spin.{spin_ticks64-ends}
use chimera_sdk.Clint64.Equal.{sleep_until64-sleep_until}

abbrev carrying : Counters
carrying = record { mtime = λ i. 2 ^ 32 - 1 + min i 100; mcycle = λ i. 10 * i }

carrying-IsClock : IsClock carrying
carrying-IsClock = record { mono = λ i j h. omega arith; bound = λ i. omega arith }

carrying-IsSlow : IsSlow carrying
carrying-IsSlow = λ i. omega arith

-- A wait of 50 ticks that ends after four accesses.
spin_ticks64-ends_example :
    ((mtime_high carrying 0 ≡ mtime_high carrying 1)
      × ((n' : ℕ) × (spin_ticks64 carrying 52 50 0 ≡ some (tt, n'))
          × (carrying.mtime 0 + 50 ≤ carrying.mtime n')))
    ⊎ ((mtime_high carrying 0 ≢ mtime_high carrying 1)
        × (spin_ticks64 carrying 52 50 0 ≡ some (tt, 4)))
spin_ticks64-ends_example =
    spin_ticks64-ends 50 50 0 carrying-IsClock carrying-IsSlow (omega arith) (omega arith)

abbrev core : Core
core = record { clint = λ a. 0; mtie = false; mie = false; sleeps = 0 }

abbrev target : Mtime
target = record { low = 10; high = 1 }

-- Both drivers arm the timer and sleep.
sleep_until64-sleep_until_example :
    sleep_until carrying 2 0 target core 1
    ≡ some ((sleep_until64 carrying 0 (value target) core 1).0, 4)
sleep_until64-sleep_until_example =
    sleep_until64-sleep_until 1 0 target core 1 carrying-IsClock
      (record { low_lt = omega arith; high_lt = omega arith }) refl (omega arith)

run : get_core_freq64 carrying 9 10 1 1 ≡ some (some 100, 18)
unfolding get_core_freq64 await_tick64 await_target64 sample64 quotient64 get_mtime64
run = refl
