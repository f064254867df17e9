-- ===== src/Clint/Tests.antt =====
-- The CLINT driver on a timer that carries into its high word: runs, and the theorems applied to
-- them.
use Prim.Native.Nat.{min}
use chimera_sdk.Base.{Option, ℕ, ◌+◌, ◌-◌, ◌*◌, ◌^◌, ◌<◌, ◌≤◌, ◌≡◌, refl, arith, true, false, some}
use chimera_sdk.Clint.{
  Mtime, IsMtime, Counters, get_mtime, less_than, deadline, spin_until, spin_ticks, Sample, sample,
  await_tick, await_target, freq_target, quotient, get_core_freq,
}
use chimera_sdk.Clint.Read.{IsClock, IsReading, get_mtime-IsReading, get_mtime-total}
use chimera_sdk.Clint.Spin.{IsSlow, spin_ticks-elapsed}
use chimera_sdk.Clint.Total.{IsAdvancing, get_core_freq-total}
use chimera_sdk.Clint.Sleep.{Core, set_mtimecmpx, set_mtie, set_mie, wfi, sleep_until, sleep_ticks}

-- The timer starts two ticks before the carry and stops after a hundred.
abbrev counters : Counters
counters = record { mtime = λ i. 2 ^ 32 - 2 + min i 100; mcycle = λ i. 10 * i }

clock : IsClock counters
clock = record { mono = λ i j h. omega arith; bound = λ i. omega arith }

abbrev at_tick : ℕ → Mtime
at_tick n = record { low = n; high = 1 }

at_tick-IsMtime : (n : ℕ) → n < 2 ^ 32 → IsMtime (at_tick n)
at_tick-IsMtime n h = record { low_lt = h; high_lt = omega arith }

reading : get_mtime counters 2 0 ≡ some (at_tick 2, 6)
unfolding get_mtime
reading = refl

get_mtime-IsReading_example : IsReading counters 0 (at_tick 2) 6
get_mtime-IsReading_example = get_mtime-IsReading 2 0 clock reading

get_mtime-total_example :
    (m : Mtime) × (n' : ℕ) × (get_mtime counters 2 0 ≡ some (m, n')) × (n' ≤ 6)
get_mtime-total_example = get_mtime-total 0 0 clock (omega arith)

spun : spin_until counters 2 8 (at_tick 5) 0 ≡ some (tt, 9)
unfolding spin_until get_mtime less_than
spun = refl

spun_ticks : spin_ticks counters 2 5 10 0 ≡ some (tt, 18)
unfolding spin_ticks spin_until get_mtime less_than deadline
spun_ticks = refl

spin_ticks-elapsed_example : counters.mtime 0 + 10 ≤ counters.mtime 18
spin_ticks-elapsed_example =
    spin_ticks-elapsed 2 5 10 0 clock (omega arith) (omega arith) spun_ticks

measured : get_core_freq counters 2 5 10 1 0 ≡ some (some 100, 22)
unfolding get_core_freq get_mtime await_tick await_target sample freq_target less_than quotient
measured = refl

-- A timer that gains one tick over each access until it stops at its end.
abbrev steady : Counters
steady = record { mtime = λ i. min i (2 ^ 64 - 1); mcycle = λ i. 10 * i }

steady-IsClock : IsClock steady
steady-IsClock = record { mono = λ i j h. omega arith; bound = λ i. omega arith }

steady-IsSlow : IsSlow steady
steady-IsSlow = λ i. omega arith

steady-IsAdvancing : IsAdvancing steady 10 10
steady-IsAdvancing = λ i h. omega arith

get_core_freq-total_example :
    (f : Option ℕ) × (n' : ℕ) × (get_core_freq steady 2 11 10 1 0 ≡ some (f, n'))
get_core_freq-total_example =
    get_core_freq-total 10 10 10 1 0 steady-IsClock steady-IsSlow steady-IsAdvancing (omega arith)
      (omega arith) (omega arith) (omega arith)

abbrev first_sample : Sample
first_sample = record { cycle = 60; time = at_tick 6 }

abbrev last_sample : Sample
last_sample = record { cycle = 180; time = at_tick 18 }

sampled : sample counters 2 6 ≡ some (first_sample, 10)
unfolding sample get_mtime
sampled = refl

abbrev core : Core
core = record { clint = λ a. 0; mtie = false; mie = false; sleeps = 0 }

abbrev asleep : ℕ → Core
asleep n = wfi (set_mie true (set_mtie true (set_mtimecmpx 0 (at_tick n) core)))

slept_until : sleep_until counters 2 0 (at_tick 5) core 0 ≡ some (asleep 5, 6)
unfolding sleep_until get_mtime less_than
slept_until = refl

slept_ticks : sleep_ticks counters 2 0 10 core 0 ≡ some (asleep 12, 9)
unfolding sleep_ticks sleep_until get_mtime less_than deadline
slept_ticks = refl
