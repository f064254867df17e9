-- ===== src/Clint64.antt =====
-- The CLINT driver of a 64-bit host, host/drivers/clint64/clint64.c: a time is one number of 64
-- bits. C leaves the order of the two accesses of a reading open; here the high word is read first,
-- as it is written. The counters, samples and the core are those of the 32-bit driver.
pub mod Torn
pub mod Spin
pub mod Freq
pub mod Equal
mod Tests
use chimera_sdk.Base.{
  ℕ, zero, suc, ◌+◌, ◌*◌, ◌/◌, ◌%◌, ◌^◌, Bool, true, false, Option, none, some, bit_or, u32, u64,
  sub64, ltb, leb, ◌==◌, if◌then◌else◌, ◌<<<◌, ◌>>>◌,
}
use chimera_sdk.Mmio.{write32}
use chimera_sdk.Clint.{Counters, Timed, ◌>>=◌, mtime_low, mtime_high}
use chimera_sdk.Clint.Sleep.{Core, mtimecmp_low0, mtimecmp_high0, set_mtie, set_mie, wfi}

-- `clint_get_mtime` at access `n`, with the number of accesses made.
pub get_mtime64 : Counters → ℕ → ℕ × ℕ
get_mtime64 c n = (bit_or (u64 (mtime_high c n <<< 32)) (mtime_low c (n + 1)), n + 2)

-- `clint_mtime_less_than`
abbrev pub less_than64 : ℕ → ℕ → Bool
less_than64 a b = ltb a b

-- `clint_spin_until`; `none` if the rounds run out.
pub spin_until64 : Counters → ℕ → ℕ → ℕ → Timed (Unit {0})
spin_until64 c zero target n = none
spin_until64 c (suc fuel) target n =
    let r = get_mtime64 c n in
    elim (ltb r.0 target) [ true ↦ spin_until64 c fuel target r.1 | false ↦ some (tt, r.1) ]

-- `clint_spin_ticks`: the sum is one of `uint64_t`.
pub spin_ticks64 : Counters → ℕ → ℕ → ℕ → Timed (Unit {0})
spin_ticks64 c fuel ticks n = let r = get_mtime64 c n in spin_until64 c fuel (u64 (r.0 + ticks)) r.1

-- A reading of `mcycle`, 32 bits wide, with the time just behind it.
pub record Sample64 : Type 0 where
  pub cycle : ℕ
  pub time : ℕ

pub sample64 : Counters → ℕ → Sample64 × ℕ
sample64 c n =
    let r = get_mtime64 c (n + 1) in (record { cycle = u32 (c.mcycle n); time = r.0 }, r.1)

-- The two loops of `clint_get_core_freq`.
pub await_tick64 : Counters → ℕ → ℕ → ℕ → Timed Sample64
await_tick64 c zero end n = none
await_tick64 c (suc fuel) end n =
    let r = sample64 c n in
    elim (r.0.time == end) [ true ↦ await_tick64 c fuel end r.1 | false ↦ some r ]

pub await_target64 : Counters → ℕ → ℕ → ℕ → Timed Sample64
await_target64 c zero target n = none
await_target64 c (suc fuel) target n =
    let r = sample64 c n in
    elim (ltb r.0.time target) [ true ↦ await_target64 c fuel target r.1 | false ↦ some r ]

-- The quotient at the end, in `uint64_t`; `none` where the times are the same.
pub quotient64 : ℕ → Sample64 → Sample64 → Option ℕ
quotient64 ref_freq start end =
    let duration = u64 (sub64 end.cycle start.cycle * ref_freq) in
    let ticks = sub64 end.time start.time in
    if ticks == 0 then none else some (u32 (duration / ticks))

-- `clint_get_core_freq`. The inner `none` is a division by zero.
pub get_core_freq64 : Counters → ℕ → ℕ → ℕ → ℕ → Timed (Option ℕ)
get_core_freq64 c fuel ref_freq ref_time_inv n =
    if ref_time_inv == 0
    then some (none, n)
    else let r = get_mtime64 c n in
      await_tick64 c fuel r.0 r.1 >>= λ s.
      await_target64 c fuel (u64 (s.0.time + ref_freq / ref_time_inv)) s.1 >>= λ e.
      some (quotient64 ref_freq s.0 e.0, e.1)

-- `clint_set_mtimecmpx`: the high word, then the low word.
unfoldable pub set_mtimecmpx64 : ℕ → ℕ → Core → Core
set_mtimecmpx64 timer_idx v core =
    let vlo = u32 v in
    let vhi = u32 (v >>> 32) in
    let offs = u32 (timer_idx <<< 3) in
    record core {
      clint = write32 (mtimecmp_low0 + offs) vlo (write32 (mtimecmp_high0 + offs) vhi core.clint);
    }

-- `clint_sleep_until`; `fence` orders the writes, which are in order here.
pub sleep_until64 : Counters → ℕ → ℕ → Core → ℕ → Core × ℕ
sleep_until64 c timer_idx target core n =
    let r = get_mtime64 c n in
    if leb target r.0
    then (core, r.1)
    else (wfi (set_mie true (set_mtie true (set_mtimecmpx64 timer_idx target core))), r.1)

-- `clint_sleep_ticks`: the sum is one of `uint64_t`.
pub sleep_ticks64 : Counters → ℕ → ℕ → Core → ℕ → Core × ℕ
sleep_ticks64 c timer_idx ticks core n =
    let r = get_mtime64 c n in sleep_until64 c timer_idx (u64 (r.0 + ticks)) core r.1
