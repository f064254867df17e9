-- ===== src/Clint.antt =====
-- The 32-bit CLINT driver, host/drivers/clint32/clint32.c with host/runtime/inc/clint.h. The
-- hardware counters are functions of the number of bus accesses made so far; a function of the
-- driver takes that number and returns it with its result.
pub mod Order
pub mod Read
pub mod Spin
pub mod Freq
pub mod Measure
pub mod Total
pub mod Sleep
mod Tests
use chimera_sdk.Base.{
  ℕ, zero, suc, ◌+◌, ◌-◌, ◌*◌, ◌/◌, ◌%◌, ◌^◌, ◌≤◌, ◌<◌, Bool, true, false, not, ◌&&◌, ◌||◌, Option,
  none, some, List, [], ◌∷◌, u32, u64, sub64, ltb, ◌==◌, if◌then◌else◌,
}

-- `clint_mtime_t` of a 32-bit host
pub record Mtime : Type 0 where
  pub low : ℕ
  pub high : ℕ

-- The 64-bit number that the two words stand for.
abbrev pub value : Mtime → ℕ
value m = m.high * 2 ^ 32 + m.low

pub record IsMtime (m : Mtime) : Type 0 where
  pub low_lt : m.low < 2 ^ 32
  pub high_lt : m.high < 2 ^ 32

-- What the hardware shows at the n-th access: the timer, and the low word of `mcycle`.
pub record Counters : Type 0 where
  pub mtime : ℕ → ℕ
  pub mcycle : ℕ → ℕ

-- The registers `CLINT_MTIME_LOW` and `CLINT_MTIME_HIGH`.
abbrev pub mtime_low : Counters → ℕ → ℕ
mtime_low c n = c.mtime n % 2 ^ 32

abbrev pub mtime_high : Counters → ℕ → ℕ
mtime_high c n = c.mtime n / 2 ^ 32 % 2 ^ 32

-- A result with the number of accesses made; `none` if the rounds of a loop ran out.
abbrev pub Timed : Type 0 → Type 0
Timed A = Option (A × ℕ)

infixl 5 ◌>>=◌
abbrev pub ◌>>=◌ : {A B : Type 0} → Timed A → (A × ℕ → Timed B) → Timed B
none >>= f = none
some a >>= f = f a

-- `clint_get_mtime`: high, low and high again, until the high word did not change.
unfoldable pub get_mtime : Counters → ℕ → ℕ → Timed Mtime
get_mtime c zero n = none
get_mtime c (suc fuel) n = elim (mtime_high c n == mtime_high c (n + 2)) [
  | true ↦ some (record { low = mtime_low c (n + 1); high = mtime_high c n }, n + 3)
  | false ↦ get_mtime c fuel (n + 3)
]

-- `clint_mtime_less_than`
unfoldable pub less_than : Mtime → Mtime → Bool
less_than a b = ltb a.high b.high || (a.high == b.high && ltb a.low b.low)

-- The target of `clint_spin_ticks` and `clint_sleep_ticks`: the low words are added, and a wrap
-- carries into the high word.
unfoldable pub deadline : Mtime → ℕ → Mtime
deadline start ticks =
    let low = u32 (start.low + ticks) in
    if ltb low start.low
    then record { low = low; high = u32 (start.high + 1) }
    else record { low = low; high = start.high }

-- `clint_spin_until`. Each reading of the timer has `reads` rounds.
pub spin_until : Counters → ℕ → ℕ → Mtime → ℕ → Timed (Unit {0})
spin_until c reads zero target n = none
spin_until c reads (suc fuel) target n = get_mtime c reads n >>= λ r. elim (less_than r.0 target) [
  | true ↦ spin_until c reads fuel target r.1
  | false ↦ some (tt, r.1)
]

-- `clint_spin_ticks`
pub spin_ticks : Counters → ℕ → ℕ → ℕ → ℕ → Timed (Unit {0})
spin_ticks c reads fuel ticks n =
    get_mtime c reads n >>= λ r. spin_until c reads fuel (deadline r.0 ticks) r.1

-- A reading of `mcycle` with the time just behind it.
pub record Sample : Type 0 where
  pub cycle : ℕ
  pub time : Mtime

unfoldable pub sample : Counters → ℕ → ℕ → Timed Sample
sample c reads n =
    get_mtime c reads (n + 1) >>= λ r. some (record { cycle = u32 (c.mcycle n); time = r.0 }, r.1)

-- The first loop of `clint_get_core_freq`: until the time differs from `end`.
unfoldable pub await_tick : Counters → ℕ → ℕ → Mtime → ℕ → Timed Sample
await_tick c reads zero end n = none
await_tick c reads (suc fuel) end n = sample c reads n >>= λ r.
    elim (r.0.time.low == end.low && r.0.time.high == end.high) [
      | true ↦ await_tick c reads fuel end r.1
      | false ↦ some r
    ]

-- The second loop: until the time is not below `target`.
unfoldable pub await_target : Counters → ℕ → ℕ → Mtime → ℕ → Timed Sample
await_target c reads zero target n = none
await_target c reads (suc fuel) target n = sample c reads n >>= λ r.
    elim (less_than r.0.time target) [
      | true ↦ await_target c reads fuel target r.1
      | false ↦ some r
    ]

-- The target of that loop: the low words are added with no carry.
unfoldable pub freq_target : Mtime → ℕ → Mtime
freq_target start num_ticks = record { low = u32 (start.low + num_ticks); high = start.high }

-- The quotient at the end, in `uint64_t`; `none` where `ticks` is 0.
unfoldable pub quotient : ℕ → Sample → Sample → Option ℕ
quotient ref_freq start end =
    let duration = u64 (sub64 end.cycle start.cycle * ref_freq) in
    let ticks = sub64 end.time.low start.time.low in
    if ticks == 0 then none else some (u32 (duration / ticks))

-- `clint_get_core_freq`. The inner `none` is a division by zero.
unfoldable pub get_core_freq : Counters → ℕ → ℕ → ℕ → ℕ → ℕ → Timed (Option ℕ)
get_core_freq c reads fuel ref_freq ref_time_inv n =
    if ref_time_inv == 0
    then some (none, n)
    else (get_mtime c reads n >>= λ r. await_tick c reads fuel r.0 r.1 >>= λ s.
        await_target c reads fuel (freq_target s.0.time (ref_freq / ref_time_inv)) s.1 >>= λ e.
        some (quotient ref_freq s.0 e.0, e.1))
