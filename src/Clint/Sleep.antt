-- ===== src/Clint/Sleep.antt =====
-- The timer compare registers, the interrupt enables and the sleep of the 32-bit CLINT driver, with
-- the trap handler of host/runtime/src/clint.c.
use chimera_sdk.Base.{
  ℕ, ◌+◌, ◌*◌, ◌/◌, ◌%◌, ◌^◌, ◌≤◌, ◌<◌, ◌≡◌, ◌⊎◌, sym, refl, inl, inr, Bool, Bool-cases, true,
  false, some, arith, u32, ◌==◌, not, ◌&&◌, if◌then◌else◌,
}
use chimera_sdk.Mmio.{Regs, write32}
use chimera_sdk.Clint.{
  Mtime, value, IsMtime, Counters, Timed, ◌>>=◌, get_mtime, less_than, deadline,
}
use chimera_sdk.Clint.Order.{less_than_iff, not-less_than, deadline-value}
use chimera_sdk.Clint.Read.{IsClock, IsReading, get_mtime-IsReading, get_mtime-total}
use chimera_sdk.Clint.Spin.{>>=-eq-some, IsSlow}

-- The CLINT registers by their offset, the enables `mie.MTIE` and `mstatus.MIE`, and how often the
-- core has executed `wfi`.
pub record Core : Type 0 where
  pub clint : Regs
  pub mtie : Bool
  pub mie : Bool
  pub sleeps : ℕ

abbrev pub msip_offset : ℕ
msip_offset = 0x0

abbrev pub mtimecmp_low0 : ℕ
mtimecmp_low0 = 0x4000

abbrev pub mtimecmp_high0 : ℕ
mtimecmp_high0 = 0x4004

-- `clint_set_mtimecmpx`: the high word, then the low word.
unfoldable pub set_mtimecmpx : ℕ → Mtime → Core → Core
set_mtimecmpx timer_idx v core =
    let offs = u32 (timer_idx * 2 ^ 3) in
    record core {
      clint =
          write32 (mtimecmp_low0 + offs) v.low (write32 (mtimecmp_high0 + offs) v.high core.clint);
    }

pub set_mtie : Bool → Core → Core
set_mtie enable core = record core { mtie = enable }

pub set_mie : Bool → Core → Core
set_mie enable core = record core { mie = enable }

pub wfi : Core → Core
wfi core = record core { sleeps = core.sleeps + 1 }

-- `clint_sleep_until`; `fence` orders the writes, which are in order here.
unfoldable pub sleep_until : Counters → ℕ → ℕ → Mtime → Core → ℕ → Timed Core
sleep_until c reads timer_idx target core n = get_mtime c reads n >>= λ r.
    if less_than target r.0
    then some (core, r.1)
    else some (wfi (set_mie true (set_mtie true (set_mtimecmpx timer_idx target core))), r.1)

-- `clint_sleep_ticks`
unfoldable pub sleep_ticks : Counters → ℕ → ℕ → ℕ → Core → ℕ → Timed Core
sleep_ticks c reads timer_idx ticks core n =
    get_mtime c reads n >>= λ r. sleep_until c reads timer_idx (deadline r.0 ticks) core r.1

-- `default_trap_vector` on the value of `mip`: bit 3 is the software interrupt, bit 7 the timer.
pub default_trap_vector : ℕ → Core → Core
default_trap_vector mip core =
    if mip / 2 ^ 3 % 2 == 1
    then record core { clint = write32 msip_offset 0 core.clint }
    else if mip / 2 ^ 7 % 2 == 1
    then set_mtie false core
    else core

-- The compare value of a timer.
abbrev pub mtimecmp : Core → ℕ → ℕ
mtimecmp core i =
    core.clint (mtimecmp_high0 + i * 2 ^ 3) * 2 ^ 32 + core.clint (mtimecmp_low0 + i * 2 ^ 3)

-- For timer indices below 2 ^ 29, setting one timer's compare value gives exactly that value, and leaves the other timers, the
-- software interrupt and the enables alone.
pub set_mtimecmpx_lem :
    (i j : ℕ) (v : Mtime) (core : Core)
    → i < 2 ^ 29
    → j < 2 ^ 29
    → (mtimecmp (set_mtimecmpx i v core) j ≡ (if j == i then value v else mtimecmp core j))
      × ((set_mtimecmpx i v core).clint msip_offset ≡ core.clint msip_offset)
      × ((set_mtimecmpx i v core).mtie ≡ core.mtie)
unfolding set_mtimecmpx write32
set_mtimecmpx_lem i j v core hi hj = ground arith

-- How a call of `clint_sleep_until` ends: at once, with the target in the past, or after a sleep
-- that was entered with the timer armed at the target.
pub record IsArmed (timer_idx : ℕ) (target : Mtime) (core core' : Core) : Type 0 where
  pub slept : core'.sleeps ≡ core.sleeps + 1
  pub compare : mtimecmp core' timer_idx ≡ value target
  pub timer_enabled : core'.mtie ≡ true
  pub interrupts_enabled : core'.mie ≡ true

sleeping-IsArmed :
    (i : ℕ) (target : Mtime) (core : Core)
    → i < 2 ^ 29
    → IsArmed i target core (wfi (set_mie true (set_mtie true (set_mtimecmpx i target core))))
unfolding wfi set_mie set_mtie set_mtimecmpx write32
sleeping-IsArmed i target core h = ground arith

-- `clint_sleep_until` goes to sleep only with the compare register holding the target and both
-- enables set, and only if the timer had not passed the target; else it returns at once with the
-- core unchanged, the timer being past the target.
pub sleep_until_lem :
    {c : Counters} (reads i : ℕ) (target : Mtime) (core core' : Core) (n n' : ℕ)
    → IsClock c
    → IsMtime target
    → i < 2 ^ 29
    → sleep_until c reads i target core n ≡ some (core', n')
    → ((core' ≡ core) × (value target < c.mtime n'))
      ⊎ (IsArmed i target core core' × (c.mtime n ≤ value target))
unfolding sleep_until
sleep_until_lem {c} reads i target core core' n n' clock ok small e =
    let ((m, k), read, rest) = >>=-eq-some (get_mtime c reads n) _ e in
    let r : IsReading c n m k = get_mtime-IsReading reads n clock read in
    elim (Bool-cases (less_than target m)) [
      | inl past ↦
          let same : core ≡ core' = cc (rw past at rest) in
          let ek : k ≡ n' = cc (rw past at rest) in
          inl (
            sym same,
            omega (
              arith,
              (less_than_iff target m ok r.words).0 past,
              r.exact,
              r.before,
              clock.mono r.at n' (omega (arith, r.before)),
            ),
          )
      | inr ahead ↦
          let armed : wfi (set_mie true (set_mtie true (set_mtimecmpx i target core))) ≡ core' =
            cc (rw ahead at rest) in
          inr (
            rw armed at (sleeping-IsArmed i target core small),
            omega (
              arith,
              not-less_than target m ok r.words ahead,
              r.exact,
              r.after,
              clock.mono n r.at (omega (arith, r.after)),
            ),
          )
    ]

-- `clint_sleep_ticks` arms the timer no earlier than the ticks asked for from now, and otherwise
-- returns with that deadline past, as long as the deadline does not overflow 64 bits.
pub sleep_ticks_lem :
    {c : Counters} (reads i ticks : ℕ) (core core' : Core) (n n' : ℕ)
    → IsClock c
    → i < 2 ^ 29
    → ticks < 2 ^ 32
    → ((j : ℕ) → c.mtime j + ticks < 2 ^ 64)
    → sleep_ticks c reads i ticks core n ≡ some (core', n')
    → ((core' ≡ core) × (c.mtime n + ticks < c.mtime n'))
      ⊎ ((c.mtime n + ticks ≤ mtimecmp core' i) × (core'.mtie ≡ true) × (core'.mie ≡ true))
unfolding sleep_ticks
sleep_ticks_lem {c} reads i ticks core core' n n' clock small few room e =
    let ((m, k), read, rest) = >>=-eq-some (get_mtime c reads n) _ e in
    let r : IsReading c n m k = get_mtime-IsReading reads n clock read in
    let (is_sum, ok) = deadline-value m ticks r.words few in
    let target_at : value (deadline m ticks) ≡ c.mtime r.at + ticks =
      omega (arith, is_sum, r.exact, room r.at) in
    elim (sleep_until_lem reads i (deadline m ticks) core core' k n' clock ok small rest) [
      | inl (same, past) ↦
          inl (same, omega (arith, target_at, clock.mono n r.at (omega (arith, r.after))))
      | inr (armed, _) ↦ inr (
        omega (arith, target_at, armed.compare, clock.mono n r.at (omega (arith, r.after))),
        armed.timer_enabled,
        armed.interrupts_enabled,
      )
    ]

-- `clint_sleep_until` returns with its reading of the timer.
sleep_until_read :
    (c : Counters) (reads i : ℕ) (target : Mtime) (core : Core) (n : ℕ) (m : Mtime) (k : ℕ)
    → get_mtime c reads n ≡ some (m, k)
    → (core' : Core) × (sleep_until c reads i target core n ≡ some (core', k))
unfolding sleep_until
sleep_until_read c reads i target core n m k read = elim (Bool-cases (less_than target m)) [
  | inl past ↦ (core, rw (read, ◌>>=◌, past) refl)
  | inr ahead ↦ (
    wfi (set_mie true (set_mtie true (set_mtimecmpx i target core))),
    rw (read, ◌>>=◌, ahead) refl,
  )
]

-- A sleep that returns has made an access.
pub sleep_ticks-later :
    {c : Counters} (reads i ticks : ℕ) (core core' : Core) (n n' : ℕ)
    → IsClock c
    → sleep_ticks c reads i ticks core n ≡ some (core', n')
    → n < n'
unfolding sleep_ticks sleep_until
sleep_ticks-later {c} reads i ticks core core' n n' clock e =
    let ((m, k), read, rest) = >>=-eq-some (get_mtime c reads n) _ e in
    let ((m2, k2), again, last) = >>=-eq-some (get_mtime c reads k) _ rest in
    let r : IsReading c n m k = get_mtime-IsReading reads n clock read in
    let r2 : IsReading c k m2 k2 = get_mtime-IsReading reads k clock again in
    let ends : k2 ≡ n' = elim (Bool-cases (less_than (deadline m ticks) m2)) [
      | inl past ↦ cc (rw past at last)
      | inr ahead ↦ cc (rw ahead at last)
    ] in
    omega (arith, ends, r.after, r.before, r2.after, r2.before)

-- On a timer that neither runs backwards nor overflows and advances by less than 2 ^ 32 over any six
-- accesses, a sleep returns.
pub sleep_ticks-total :
    {c : Counters} (i ticks : ℕ) (core : Core) (n : ℕ)
    → IsClock c
    → IsSlow c
    → (core' : Core) × (n' : ℕ) × (sleep_ticks c 2 i ticks core n ≡ some (core', n'))
unfolding sleep_ticks
sleep_ticks-total {c} i ticks core n clock slow =
    let (m, k, read, _) = get_mtime-total 0 n clock (slow n) in
    let (m2, k2, again, _) = get_mtime-total 0 k clock (slow k) in
    let (core', sleeps) = sleep_until_read c 2 i (deadline m ticks) core k m2 k2 again in
    (core', k2, rw (read, ◌>>=◌) sleeps)

-- The trap handler clears the software interrupt register exactly if a software interrupt is
-- pending; it disables the timer interrupt exactly if a timer interrupt and no software interrupt
-- is pending; and it changes no compare register and not the global enable.
pub default_trap_vector_lem :
    (mip : ℕ) (core : Core) (j : ℕ)
    → let core' = default_trap_vector mip core in
      (core'.clint msip_offset ≡ (if mip / 2 ^ 3 % 2 == 1 then 0 else core.clint msip_offset))
      × (core'.mtie
          ≡ (if not (mip / 2 ^ 3 % 2 == 1) && mip / 2 ^ 7 % 2 == 1 then false else core.mtie))
      × (mtimecmp core' j ≡ mtimecmp core j)
      × (core'.mie ≡ core.mie)
unfolding default_trap_vector set_mtie write32
default_trap_vector_lem mip core j = ground arith
