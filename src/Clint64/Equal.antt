-- ===== src/Clint64/Equal.antt =====
-- The 64-bit driver against the 32-bit one: the same compare registers, the same comparison and the
-- same decision to sleep.
use chimera_sdk.Base.{
  ℕ, suc, ◌+◌, ◌≤◌, ◌<◌, ◌≡◌, ◌≢◌, ◌∙◌, refl, inl, inr, Bool-cases, true, false, some, arith, u32,
  ltb, leb, ◌>>>◌, if◌then◌else◌,
}
use chimera_sdk.Clint.{Mtime, value, IsMtime, Counters, ◌>>=◌, mtime_low, mtime_high, less_than}
use chimera_sdk.Clint.Order.{less_than_iff, not-less_than}
use chimera_sdk.Clint.Read.{IsClock, get_mtime_stable}
use chimera_sdk.Clint.Sleep.{Core, set_mtimecmpx, set_mtie, set_mie, wfi, sleep_until}
use chimera_sdk.Clint64.{get_mtime64, less_than64, set_mtimecmpx64, sleep_until64}
use chimera_sdk.Clint64.Torn.{get_mtime64-exact}

ltb_yes : (a b : ℕ) → a < b → ltb a b ≡ true
ltb_yes a b h = ground arith

ltb_no : (a b : ℕ) → b ≤ a → ltb a b ≡ false
ltb_no a b h = ground arith

leb-ltb : (a b : ℕ) → b ≢ a → leb a b ≡ ltb a b
leb-ltb a b ne = ground arith

-- On two-word times, the comparisons of the two drivers agree.
less_than64-less_than :
    (a b : Mtime) → IsMtime a → IsMtime b → less_than64 (value a) (value b) ≡ less_than a b
less_than64-less_than a b va vb = elim (Bool-cases (less_than a b)) [
  | inl lt ↦ rw lt (ltb_yes _ _ ((less_than_iff a b va vb).0 lt))
  | inr ge ↦ rw ge (ltb_no _ _ (not-less_than a b va vb ge))
]

-- The two drivers write the same words to the same registers.
set_mtimecmpx64-set_mtimecmpx :
    (i : ℕ) (v : Mtime) (core : Core)
    → IsMtime v
    → set_mtimecmpx64 i (value v) core ≡ set_mtimecmpx i v core
unfolding set_mtimecmpx64 set_mtimecmpx
set_mtimecmpx64-set_mtimecmpx i v core ok =
    let low : u32 (value v) ≡ v.low = omega (arith, ok.low_lt, ok.high_lt) in
    let high : u32 (value v >>> 32) ≡ v.high = omega (arith, ok.low_lt, ok.high_lt) in
    rw (low, high) refl

-- What the 32-bit driver reads in a round without a carry.
abbrev steady : Counters → ℕ → Mtime
steady c n = record { low = mtime_low c (n + 1); high = mtime_high c n }

steady-value :
    {c : Counters} (n : ℕ)
    → IsClock c
    → mtime_high c n ≡ mtime_high c (n + 2)
    → (value (steady c n) ≡ c.mtime (n + 1))
      × IsMtime (steady c n)
      × ((get_mtime64 c n).0 ≡ c.mtime (n + 1))
steady-value {c} n clock same = (
  omega (arith, order, later, clock.bound (n + 2)),
  record { low_lt = omega arith; high_lt = omega arith },
  get_mtime64-exact n clock (omega (arith, order, later, clock.bound (n + 2))),
)
  where
    order : c.mtime n ≤ c.mtime (n + 1)
    order = clock.mono n (n + 1) (omega arith)

    later : c.mtime (n + 1) ≤ c.mtime (n + 2)
    later = clock.mono (n + 1) (n + 2) (omega arith)

sleep_until_settled :
    (c : Counters) (fuel i : ℕ) (target : Mtime) (core : Core) (n : ℕ)
    → mtime_high c n ≡ mtime_high c (n + 2)
    → sleep_until c (suc fuel) i target core n ≡ (
        if less_than target (steady c n)
        then some (core, n + 3)
        else some (wfi (set_mie true (set_mtie true (set_mtimecmpx i target core))), n + 3))
unfolding sleep_until
sleep_until_settled c fuel i target core n same = rw (get_mtime_stable c fuel n same, ◌>>=◌) refl

-- On a timer that neither runs backwards nor overflows, for a target of two words, with no carry
-- into the high word over the three accesses from `n` and the timer not exactly at the target at
-- the second: `clint_sleep_until` of the 32-bit and of the 64-bit driver leave the same core, both
-- returning at once or both going to sleep with the same compare value.
pub sleep_until64-sleep_until :
    {c : Counters} (fuel i : ℕ) (target : Mtime) (core : Core) (n : ℕ)
    → IsClock c
    → IsMtime target
    → mtime_high c n ≡ mtime_high c (n + 2)
    → c.mtime (n + 1) ≢ value target
    → sleep_until c (suc fuel) i target core n
      ≡ some ((sleep_until64 c i (value target) core n).0, n + 3)
unfolding sleep_until64
sleep_until64-sleep_until {c} fuel i target core n clock ok same ne =
    let (is_value, words, is_value64) = steady-value n clock same in
    let agree : leb (value target) (c.mtime (n + 1)) ≡ less_than target (steady c n) =
      leb-ltb _ _ ne ∙ rw is_value at (less_than64-less_than target (steady c n) ok words) in
    sleep_until_settled c fuel i target core n same
    ∙ rw (is_value64, agree, set_mtimecmpx64-set_mtimecmpx i target core ok)
        (elim (Bool-cases (less_than target (steady c n))) [
          | inl past ↦ rw past refl
          | inr ahead ↦ rw ahead refl
        ])
