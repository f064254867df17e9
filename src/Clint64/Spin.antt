-- ===== src/Clint64/Spin.antt =====
-- `clint_spin_until` and `clint_spin_ticks` of the 64-bit driver: when they return.
use native.Mathlib.Decide.{ℕ_discrete}
use native.Mathlib.Nat.{mod-eq_of_lt}
use chimera_sdk.Base.{
  ℕ, zero, suc, ◌+◌, ◌^◌, ◌≤◌, ◌<◌, ◌≡◌, ◌≢◌, ◌⊎◌, ◌∙◌, refl, inl, inr, Bool-cases, true, false,
  some, arith, ltb, u64,
}
use chimera_sdk.Clint.{Counters, mtime_high}
use chimera_sdk.Clint.Read.{IsClock}
use chimera_sdk.Clint.Spin.{IsSlow}
use chimera_sdk.Clint64.{get_mtime64, spin_until64, spin_ticks64}
use chimera_sdk.Clint64.Torn.{
  get_mtime64_iff, get_mtime64-behind, get_mtime64-exact, get_mtime64-accesses,
}

not-ltb : (a b : ℕ) → ltb a b ≡ false → b ≤ a
not-ltb a b h = ground arith

ltb_no : (a b : ℕ) → b ≤ a → ltb a b ≡ false
ltb_no a b h = ground arith

spin_until64_late :
    (c : Counters) (fuel target n : ℕ)
    → target ≤ (get_mtime64 c n).0
    → spin_until64 c (suc fuel) target n ≡ some (tt, n + 2)
unfolding spin_until64
spin_until64_late c fuel target n h =
    rw (ltb_no (get_mtime64 c n).0 target h, spin_until64, get_mtime64-accesses c n) refl

spin_until64_early :
    (c : Counters) (fuel target n : ℕ)
    → ltb (get_mtime64 c n).0 target ≡ true
    → spin_until64 c (suc fuel) target n ≡ spin_until64 c fuel target (n + 2)
unfolding spin_until64
spin_until64_early c fuel target n h = rw (h, spin_until64, get_mtime64-accesses c n) refl

-- On a timer that advances by less than 2 ^ 32 over six accesses, a carry in one reading leaves the
-- next without one.
settled :
    {c : Counters} (n : ℕ)
    → IsClock c
    → IsSlow c
    → mtime_high c n ≢ mtime_high c (n + 1)
    → mtime_high c (n + 2) ≡ mtime_high c (n + 2 + 1)
settled {c} n clock slow moved = omega (
  arith,
  slow n,
  clock.mono n (n + 1) (omega arith),
  clock.mono (n + 1) (n + 2) (omega arith),
  clock.mono (n + 2) (n + 2 + 1) (omega arith),
  clock.mono (n + 2 + 1) (n + 5) (omega arith),
  clock.bound (n + 5),
)

-- A reading without a carry that is taken with the target reached ends the loop.
exact_late :
    {c : Counters} (fuel target n : ℕ)
    → IsClock c
    → mtime_high c n ≡ mtime_high c (n + 1)
    → target ≤ c.mtime n
    → spin_until64 c (suc fuel) target n ≡ some (tt, n + 2)
exact_late {c} fuel target n clock same reached =
    spin_until64_late c fuel target n
      (omega (arith, get_mtime64-exact n clock same, reached, clock.mono n (n + 1) (omega arith)))

-- The loop goes on behind a torn reading, and the next one ends it.
torn_late :
    {c : Counters} (fuel target n : ℕ)
    → IsClock c
    → IsSlow c
    → mtime_high c n ≢ mtime_high c (n + 1)
    → ltb (get_mtime64 c n).0 target ≡ true
    → target ≤ c.mtime n
    → spin_until64 c (suc (suc fuel)) target n ≡ some (tt, n + 2 + 2)
torn_late {c} fuel target n clock slow moved early reached =
    spin_until64_early c (suc fuel) target n early
    ∙ exact_late fuel target (n + 2) clock (settled n clock slow moved)
        (omega (arith, reached, clock.mono n (n + 2) (omega arith)))

-- If the timer reaches the target `k` accesses from now, `clint_spin_until` returns within `k + 2`
-- rounds, and not before the timer has reached it.
pub spin_until64-total :
    {c : Counters} (k target n : ℕ)
    → IsClock c
    → IsSlow c
    → target ≤ c.mtime (n + k)
    → (n' : ℕ) × (spin_until64 c (suc (suc k)) target n ≡ some (tt, n'))
      × (target ≤ c.mtime n')
      × (n < n')
spin_until64-total {c} zero target n clock slow reached =
    let here : target ≤ c.mtime n = omega (arith, reached, clock.mono (n + 0) n (omega arith)) in
    elim (ℕ_discrete (mtime_high c n) (mtime_high c (n + 1))) [
      | yes same ↦ (
        n + 2,
        exact_late 1 target n clock same here,
        omega (arith, here, clock.mono n (n + 2) (omega arith)),
        omega arith,
      )
      | no moved ↦ elim (Bool-cases (ltb (get_mtime64 c n).0 target)) [
        | inr late ↦ (
          n + 2,
          spin_until64_late c 1 target n (not-ltb _ target late),
          omega (arith, here, clock.mono n (n + 2) (omega arith)),
          omega arith,
        )
        | inl early ↦ (
          n + 2 + 2,
          torn_late 0 target n clock slow moved early here,
          omega (arith, here, clock.mono n (n + 2 + 2) (omega arith)),
          omega arith,
        )
      ]
    ]
spin_until64-total {c} (suc k) target n clock slow reached =
    elim (Bool-cases (ltb (get_mtime64 c n).0 target)) [
      | inr late ↦ (
        n + 2,
        spin_until64_late c (suc (suc k)) target n (not-ltb _ target late),
        omega (
          arith,
          not-ltb (get_mtime64 c n).0 target late,
          get_mtime64-behind n clock,
          clock.mono (n + 1) (n + 2) (omega arith),
        ),
        omega arith,
      )
      | inl early ↦
          let (n', runs, at_least, later) =
            spin_until64-total k target (n + 2) clock slow
              (omega (arith, reached, clock.mono (n + suc k) (n + 2 + k) (omega arith))) in
          (
            n',
            spin_until64_early c (suc (suc k)) target n early ∙ runs,
            at_least,
            omega (arith, later),
          )
    ]

spin_ticks64_from :
    (c : Counters) (fuel ticks n target : ℕ)
    → u64 ((get_mtime64 c n).0 + ticks) ≡ target
    → spin_ticks64 c fuel ticks n ≡ spin_until64 c fuel target (n + 2)
unfolding spin_ticks64
spin_ticks64_from c fuel ticks n target e = rw (e, get_mtime64-accesses c n) refl

spin_ticks64_waits :
    {c : Counters} (k ticks n : ℕ)
    → IsClock c
    → IsSlow c
    → mtime_high c n ≡ mtime_high c (n + 1)
    → c.mtime (n + 1) + ticks ≤ c.mtime (n + 2 + k)
    → (n' : ℕ) × (spin_ticks64 c (suc (suc k)) ticks n ≡ some (tt, n'))
      × (c.mtime n + ticks ≤ c.mtime n')
spin_ticks64_waits {c} k ticks n clock slow same reached =
    let target : u64 ((get_mtime64 c n).0 + ticks) ≡ c.mtime (n + 1) + ticks =
      omega (arith, get_mtime64-exact n clock same, reached, clock.bound (n + 2 + k)) in
    let (n', runs, at_least, _) =
      spin_until64-total k (c.mtime (n + 1) + ticks) (n + 2) clock slow reached in
    (
      n',
      spin_ticks64_from c (suc (suc k)) ticks n _ target ∙ runs,
      omega (arith, at_least, clock.mono n (n + 1) (omega arith)),
    )

spin_ticks64_torn :
    {c : Counters} (fuel ticks n : ℕ)
    → IsClock c
    → IsSlow c
    → ticks < 2 ^ 32
    → mtime_high c n ≢ mtime_high c (n + 1)
    → spin_ticks64 c (suc fuel) ticks n ≡ some (tt, n + 2 + 2)
spin_ticks64_torn {c} fuel ticks n clock slow few moved =
    let short : (get_mtime64 c n).0 + 2 ^ 32 ≤ c.mtime (n + 1) = elim (get_mtime64_iff n clock).1 [
      | inl same ↦ absurd (moved same)
      | inr short ↦ short
    ] in
    let target : u64 ((get_mtime64 c n).0 + ticks) ≡ (get_mtime64 c n).0 + ticks =
      mod-eq_of_lt (omega (arith, short, few, clock.bound (n + 1))) in
    spin_ticks64_from c (suc fuel) ticks n _ target
    ∙ exact_late fuel ((get_mtime64 c n).0 + ticks) (n + 2) clock (settled n clock slow moved)
        (omega (arith, short, few, clock.mono (n + 1) (n + 2) (omega arith)))

-- On a timer that neither runs backwards nor overflows and advances by less than 2 ^ 32 over any six
-- accesses, for ticks below 2 ^ 32 that have passed by `k` accesses after the first reading:
-- `clint_spin_ticks` returns within `k + 2` rounds. Without a carry into the high word between the
-- two accesses of its first reading it has then waited at least the ticks; with such a carry it
-- returns after four accesses in all, whatever the ticks.
pub spin_ticks64-ends :
    {c : Counters} (k ticks n : ℕ)
    → IsClock c
    → IsSlow c
    → ticks < 2 ^ 32
    → c.mtime (n + 1) + ticks ≤ c.mtime (n + 2 + k)
    → ((mtime_high c n ≡ mtime_high c (n + 1))
        × ((n' : ℕ) × (spin_ticks64 c (suc (suc k)) ticks n ≡ some (tt, n'))
            × (c.mtime n + ticks ≤ c.mtime n')))
      ⊎ ((mtime_high c n ≢ mtime_high c (n + 1))
          × (spin_ticks64 c (suc (suc k)) ticks n ≡ some (tt, n + 4)))
spin_ticks64-ends {c} k ticks n clock slow few reached =
    elim (ℕ_discrete (mtime_high c n) (mtime_high c (n + 1))) [
      | yes same ↦ inl (same, spin_ticks64_waits k ticks n clock slow same reached)
      | no moved ↦
          let four : n + 2 + 2 ≡ n + 4 = omega arith in
          inr (moved, rw four at (spin_ticks64_torn (suc k) ticks n clock slow few moved))
    ]
