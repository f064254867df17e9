-- ===== src/Clint/Read.antt =====
-- `clint_get_mtime` reads the two halves of a moving counter as one value.
use native.Mathlib.Decide.{ℕ_discrete}
use chimera_sdk.Base.{
  ℕ, zero, suc, ◌+◌, ◌^◌, ◌≤◌, ◌<◌, ◌≡◌, ◌≢◌, some, arith, ==-ne, ==-eq, sym, ◌∙◌,
}
use chimera_sdk.Clint.{Mtime, value, IsMtime, Counters, mtime_low, mtime_high, get_mtime}

-- The 64-bit counter does not run backwards and does not overflow.
pub record IsClock (c : Counters) : Type 0 where
  pub mono : (i j : ℕ) → i ≤ j → c.mtime i ≤ c.mtime j
  pub bound : (i : ℕ) → c.mtime i < 2 ^ 64

-- The value read is the counter at one of the accesses of the reading.
pub record IsReading (c : Counters) (n : ℕ) (m : Mtime) (n' : ℕ) : Type 0 where
  pub at : ℕ
  pub after : n < at
  pub before : at < n'
  pub exact : value m ≡ c.mtime at
  pub words : IsMtime m

round_exact :
    {c : Counters} (n : ℕ)
    → IsClock c
    → mtime_high c n ≡ mtime_high c (n + 2)
    → IsReading c n (record { low = mtime_low c (n + 1); high = mtime_high c n }) (n + 3)
round_exact {c} n clock same = record {
  at = n + 1;
  after = omega arith;
  before = omega arith;
  exact = omega (
    arith,
    clock.mono n (n + 1) (omega arith),
    clock.mono (n + 1) (n + 2) (omega arith),
    clock.bound (n + 2),
  );
  words = omega arith;
}

IsReading-earlier :
    {c : Counters} {n k n' : ℕ} {m : Mtime} → n ≤ k → IsReading c k m n' → IsReading c n m n'
IsReading-earlier le r = record {
  at = r.at;
  after = omega (arith, r.after);
  before = r.before;
  exact = r.exact;
  words = r.words;
}

pub get_mtime_stable :
    (c : Counters) (fuel n : ℕ)
    → mtime_high c n ≡ mtime_high c (n + 2)
    → get_mtime c (suc fuel) n
      ≡ some (record { low = mtime_low c (n + 1); high = mtime_high c n }, n + 3)
unfolding get_mtime
get_mtime_stable c fuel n same = rw (==-eq _ _ same, get_mtime)

get_mtime_moved :
    (c : Counters) (fuel n : ℕ)
    → mtime_high c n ≢ mtime_high c (n + 2)
    → get_mtime c (suc fuel) n ≡ get_mtime c fuel (n + 3)
unfolding get_mtime
get_mtime_moved c fuel n moved = rw (==-ne _ _ moved, get_mtime)

-- If the counter neither runs backwards nor overflows, a reading that returns has the exact 64-bit
-- value of the counter at a moment during the reading, whatever carries happened between the
-- accesses.
pub get_mtime-IsReading :
    {c : Counters} (fuel n : ℕ) {m : Mtime} {n' : ℕ}
    → IsClock c
    → get_mtime c fuel n ≡ some (m, n')
    → IsReading c n m n'
unfolding get_mtime
get_mtime-IsReading zero n clock e = cc
get_mtime-IsReading {c} (suc fuel) n {m} {n'} clock e =
    elim (ℕ_discrete (mtime_high c n) (mtime_high c (n + 2))) [
      | yes same ↦
          let got : some (record { low = mtime_low c (n + 1); high = mtime_high c n }, n + 3)
              ≡ some (m, n') =
            sym (get_mtime_stable c fuel n same) ∙ e in
          let em : record { low = mtime_low c (n + 1); high = mtime_high c n } ≡ m = cc got in
          let en : n + 3 ≡ n' = cc got in rw (← em, ← en) (round_exact n clock same)
      | no moved ↦
          IsReading-earlier (omega arith)
            (get_mtime-IsReading fuel (n + 3) clock (sym (get_mtime_moved c fuel n moved) ∙ e))
    ]

-- If the counter does not run backwards or overflow and advances by less than 2 ^ 32 over the six
-- accesses from now, the reading returns within two rounds.
pub get_mtime-total :
    {c : Counters} (fuel n : ℕ)
    → IsClock c
    → c.mtime (n + 5) < c.mtime n + 2 ^ 32
    → (m : Mtime) × (n' : ℕ) × (get_mtime c (suc (suc fuel)) n ≡ some (m, n')) × (n' ≤ n + 6)
get_mtime-total {c} fuel n clock slow = elim (ℕ_discrete (mtime_high c n) (mtime_high c (n + 2))) [
  | yes same ↦ (_, n + 3, get_mtime_stable c (suc fuel) n same, omega arith)
  | no moved ↦ (
    _,
    n + 3 + 3,
    get_mtime_moved c (suc fuel) n moved ∙ get_mtime_stable c fuel (n + 3) (settled moved),
    omega arith,
  )
]
  where
    settled :
        mtime_high c n ≢ mtime_high c (n + 2) → mtime_high c (n + 3) ≡ mtime_high c (n + 3 + 2)
    settled moved =
        let e : n + 3 + 2 ≡ n + 5 = omega arith in
        rw e (
          omega (
            arith,
            clock.mono (n + 3) (n + 5) (omega arith),
            clock.mono n (n + 2) (omega arith),
            clock.mono (n + 2) (n + 3) (omega arith),
            clock.bound (n + 5),
          ))
