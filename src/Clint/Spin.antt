-- ===== src/Clint/Spin.antt =====
-- `clint_spin_until` and `clint_spin_ticks`: they return, and not too early.
use native.Mathlib.Nat.{add-zero}
use chimera_sdk.Base.{
  ℕ, zero, suc, ◌+◌, ◌^◌, ◌≤◌, ◌<◌, ◌≡◌, ◌∙◌, refl, inl, inr, Bool-cases, true, false, none, some,
  arith,
}
use chimera_sdk.Clint.{
  Mtime, value, IsMtime, Counters, Timed, ◌>>=◌, get_mtime, less_than, deadline, spin_until,
  spin_ticks,
}
use chimera_sdk.Clint.Order.{less_than_iff, not-less_than, deadline-value}
use chimera_sdk.Clint.Read.{IsClock, IsReading, get_mtime-IsReading, get_mtime-total}

-- Inversion of a chain that returns.
pub >>=-eq-some :
    {A B : Type 0} (m : Timed A) (f : A × ℕ → Timed B) {b : B × ℕ}
    → (m >>= f) ≡ some b
    → (a : A × ℕ) × (m ≡ some a) × (f a ≡ some b)
>>=-eq-some none f e = cc
>>=-eq-some (some a) f e = (a, refl, e)

spin_until_round :
    (c : Counters) (reads fuel : ℕ) (target : Mtime) (n : ℕ) (m : Mtime) (k : ℕ)
    → get_mtime c reads n ≡ some (m, k)
    → spin_until c reads (suc fuel) target n
      ≡ elim (less_than m target) [ true ↦ spin_until c reads fuel target k | false ↦ some (tt, k) ]
unfolding spin_until
spin_until_round c reads fuel target n m k e = rw (e, ◌>>=◌)

late_enough :
    {c : Counters} {n k : ℕ} (m target : Mtime)
    → IsClock c
    → IsReading c n m k
    → IsMtime target
    → less_than m target ≡ false
    → value target ≤ c.mtime k
late_enough {k} m target clock r ok late = omega (
  arith,
  not-less_than m target r.words ok late,
  r.exact,
  clock.mono r.at k (omega (arith, r.before)),
)

pub already_late :
    {c : Counters} {n k : ℕ} (m target : Mtime)
    → IsClock c
    → IsReading c n m k
    → IsMtime target
    → value target ≤ c.mtime n
    → less_than m target ≡ false
already_late {c} {n} m target clock r ok reached = elim (Bool-cases (less_than m target)) [
  | inr late ↦ late
  | inl early ↦ absurd (
      omega (
        arith,
        (less_than_iff m target r.words ok).0 early,
        r.exact,
        clock.mono n r.at (omega (arith, r.after)),
      ))
]

-- On a timer that neither runs backwards nor overflows: if `clint_spin_until` returns, the timer has
-- reached the target.
pub spin_until-reached :
    {c : Counters} (reads fuel : ℕ) (target : Mtime) (n : ℕ) {n' : ℕ}
    → IsClock c
    → IsMtime target
    → spin_until c reads fuel target n ≡ some (tt, n')
    → (value target ≤ c.mtime n') × (n < n')
unfolding spin_until
spin_until-reached reads zero target n clock ok e = cc
spin_until-reached {c} reads (suc fuel) target n {n'} clock ok e =
    let ((m, k), read, rest) = >>=-eq-some (get_mtime c reads n) _ e in
    let r : IsReading c n m k = get_mtime-IsReading reads n clock read in
    elim (Bool-cases (less_than m target)) [
      | inl early ↦
          let go = spin_until-reached reads fuel target k clock ok (rw early at rest) in
          (go.0, omega (arith, go, r.after, r.before))
      | inr late ↦
          let done : k ≡ n' = cc (rw late at rest) in
          rw (← done) (late_enough m target clock r ok late, omega (arith, r.after, r.before))
    ]

-- The counter advances by less than 2 ^ 32 over any six accesses.
abbrev pub IsSlow : Counters → Type 0
IsSlow c = (i : ℕ) → c.mtime (i + 5) < c.mtime i + 2 ^ 32

-- On a timer that neither runs backwards nor overflows and advances by less than 2 ^ 32 over any six
-- accesses: if it reaches the target `k` accesses from now, `clint_spin_until` returns within
-- `k + 1` rounds, each with two rounds for the reading.
pub spin_until-total :
    {c : Counters} (k : ℕ) (target : Mtime) (n : ℕ)
    → IsClock c
    → IsSlow c
    → IsMtime target
    → value target ≤ c.mtime (n + k)
    → (n' : ℕ) × (spin_until c 2 (suc k) target n ≡ some (tt, n'))
spin_until-total {c} zero target n clock slow ok reached =
    let (m, n1, read, _) = get_mtime-total 0 n clock (slow n) in
    let r : IsReading c n m n1 = get_mtime-IsReading 2 n clock read in
    (
      n1,
      spin_until_round c 2 0 target n m n1 read
          ∙ rw (already_late m target clock r ok (rw add-zero at reached)),
    )
spin_until-total {c} (suc k) target n clock slow ok reached =
    let (m, n1, read, _) = get_mtime-total 0 n clock (slow n) in
    let r : IsReading c n m n1 = get_mtime-IsReading 2 n clock read in
    let round = spin_until_round c 2 (suc k) target n m n1 read in
    elim (Bool-cases (less_than m target)) [
      | inr late ↦ (n1, round ∙ rw late)
      | inl early ↦
          let (n', runs) =
            spin_until-total k target n1 clock slow ok
              (omega (arith, clock.mono (n + suc k) (n1 + k) (omega (arith, r.after, r.before)))) in
          (n', round ∙ rw early runs)
    ]

-- `clint_spin_ticks` waits at least the ticks asked for: when it returns, the timer has advanced by
-- that many, as long as the deadline does not overflow 64 bits.
pub spin_ticks-elapsed :
    {c : Counters} (reads fuel ticks n : ℕ) {n' : ℕ}
    → IsClock c
    → ticks < 2 ^ 32
    → c.mtime n' + ticks < 2 ^ 64
    → spin_ticks c reads fuel ticks n ≡ some (tt, n')
    → c.mtime n + ticks ≤ c.mtime n'
unfolding spin_ticks
spin_ticks-elapsed {c} reads fuel ticks n {n'} clock small fits e =
    let ((m, k), read, rest) = >>=-eq-some (get_mtime c reads n) _ e in
    let r : IsReading c n m k = get_mtime-IsReading reads n clock read in
    let d = deadline-value m ticks r.words small in
    let done = spin_until-reached reads fuel (deadline m ticks) k clock d.1 rest in
    omega (
      arith,
      d.0,
      done,
      r.exact,
      r.after,
      r.before,
      clock.mono n r.at (omega (arith, r.after)),
      clock.mono r.at n' (omega (arith, r.before, done.1)),
    )
