-- ===== src/Offload/Wait.antt =====
-- The two polling loops of the offload driver. The polled register is a function of the number of
-- reads made so far.
use native.Mathlib.Nat.{add-zero}
use chimera_sdk.Base.{
  ℕ, zero, suc, ◌+◌, ◌-◌, ◌^◌, ◌<◌, ◌≡◌, ◌≢◌, ◌∙◌, refl, ap, arith, Option, none, some, true, false,
  ltb, ◌==◌, if◌then◌else◌, ==-ne,
}
use chimera_sdk.Mmio.{Regs, write32}

-- `snitchCluster_busy` where the cluster's busy register holds `poll`; -1 as a 32-bit word.
pub cluster_busy : ℕ → ℕ → ℕ
cluster_busy cluster_id poll = if ltb cluster_id 5 then poll else 2 ^ 32 - 1

-- The loop of `wait_snitchCluster_busy`: the number of reads when it ends, `none` out of fuel.
pub wait_busy : ℕ → ℕ → (ℕ → ℕ) → ℕ → Option ℕ
wait_busy zero cluster_id polls n = none
wait_busy (suc fuel) cluster_id polls n = elim (cluster_busy cluster_id (polls n) == 1) [
  | true ↦ wait_busy fuel cluster_id polls (n + 1)
  | false ↦ some (n + 1)
]

-- `wait_snitchCluster_return` on the register at `a`: the loop ends at a value that is not 0, the
-- register is read once more for the result, and then cleared. The result comes with the registers
-- and the number of reads.
pub wait_return : ℕ → ℕ → (ℕ → ℕ) → ℕ → Regs → Option ((ℕ × Regs) × ℕ)
wait_return zero a polls n regs = none
wait_return (suc fuel) a polls n regs = elim (polls n == 0) [
  | true ↦ wait_return fuel a polls (n + 1) regs
  | false ↦ some ((polls (n + 1), write32 a 0 regs), n + 2)
]

-- The wait for a cluster that is not busy ends at once.
pub wait_busy_idle :
    (fuel cluster_id n : ℕ) (polls : ℕ → ℕ)
    → cluster_id < 5
    → polls n ≢ 1
    → wait_busy (suc fuel) cluster_id polls n ≡ some (n + 1)
unfolding wait_busy cluster_busy
wait_busy_idle fuel c n polls lt idle =
    let here : (ltb c 5) ≡ true = ground arith in
    let stop : (polls n == 1) ≡ false = ==-ne (polls n) 1 idle in rw (here, stop, wait_busy) refl

-- For a cluster that exists, the wait ends at the first read that is not 1, which is read `n + k`
-- if the register is 1 before it.
pub wait_busy_first :
    (k cluster_id n : ℕ) (polls : ℕ → ℕ)
    → cluster_id < 5
    → ((i : ℕ) → i < k → polls (n + i) ≡ 1)
    → polls (n + k) ≢ 1
    → wait_busy (suc k) cluster_id polls n ≡ some (n + k + 1)
unfolding wait_busy cluster_busy
wait_busy_first zero c n polls lt busy idle =
    let here : (ltb c 5) ≡ true = ground arith in
    let stop : (polls n == 1) ≡ false = ==-ne (polls n) 1 (rw add-zero at idle) in
    rw (here, stop, wait_busy) (ap some (omega arith))
wait_busy_first (suc k) c n polls lt busy idle =
    let here : (ltb c 5) ≡ true = ground arith in
    let at : polls n ≡ 1 = rw add-zero at (busy 0 (omega arith)) in
    let shift : (i : ℕ) → n + suc i ≡ n + 1 + i = λ i. omega arith in
    let rest : wait_busy (suc k) c polls (n + 1) ≡ some (n + 1 + k + 1) =
      wait_busy_first k c (n + 1) polls lt (λ i h. rw (shift i) at (busy (suc i) (omega arith)))
        (rw (shift k) at idle) in
    rw (here, at, wait_busy) (rest ∙ ap some (omega arith))

-- The wait for a result that is there ends at once.
pub wait_return_now :
    (fuel a n : ℕ) (polls : ℕ → ℕ) (regs : Regs)
    → polls n ≢ 0
    → wait_return (suc fuel) a polls n regs ≡ some ((polls (n + 1), write32 a 0 regs), n + 2)
unfolding wait_return
wait_return_now fuel a n polls regs ne = rw (==-ne (polls n) 0 ne, wait_return) refl

-- The device's side of a result: the register holds 0 until it is set to `v`, at read `n + k`, and
-- keeps `v` for the next read.
pub wait_return_first :
    (k a n v : ℕ) (polls : ℕ → ℕ) (regs : Regs)
    → ((i : ℕ) → i < k → polls (n + i) ≡ 0)
    → polls (n + k) ≡ v
    → polls (n + k + 1) ≡ v
    → v ≢ 0
    → wait_return (suc k) a polls n regs ≡ some ((v, write32 a 0 regs), n + k + 2)
unfolding wait_return
wait_return_first zero a n v polls regs quiet set kept ne =
    let at : polls n ≡ v = rw add-zero at set in
    let next_at : polls (n + 1) ≡ v = rw add-zero at kept in
    rw (at, ==-ne v 0 ne, next_at, wait_return)
      (ap (λ r. some ((v, write32 a 0 regs), r)) (omega arith))
wait_return_first (suc k) a n v polls regs quiet set kept ne =
    let at : polls n ≡ 0 = rw add-zero at (quiet 0 (omega arith)) in
    let shift : (i : ℕ) → n + suc i ≡ n + 1 + i = λ i. omega arith in
    rw (at, wait_return)
      (wait_return_first k a (n + 1) v polls regs
          (λ i h. rw (shift i) at (quiet (suc i) (omega arith))) (rw (shift k) at set)
          (rw (shift k) at kept) ne
        ∙ ap (λ r. some ((v, write32 a 0 regs), r)) (omega arith))
