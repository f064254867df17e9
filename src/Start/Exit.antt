-- ===== src/Start/Exit.antt =====
-- `snrt_exit` against `wait_snitchCluster_return` of the host: the register that the one writes and
-- the one that the other polls.
use native.Mathlib.Decide.{ℕ_discrete}
use chimera_sdk.Base.{
  ℕ, ◌+◌, ◌*◌, ◌%◌, ◌<◌, ◌≡◌, ◌⊎◌, refl, inl, inr, arith, some, none, false, ◌==◌,
}
use chimera_sdk.Mmio.{Regs, write32}
use chimera_sdk.Offload.{soc_ctrl_base, return_reg}
use chimera_sdk.Start.{exit_reg, snrt_exit}

-- What the host polls for a cluster.
abbrev pub polled : ℕ → ℕ
polled cluster_id = soc_ctrl_base + 0xc + 4 * cluster_id

-- For the five clusters: the exit code reaches the register that the host polls for the cluster in
-- the case of cluster 0 only. The exit of cluster 4 sets the register of cluster 1 and leaves its own
-- alone, and the write of the clusters 1 to 3 is not to the address of a register.
pub snrt_exit-misses :
    (c code : ℕ) (regs : Regs)
    → c < 5
    → ((c ≡ 0)
        × (return_reg 0 ≡ some (polled 0))
        × (t : Regs) × (snrt_exit c code regs ≡ some t)
        × (t (polled 0) ≡ code))
      ⊎ (((c ≡ 4)
            × (return_reg 4 ≡ some (polled 4))
            × (return_reg 1 ≡ some (polled 1))
            × ((t : Regs) × (snrt_exit c code regs ≡ some t)
                × (t (polled 1) ≡ code)
                × (t (polled 4) ≡ regs (polled 4))))
          ⊎ ((0 < c) × (c < 4) × (snrt_exit c code regs ≡ none)))
unfolding snrt_exit write32
snrt_exit-misses c code regs lt = elim (ℕ_discrete c 0) [
  | yes first ↦ inl (first, refl, write32 (exit_reg c) code regs, rw first refl, rw first refl)
  | no other ↦ elim (ℕ_discrete c 4) [
    | yes last ↦ inr (
        inl (
          last,
          refl,
          refl,
          (write32 (exit_reg c) code regs, rw last refl, rw last refl, rw last refl),
        ))
    | no between ↦
        let misaligned : (exit_reg c % 4 == 0) ≡ false = ground arith in
        inr (inr (omega (arith, other), omega (arith, between), rw misaligned refl))
  ]
]
