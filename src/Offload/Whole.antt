-- ===== src/Offload/Whole.antt =====
-- `offload_snitchCluster` and `offload_snitchCluster_core` as a whole: the wait for the cluster
-- together with what is written.
use chimera_sdk.Base.{
  ℕ, suc, ◌+◌, ◌*◌, ◌/◌, ◌^◌, ◌<◌, ◌≡◌, ◌≢◌, ◌∙◌, refl, arith, Option, none, some, u32, sub32,
  ==-self, ==-ne,
}
use chimera_sdk.Mmio.{write32, write32_self, write32_ne}
use chimera_sdk.Offload.{
  Soc, get_hart_id, setup_trampoline, launch, clint_ctrl_base, soc_ctrl_base, cluster_hart_base,
}
use chimera_sdk.Offload.Launch.{IsSetUp, IsSame, core_at, hart_base_lem, launch-IsSetUp}
use chimera_sdk.Offload.Wait.{wait_busy, wait_busy_first}

-- `offload_snitchCluster`; `none` if the wait is out of fuel.
pub offload_cluster :
    (fuel function trampoline args : ℕ)
    → (ℕ → ℕ)
    → (cluster_id : ℕ) → (ℕ → ℕ)
    → (n : ℕ) → Soc
    → Option Soc
offload_cluster fuel function trampoline args stack_ptr cluster_id polls n soc =
    elim (wait_busy fuel cluster_id polls n) [
      | none ↦ none
      | some reads ↦ some (launch function trampoline args stack_ptr cluster_id soc)
    ]

-- What `offload_snitchCluster_core` writes before its wait: the trampoline, and the boot address
-- as a pointer of 64 bits.
pub prepare_core : (function trampoline args stack_ptr hart_id : ℕ) → Soc → Soc
prepare_core function trampoline args stack_ptr hart_id soc =
    let ready = setup_trampoline hart_id function args stack_ptr soc in
    record ready {
      regs =
          write32 (soc_ctrl_base + 4) (trampoline / 2 ^ 32)
            (write32 soc_ctrl_base (u32 trampoline) ready.regs);
    }

-- `offload_snitchCluster_core`
pub offload_core :
    (fuel function trampoline args stack_ptr cluster_id core_id : ℕ)
    → (ℕ → ℕ)
    → (n : ℕ) → Soc
    → Option Soc
offload_core fuel function trampoline args stack_ptr cluster_id core_id polls n soc =
    let hart_id = get_hart_id cluster_id core_id in
    let ready = prepare_core function trampoline args stack_ptr hart_id soc in
    elim (wait_busy fuel cluster_id polls n) [
      | none ↦ none
      | some reads ↦
          some (record ready { regs = write32 (clint_ctrl_base + 4 * hart_id) 1 ready.regs })
    ]

-- If the cluster is busy for the next `k` reads of its register and then not, the offload to one of
-- the five clusters returns, with every one of its nine cores set up and interrupted.
pub offload_cluster_lem :
    (k function trampoline args : ℕ) (stack_ptr : ℕ → ℕ) (c j : ℕ) (polls : ℕ → ℕ) (n : ℕ)
    (soc : Soc)
    → c < 5
    → j < 9
    → ((i : ℕ) → i < k → polls (n + i) ≡ 1)
    → polls (n + k) ≢ 1
    → (t : Soc) × (offload_cluster (suc k) function trampoline args stack_ptr c polls n soc
        ≡ some t)
      × IsSetUp function args (stack_ptr j) (core_at c j) t
      × (t.regs (clint_ctrl_base + 4 * suc (core_at c j)) ≡ 1)
unfolding offload_cluster
offload_cluster_lem k function trampoline args stack_ptr c j polls n soc c_lt j_lt busy idle =
    let (ready, on) = launch-IsSetUp function trampoline args stack_ptr c j soc c_lt j_lt in
    (
      launch function trampoline args stack_ptr c soc,
      rw (wait_busy_first k c n polls c_lt busy idle, offload_cluster) refl,
      ready,
      on,
    )

-- If the cluster is busy for the next `k` reads of its register and then not, the offload to one
-- core returns, with this core set up and interrupted, and the trampolines and interrupts of all
-- other cores as they were.
pub offload_core_lem :
    (k function trampoline args stack_ptr c j : ℕ) (polls : ℕ → ℕ) (n : ℕ) (soc : Soc) (other : ℕ)
    → c < 5
    → j < 9
    → other < 45
    → other ≢ core_at c j
    → ((i : ℕ) → i < k → polls (n + i) ≡ 1)
    → polls (n + k) ≢ 1
    → (t : Soc) × (offload_core (suc k) function trampoline args stack_ptr c j polls n soc ≡ some t)
      × IsSetUp function args stack_ptr (core_at c j) t
      × (t.regs (clint_ctrl_base + 4 * suc (core_at c j)) ≡ 1)
      × IsSame soc t other
unfolding offload_core prepare_core get_hart_id setup_trampoline
offload_core_lem k function trampoline args stack_ptr c j polls n soc other c_lt j_lt o_lt ne busy
      idle =
    let base = (hart_base_lem c c_lt).0 in
    let hart : u32 (1 + 9 * c + j) ≡ suc (core_at c j) = omega arith in
    let e : sub32 (suc (core_at c j)) cluster_hart_base ≡ core_at c j = omega arith in
    let at = clint_ctrl_base + 4 * suc other in
    let low = write32 soc_ctrl_base (u32 trampoline) soc.regs in
    let booted = write32 (soc_ctrl_base + 4) (trampoline / 2 ^ 32) low in
    let ready = prepare_core function trampoline args stack_ptr (suc (core_at c j)) soc in
    (
      record ready { regs = write32 (clint_ctrl_base + 4 * suc (core_at c j)) 1 booted },
      rw (wait_busy_first k c n polls c_lt busy idle, offload_core, get_hart_id, base, hart) refl,
      record {
        function_is = rw (e, ==-self (core_at c j)) refl;
        args_is = rw (e, ==-self (core_at c j)) refl;
        stack_is = rw (e, ==-self (core_at c j)) refl;
      },
      write32_self (clint_ctrl_base + 4 * suc (core_at c j)) 1 booted,
      record {
        function_eq = rw (e, ==-ne other (core_at c j) ne) refl;
        args_eq = rw (e, ==-ne other (core_at c j) ne) refl;
        stack_eq = rw (e, ==-ne other (core_at c j) ne) refl;
        msip_eq =
            write32_ne (clint_ctrl_base + 4 * suc (core_at c j)) at 1 booted (omega arith)
            ∙ write32_ne (soc_ctrl_base + 4) at (trampoline / 2 ^ 32) low (omega arith)
            ∙ write32_ne soc_ctrl_base at (u32 trampoline) soc.regs (omega arith);
      },
    )
