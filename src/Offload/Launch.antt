-- ===== src/Offload/Launch.antt =====
-- What the cores find when a cluster is launched.
use native.Mathlib.Decide.{ℕ_discrete}
use chimera_sdk.Base.{
  sym, ◌⊎◌, ℕ, zero, suc, ◌+◌, ◌*◌, ◌^◌, ◌≤◌, ◌<◌, ◌≡◌, ◌≢◌, ◌∙◌, refl, arith, u32, sub32, inl,
  ==-self, ==-ne,
}
use chimera_sdk.Mmio.{write32, write32_self, write32_ne}
use chimera_sdk.Offload.{
  Soc, num_cores, hart_base, get_hart_id, setup_trampoline, launch_loop, launch, clint_ctrl_base,
  soc_ctrl_base, cluster_hart_base,
}

-- The trampoline of the core at `idx` is set up.
pub record IsSetUp (function args stack idx : ℕ) (soc : Soc) : Type 0 where
  pub function_is : soc.function idx ≡ u32 function
  pub args_is : soc.args idx ≡ u32 args
  pub stack_is : soc.stack idx ≡ u32 stack

-- The trampoline at `idx` and the interrupt of its hart are the same in both states.
pub record IsSame (s t : Soc) (idx : ℕ) : Type 0 where
  pub function_eq : t.function idx ≡ s.function idx
  pub args_eq : t.args idx ≡ s.args idx
  pub stack_eq : t.stack idx ≡ s.stack idx
  pub msip_eq : t.regs (clint_ctrl_base + 4 * suc idx) ≡ s.regs (clint_ctrl_base + 4 * suc idx)

-- One round of the loop for the hart `hart` above 0.
pub IsSame-trans : {s t u : Soc} {k : ℕ} → IsSame s t k → IsSame t u k → IsSame s u k
IsSame-trans a b = record {
  function_eq = b.function_eq ∙ a.function_eq;
  args_eq = b.args_eq ∙ a.args_eq;
  stack_eq = b.stack_eq ∙ a.stack_eq;
  msip_eq = b.msip_eq ∙ a.msip_eq;
}

pub SetUp_kept :
    {s t : Soc} {k function args stack : ℕ}
    → IsSetUp function args stack k s × (s.regs (clint_ctrl_base + 4 * suc k) ≡ 1)
    → IsSame s t k
    → IsSetUp function args stack k t × (t.regs (clint_ctrl_base + 4 * suc k) ≡ 1)
SetUp_kept (a, on) b = (
  record {
    function_is = b.function_eq ∙ a.function_is;
    args_is = b.args_eq ∙ a.args_is;
    stack_is = b.stack_eq ∙ a.stack_is;
  },
  b.msip_eq ∙ on,
)

abbrev round : (hart function trampoline args stack : ℕ) → Soc → Soc
round hart function trampoline args stack soc =
    let ready = setup_trampoline hart function args stack soc in
    record ready {
      regs =
          write32 (clint_ctrl_base + 4 * hart) 1
            (write32 soc_ctrl_base (u32 trampoline) ready.regs);
    }

round_self :
    (idx function trampoline args stack : ℕ) (soc : Soc)
    → suc idx < 2 ^ 32
    → let t = round (suc idx) function trampoline args stack soc in
      IsSetUp function args stack idx t × (t.regs (clint_ctrl_base + 4 * suc idx) ≡ 1)
unfolding setup_trampoline
round_self idx function trampoline args stack soc h =
    let e : sub32 (suc idx) cluster_hart_base ≡ idx = omega arith in
    (
      record {
        function_is = rw (e, ==-self idx) refl;
        args_is = rw (e, ==-self idx) refl;
        stack_is = rw (e, ==-self idx) refl;
      },
      write32_self (clint_ctrl_base + 4 * suc idx) 1
          (write32 soc_ctrl_base (u32 trampoline) soc.regs),
    )

round-IsSame :
    (idx k function trampoline args stack : ℕ) (soc : Soc)
    → suc idx < 2 ^ 32
    → 4 * k < 0x2000000
    → k ≢ idx
    → IsSame soc (round (suc idx) function trampoline args stack soc) k
unfolding setup_trampoline
round-IsSame idx k function trampoline args stack soc h k_lt ne =
    let e : sub32 (suc idx) cluster_hart_base ≡ idx = omega arith in
    let at = clint_ctrl_base + 4 * suc k in
    record {
      function_eq = rw (e, ==-ne k idx ne) refl;
      args_eq = rw (e, ==-ne k idx ne) refl;
      stack_eq = rw (e, ==-ne k idx ne) refl;
      msip_eq =
          write32_ne (clint_ctrl_base + 4 * suc idx) at 1
            (write32 soc_ctrl_base (u32 trampoline) soc.regs) (omega arith)
          ∙ write32_ne soc_ctrl_base at (u32 trampoline) soc.regs (omega arith);
    }

-- The registers above the boot address keep their words.
round-kept :
    (hart function trampoline args stack : ℕ) (soc : Soc) (b : ℕ)
    → hart < 2 ^ 24
    → soc_ctrl_base < b
    → (round hart function trampoline args stack soc).regs b ≡ soc.regs b
unfolding setup_trampoline
round-kept hart function trampoline args stack soc b lt above =
    write32_ne (clint_ctrl_base + 4 * hart) b 1 (write32 soc_ctrl_base (u32 trampoline) soc.regs)
      (omega arith)
    ∙ write32_ne soc_ctrl_base b (u32 trampoline) soc.regs (omega arith)

launch_loop-suc :
    (count i first function trampoline args : ℕ) (stack_ptr : ℕ → ℕ) (soc : Soc)
    → suc first + i < 2 ^ 32
    → launch_loop (suc count) i (suc first) function trampoline args stack_ptr soc
      ≡ launch_loop count
          (suc i)
          (suc first)
          function
          trampoline
          args
          stack_ptr
          (round (suc (first + i)) function trampoline args (stack_ptr i) soc)
unfolding launch_loop
launch_loop-suc count i first function trampoline args stack_ptr soc lt =
    let w : u32 (suc first + i) ≡ suc (first + i) = omega arith in
    let v : suc first + i ≡ suc (first + i) = omega arith in rw (w, v) refl

-- The loop from core `i` on, where `first` is the trampoline index of core 0.
pub launch_loop-out :
    (count i first function trampoline args : ℕ) (stack_ptr : ℕ → ℕ) (soc : Soc) (k : ℕ)
    → suc first + i + count < 2 ^ 32
    → 4 * k < 0x2000000
    → (k < first + i) ⊎ (first + i + count ≤ k)
    → IsSame soc (launch_loop count i (suc first) function trampoline args stack_ptr soc) k
unfolding launch_loop
launch_loop-out zero i first function trampoline args stack_ptr soc k lt k_lt out = record {
  function_eq = refl;
  args_eq = refl;
  stack_eq = refl;
  msip_eq = refl;
}
launch_loop-out (suc count) i first function trampoline args stack_ptr soc k lt k_lt out =
    let step = launch_loop-suc count i first function trampoline args stack_ptr soc (omega arith) in
    rw step (
      IsSame-trans
        (round-IsSame (first + i) k function trampoline args (stack_ptr i) soc (omega arith) k_lt
          (ground arith))
        (launch_loop-out count (suc i) first function trampoline args stack_ptr
          (round (suc (first + i)) function trampoline args (stack_ptr i) soc) k (omega arith) k_lt
          (ground arith)))

pub launch_loop-kept :
    (count i first function trampoline args : ℕ) (stack_ptr : ℕ → ℕ) (soc : Soc) (b : ℕ)
    → suc first + i + count < 2 ^ 24
    → soc_ctrl_base < b
    → (launch_loop count i (suc first) function trampoline args stack_ptr soc).regs b ≡ soc.regs b
unfolding launch_loop
launch_loop-kept zero i first function trampoline args stack_ptr soc b lt above = refl
launch_loop-kept (suc count) i first function trampoline args stack_ptr soc b lt above =
    let step = launch_loop-suc count i first function trampoline args stack_ptr soc (omega arith) in
    rw step (
      launch_loop-kept count (suc i) first function trampoline args stack_ptr
        (round (suc (first + i)) function trampoline args (stack_ptr i) soc) b (omega arith) above
      ∙ round-kept (suc (first + i)) function trampoline args (stack_ptr i) soc b (omega arith)
          above)

pub launch_loop-in :
    (count i first function trampoline args : ℕ) (stack_ptr : ℕ → ℕ) (soc : Soc) (j : ℕ)
    → 4 * (suc first + i + count) < 0x2000000
    → i ≤ j
    → j < i + count
    → let t = launch_loop count i (suc first) function trampoline args stack_ptr soc in
      IsSetUp function args (stack_ptr j) (first + j) t
      × (t.regs (clint_ctrl_base + 4 * suc (first + j)) ≡ 1)
unfolding launch_loop
launch_loop-in zero i first function trampoline args stack_ptr soc j lt le j_lt =
    absurd (omega arith)
launch_loop-in (suc count) i first function trampoline args stack_ptr soc j lt le j_lt =
    let step = launch_loop-suc count i first function trampoline args stack_ptr soc (omega arith) in
    let next_soc = round (suc (first + i)) function trampoline args (stack_ptr i) soc in
    elim (ℕ_discrete i j) [
      | yes e ↦
          let now =
            SetUp_kept
              (round_self (first + i) function trampoline args (stack_ptr i) soc (omega arith))
              (launch_loop-out count (suc i) first function trampoline args stack_ptr next_soc
                (first + i) (omega arith) (omega arith) (inl (omega arith))) in
          rw (step, sym e) now
      | no ne ↦ rw step (
          launch_loop-in count (suc i) first function trampoline args stack_ptr next_soc j
            (omega arith) (omega arith) (omega arith))
    ]

pub hart_base_lem : (c : ℕ) → c < 5 → (hart_base c ≡ 1 + 9 * c) × (num_cores c ≡ 9)
unfolding hart_base num_cores
hart_base_lem c h = ground arith

pub get_hart_id_lem : (c j : ℕ) → c < 5 → j < 9 → get_hart_id c j ≡ 1 + 9 * c + j
unfolding get_hart_id
get_hart_id_lem c j c_lt j_lt =
    let (base, cores) = hart_base_lem c c_lt in rw base (omega (arith, c_lt, j_lt))

-- The index of a core in the trampoline arrays.
abbrev pub core_at : ℕ → ℕ → ℕ
core_at cluster_id core_id = 9 * cluster_id + core_id

launch-loop :
    (function trampoline args : ℕ) (stack_ptr : ℕ → ℕ) (c : ℕ) (soc : Soc)
    → c < 5
    → launch function trampoline args stack_ptr c soc
      ≡ launch_loop 9 0 (suc (9 * c)) function trampoline args stack_ptr soc
unfolding launch get_hart_id
launch-loop function trampoline args stack_ptr c soc h =
    let (base, cores) = hart_base_lem c h in
    let at : u32 (1 + 9 * c + 0) ≡ suc (9 * c) = omega arith in rw (base, cores, at) refl

-- After a launch of one of the five clusters every one of its nine cores finds function, arguments and its stack pointer, cut to
-- 32 bits, at its place in the trampoline arrays, and its software interrupt is set.
pub launch-IsSetUp :
    (function trampoline args : ℕ) (stack_ptr : ℕ → ℕ) (c j : ℕ) (soc : Soc)
    → c < 5
    → j < 9
    → let t = launch function trampoline args stack_ptr c soc in
      IsSetUp function args (stack_ptr j) (core_at c j) t
      × (t.regs (clint_ctrl_base + 4 * suc (core_at c j)) ≡ 1)
launch-IsSetUp function trampoline args stack_ptr c j soc c_lt j_lt =
    rw (launch-loop function trampoline args stack_ptr c soc c_lt) (
      launch_loop-in 9 0 (9 * c) function trampoline args stack_ptr soc j (omega arith)
        (omega arith) (omega arith))

-- A launch leaves the trampolines and the software interrupts of the other clusters' cores alone.
pub launch-IsSame :
    (function trampoline args : ℕ) (stack_ptr : ℕ → ℕ) (c d j : ℕ) (soc : Soc)
    → c < 5
    → d < 5
    → c ≢ d
    → j < 9
    → IsSame soc (launch function trampoline args stack_ptr c soc) (core_at d j)
launch-IsSame function trampoline args stack_ptr c d j soc c_lt d_lt ne j_lt =
    rw (launch-loop function trampoline args stack_ptr c soc c_lt) (
      launch_loop-out 9 0 (9 * c) function trampoline args stack_ptr soc (core_at d j) (omega arith)
        (omega arith) (ground arith))
