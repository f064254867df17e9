-- ===== src/Runner/Layout.antt =====
-- The offload driver on chimera-convolve, with the cores of
-- targets/chimera-convolve/shared/inc/addr_maps/soc_addr_map.h: four clusters of two cores and one
-- of nine. The registers are at the addresses of chimera-open.
use chimera_sdk.Base.{
  ℕ, suc, ◌+◌, ◌*◌, ◌^◌, ◌≤◌, ◌<◌, ◌≡◌, ◌≢◌, ◌∙◌, ◌⊎◌, refl, sym, arith, zero, ◌-◌, ◌/◌, sub32,
  sub64, u32, ltb, ◌==◌, if◌then◌else◌,
}
use chimera_sdk.Offload.{Soc, put_at, generate_loop, launch_loop, clint_ctrl_base, soc_ctrl_base}
use chimera_sdk.Offload.Launch.{IsSetUp, IsSame, launch_loop-in, launch_loop-out, launch_loop-kept}
use chimera_sdk.Offload.Stacks.{
  room, IsStacked, generate_loop-IsStacked, generate_loop-zero, generate_loop-suc,
}

-- `_chimera_numCores` and `_chimera_hartBase`; past the end of the arrays they read 0 here.
unfoldable pub chimera_num_cores : ℕ → ℕ
chimera_num_cores cluster_id = if ltb cluster_id 4 then 2 else if cluster_id == 4 then 9 else 0

pub chimera_hart_base : ℕ → ℕ
chimera_hart_base cluster_id =
    if cluster_id == 0
    then 1
    else if cluster_id == 1
    then 3
    else if cluster_id == 2
    then 5
    else if cluster_id == 3
    then 7
    else if cluster_id == 4
    then 9
    else 0

-- `generate_snitchCluster_SPs` with `uintptr_t` of the RV32 host of chimera-convolve.
pub chimera_generate_loop : (count core_id sp : ℕ) → (ℕ → ℕ) → (ℕ → ℕ) → ℕ × (ℕ → ℕ)
chimera_generate_loop zero core_id sp stack_size stack_ptr = (sp, stack_ptr)
chimera_generate_loop (suc count) core_id sp stack_size stack_ptr =
    let aligned = sp / 16 * 16 in
    chimera_generate_loop count (suc core_id) (sub32 aligned (stack_size core_id)) stack_size
      (put_at stack_ptr core_id aligned)

pub chimera_generate_sps : ℕ → ℕ → (ℕ → ℕ) → (ℕ → ℕ) → ℕ × (ℕ → ℕ)
chimera_generate_sps cluster_id sp stack_size stack_ptr =
    chimera_generate_loop (chimera_num_cores cluster_id) 0 sp stack_size stack_ptr

-- What `offload_snitchCluster` does after its wait.
pub chimera_launch : ℕ → ℕ → ℕ → (ℕ → ℕ) → ℕ → Soc → Soc
chimera_launch function trampoline args stack_ptr cluster_id soc =
    launch_loop (chimera_num_cores cluster_id) 0 (u32 (chimera_hart_base cluster_id + 0)) function
      trampoline args stack_ptr soc

-- The index of a core in the trampoline arrays.
abbrev pub slot : ℕ → ℕ → ℕ
slot cluster_id core_id = 2 * cluster_id + core_id

pub chimera_hart_base_lem :
    (c : ℕ) → c < 5 → (chimera_hart_base c ≡ suc (2 * c)) × (chimera_num_cores c ≤ 9)
unfolding chimera_hart_base chimera_num_cores
chimera_hart_base_lem c h = ground arith

-- The cores of two clusters have different indices.
slots_apart :
    (c d j : ℕ)
    → c < 5
    → d < 5
    → c ≢ d
    → j < chimera_num_cores d
    → (slot d j < 2 * c + 0) ⊎ (2 * c + 0 + chimera_num_cores c ≤ slot d j)
unfolding chimera_num_cores
slots_apart c d j c_lt d_lt ne j_lt = ground arith

launch-loop :
    (function trampoline args : ℕ) (stack_ptr : ℕ → ℕ) (c : ℕ) (soc : Soc)
    → c < 5
    → chimera_launch function trampoline args stack_ptr c soc
      ≡ launch_loop (chimera_num_cores c) 0 (suc (2 * c)) function trampoline args stack_ptr soc
unfolding chimera_launch
launch-loop function trampoline args stack_ptr c soc h =
    let at : u32 (suc (2 * c) + 0) ≡ suc (2 * c) = omega arith in
    rw ((chimera_hart_base_lem c h).0, at) refl

-- The trampoline at the index `k` holds what a launch writes, and its hart is interrupted.
abbrev pub IsReady : (function args stack k : ℕ) → Soc → Type 0
IsReady function args stack k soc =
    IsSetUp function args stack k soc × (soc.regs (clint_ctrl_base + 4 * suc k) ≡ 1)

pub chimera_launch-IsReady :
    (function trampoline args : ℕ) (stack_ptr : ℕ → ℕ) (c j : ℕ) (soc : Soc)
    → c < 5
    → j < chimera_num_cores c
    → IsReady function args
        (stack_ptr j)
        (slot c j)
        (chimera_launch function trampoline args stack_ptr c soc)
chimera_launch-IsReady function trampoline args stack_ptr c j soc c_lt j_lt =
    let few = (chimera_hart_base_lem c c_lt).1 in
    rw (launch-loop function trampoline args stack_ptr c soc c_lt) (
      launch_loop-in (chimera_num_cores c) 0 (2 * c) function trampoline args stack_ptr soc j
        (omega arith) (omega arith) (omega arith))

pub chimera_launch-IsSame :
    (function trampoline args : ℕ) (stack_ptr : ℕ → ℕ) (c d j : ℕ) (soc : Soc)
    → c < 5
    → d < 5
    → c ≢ d
    → j < chimera_num_cores d
    → IsSame soc (chimera_launch function trampoline args stack_ptr c soc) (slot d j)
chimera_launch-IsSame function trampoline args stack_ptr c d j soc c_lt d_lt ne j_lt =
    let few = (chimera_hart_base_lem c c_lt).1 in
    let few_there = (chimera_hart_base_lem d d_lt).1 in
    rw (launch-loop function trampoline args stack_ptr c soc c_lt) (
      launch_loop-out (chimera_num_cores c) 0 (2 * c) function trampoline args stack_ptr soc
        (slot d j) (omega arith) (omega arith) (slots_apart c d j c_lt d_lt ne j_lt))

pub chimera_launch-kept :
    (function trampoline args : ℕ) (stack_ptr : ℕ → ℕ) (c b : ℕ) (soc : Soc)
    → c < 5
    → soc_ctrl_base < b
    → (chimera_launch function trampoline args stack_ptr c soc).regs b ≡ soc.regs b
chimera_launch-kept function trampoline args stack_ptr c b soc c_lt above =
    let few = (chimera_hart_base_lem c c_lt).1 in
    rw (launch-loop function trampoline args stack_ptr c soc c_lt) (
      launch_loop-kept (chimera_num_cores c) 0 (2 * c) function trampoline args stack_ptr soc b
        (omega arith) above)

-- As long as the stacks fit, 32 bits are as good as 64.
chimera_generate-loop :
    (count i sp : ℕ) (size ptr : ℕ → ℕ)
    → sp < 2 ^ 32
    → room count i size ≤ sp
    → chimera_generate_loop count i sp size ptr ≡ generate_loop count i sp size ptr
unfolding chimera_generate_loop
chimera_generate-loop zero i sp size ptr lt h = sym (generate_loop-zero i sp size ptr)
chimera_generate-loop (suc count) i sp size ptr lt h =
    let a = sp / 16 * 16 in
    let narrow : sub32 (sp / 16 * 16) (size i) ≡ a - size i = omega (arith, h) in
    let wide : sub64 (sp / 16 * 16) (size i) ≡ a - size i = omega (arith, h) in
    let rest =
      chimera_generate-loop count (suc i) (a - size i) size (put_at ptr i a) (omega arith)
        (omega (arith, h)) in
    rw narrow (rest ∙ sym (rw wide at (generate_loop-suc count i sp size ptr)))

-- If the memory below `sp` has room for the stacks of a cluster's cores with 15 bytes of padding
-- each, they lie one below the other between the returned pointer and `sp`, at multiples of 16.
pub chimera_generate_sps-IsStacked :
    (cluster_id sp : ℕ) (size ptr : ℕ → ℕ)
    → sp < 2 ^ 32
    → room (chimera_num_cores cluster_id) 0 size ≤ sp
    → let r = chimera_generate_sps cluster_id sp size ptr in
      IsStacked (chimera_num_cores cluster_id) 0 r.0 sp size r.1
unfolding chimera_generate_sps
chimera_generate_sps-IsStacked cluster_id sp size ptr lt h =
    rw (chimera_generate-loop (chimera_num_cores cluster_id) 0 sp size ptr lt h)
      (generate_loop-IsStacked (chimera_num_cores cluster_id) 0 sp size ptr (omega arith) h)
