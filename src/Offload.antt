-- ===== src/Offload.antt =====
-- The offload driver of the Snitch clusters, host/drivers/cluster/offload_snitchCluster.c, on
-- chimera-open (targets/chimera-open/shared/inc/addr_maps/soc_addr_map.h).
pub mod Stacks
pub mod Launch
pub mod Control
pub mod Wait
pub mod Whole
mod Tests
use chimera_sdk.Base.{
  ℕ, zero, suc, ◌+◌, ◌-◌, ◌*◌, ◌/◌, ◌%◌, ◌^◌, Option, none, some, ltb, ◌==◌, if◌then◌else◌, u32,
  u64, sub32, sub64,
}
use chimera_sdk.Mmio.{Regs, write32}

-- `_chimera_numCores` and `_chimera_hartBase`. Past the end of the arrays the C code has no
-- meaning; here it reads 0.
pub num_cores : ℕ → ℕ
num_cores cluster_id = if ltb cluster_id 5 then 9 else 0

pub hart_base : ℕ → ℕ
hart_base cluster_id =
    if cluster_id == 0
    then 1
    else if cluster_id == 1
    then 10
    else if cluster_id == 2
    then 19
    else if cluster_id == 3
    then 28
    else if cluster_id == 4
    then 37
    else 0

abbrev pub cluster_hart_base : ℕ
cluster_hart_base = 1

abbrev pub soc_ctrl_base : ℕ
soc_ctrl_base = 0x30001000

abbrev pub clint_ctrl_base : ℕ
clint_ctrl_base = 0x02040000

-- The registers, and the arrays `trampoline_function`, `trampoline_args` and `trampoline_stack` of
-- the shared data.
pub record Soc : Type 0 where
  pub regs : Regs
  pub function : ℕ → ℕ
  pub args : ℕ → ℕ
  pub stack : ℕ → ℕ

-- An array changed at one index.
abbrev pub put_at : (ℕ → ℕ) → ℕ → ℕ → ℕ → ℕ
put_at f i v j = if j == i then v else f j

-- `_setup_trampoline`
pub setup_trampoline : ℕ → ℕ → ℕ → ℕ → Soc → Soc
setup_trampoline hart_id function args stack soc =
    let trampoline_idx = sub32 hart_id cluster_hart_base in
    record soc {
      function = put_at soc.function trampoline_idx (u32 function);
      args = put_at soc.args trampoline_idx (u32 args);
      stack = put_at soc.stack trampoline_idx (u32 stack);
    }

-- `_get_hart_id`
pub get_hart_id : ℕ → ℕ → ℕ
get_hart_id cluster_id core_id = u32 (hart_base cluster_id + core_id)

-- The loop of `generate_snitchCluster_SPs` for `count` cores from `core_id` on, with `uintptr_t` of
-- the RV64 host; the result is the end of the stack memory and the array `stack_ptr`.
pub generate_loop : (count core_id sp : ℕ) → (ℕ → ℕ) → (ℕ → ℕ) → ℕ × (ℕ → ℕ)
generate_loop zero core_id sp stack_size stack_ptr = (sp, stack_ptr)
generate_loop (suc count) core_id sp stack_size stack_ptr =
    let aligned = sp / 16 * 16 in
    generate_loop count (suc core_id) (sub64 aligned (stack_size core_id)) stack_size
      (put_at stack_ptr core_id aligned)

-- `generate_snitchCluster_SPs`, and the version with one size for all cores.
pub generate_sps : ℕ → ℕ → (ℕ → ℕ) → (ℕ → ℕ) → ℕ × (ℕ → ℕ)
generate_sps cluster_id sp stack_size stack_ptr =
    generate_loop (num_cores cluster_id) 0 sp stack_size stack_ptr

pub generate_sps_uniform : ℕ → ℕ → ℕ → (ℕ → ℕ) → ℕ × (ℕ → ℕ)
generate_sps_uniform cluster_id sp stack_size stack_ptr =
    generate_loop (num_cores cluster_id) 0 sp (λ i. stack_size) stack_ptr

-- `setup_snitchCluster_interruptHandler`: a pointer of the RV64 host goes to two words.
pub setup_interrupt_handler : ℕ → Soc → Soc
setup_interrupt_handler handler soc =
    let a = soc_ctrl_base + 0x8 in
    record soc { regs = write32 (a + 4) (handler / 2 ^ 32) (write32 a (u32 handler) soc.regs) }

-- The loop of `offload_snitchCluster` for `count` cores from core `i` on: trampoline, boot address
-- and software interrupt. It runs after `wait_snitchCluster_busy`.
pub launch_loop : (count i hart_id function trampoline args : ℕ) → (ℕ → ℕ) → Soc → Soc
launch_loop zero i hart_id function trampoline args stack_ptr soc = soc
launch_loop (suc count) i hart_id function trampoline args stack_ptr soc =
    let ready = setup_trampoline (u32 (hart_id + i)) function args (stack_ptr i) soc in
    let booted = write32 soc_ctrl_base (u32 trampoline) ready.regs in
    launch_loop count (suc i) hart_id function trampoline args stack_ptr
      (record ready { regs = write32 (clint_ctrl_base + 4 * (hart_id + i)) 1 booted })

pub launch : ℕ → ℕ → ℕ → (ℕ → ℕ) → ℕ → Soc → Soc
launch function trampoline args stack_ptr cluster_id soc =
    launch_loop (num_cores cluster_id) 0 (get_hart_id cluster_id 0) function trampoline args
      stack_ptr soc

-- The addresses that the `switch` statements choose; `none` is the `default`.
abbrev pub reg_of : ℕ → ℕ → Option ℕ
reg_of first cluster_id =
    if cluster_id == 0
    then some (soc_ctrl_base + first)
    else if cluster_id == 1
    then some (soc_ctrl_base + first + 0x4)
    else if cluster_id == 2
    then some (soc_ctrl_base + first + 0x8)
    else if cluster_id == 3
    then some (soc_ctrl_base + first + 0xc)
    else if cluster_id == 4
    then some (soc_ctrl_base + first + 0x10)
    else none

abbrev pub return_reg : ℕ → Option ℕ
return_reg cluster_id = reg_of 0xc cluster_id

abbrev pub reset_reg : ℕ → Option ℕ
reset_reg cluster_id = reg_of 0x20 cluster_id

abbrev pub clk_gate_reg : ℕ → Option ℕ
clk_gate_reg cluster_id = reg_of 0x34 cluster_id

abbrev pub busy_reg : ℕ → Option ℕ
busy_reg cluster_id = reg_of 0x5c cluster_id

-- A byte written at the address of a word, little-endian.
abbrev pub write8 : ℕ → ℕ → Regs → Regs
write8 a v regs = write32 a (regs a / 256 * 256 + v) regs

abbrev pub write_enable : Option ℕ → ℕ → Regs → Regs
write_enable none enable regs = regs
write_enable (some a) enable regs = write8 a enable regs

-- `set_snitchCluster_clockGating` and `set_snitchCluster_reset`; `enable` is 0 or 1.
unfoldable pub set_clock_gating : ℕ → ℕ → Regs → Regs
set_clock_gating cluster_id enable regs = write_enable (clk_gate_reg cluster_id) enable regs

unfoldable pub set_reset : ℕ → ℕ → Regs → Regs
set_reset cluster_id enable regs = write_enable (reset_reg cluster_id) enable regs

-- `setAll_snitchCluster_clockGating` and `setAll_snitchCluster_reset`
pub set_all_clock_gating : ℕ → Regs → Regs
set_all_clock_gating enable regs = write8 (soc_ctrl_base + 0x44) enable (
    write8 (soc_ctrl_base + 0x40) enable (
      write8 (soc_ctrl_base + 0x3c) enable
        (write8 (soc_ctrl_base + 0x38) enable (write8 (soc_ctrl_base + 0x34) enable regs))))

pub set_all_reset : ℕ → Regs → Regs
set_all_reset enable regs = write8 (soc_ctrl_base + 0x30) enable (
    write8 (soc_ctrl_base + 0x2c) enable (
      write8 (soc_ctrl_base + 0x28) enable
        (write8 (soc_ctrl_base + 0x24) enable (write8 (soc_ctrl_base + 0x20) enable regs))))
