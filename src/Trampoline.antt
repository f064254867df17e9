-- ===== src/Trampoline.antt =====
-- The first instructions of a released core on chimera-open: the `asm` statements of
-- targets/chimera-open/devices/snitch_cluster/src/trampoline.c and inc/trampoline.h, on the
-- registers and the memory of an RV32 core.
pub mod Entry
pub mod Busy
pub mod Convolve
pub mod Tls
mod Tests
use chimera_sdk.Base.{
  ℕ, zero, suc, ◌+◌, ◌-◌, ◌*◌, ◌/◌, ◌^◌, List, [], ◌∷◌, bit_and, u32, sub32, ltb, ◌==◌,
  if◌then◌else◌,
}
use Prim.Native.Nat.{bit_xor}
use chimera_sdk.Mmio.{Regs, write32}
use chimera_sdk.Offload.{put_at, cluster_hart_base, soc_ctrl_base}

-- The core: its hart, the address of the next function, the registers by their numbers, and the
-- memory, one word at each address.
pub record Core : Type 0 where
  pub mhartid : ℕ
  pub pc : ℕ
  pub x : ℕ → ℕ
  pub mem : Regs

-- The numbers of the registers that are used.
abbrev pub sp : ℕ
sp = 2

abbrev pub gp : ℕ
gp = 3

abbrev pub tp : ℕ
tp = 4

abbrev pub t0 : ℕ
t0 = 5

abbrev pub t1 : ℕ
t1 = 6

abbrev pub t2 : ℕ
t2 = 7

abbrev pub a0 : ℕ
a0 = 10

abbrev pub a1 : ℕ
a1 = 11

abbrev pub t3 : ℕ
t3 = 28

-- The instructions: the target first. Immediates are 32-bit words, `li` is also `la`, and an operand
-- of an `asm` statement stands as its value. `jr` is `jalr` with the zero register: it clears bit 0 of
-- its target.
pub data Instr : Type 0 where
  csrr_mhartid : ℕ → Instr
  li : ℕ → ℕ → Instr
  addi : ℕ → ℕ → ℕ → Instr
  andi : ℕ → ℕ → ℕ → Instr
  xori : ℕ → ℕ → ℕ → Instr
  slli : ℕ → ℕ → ℕ → Instr
  add : ℕ → ℕ → ℕ → Instr
  sub : ℕ → ℕ → ℕ → Instr
  mv : ℕ → ℕ → Instr
  sltu_operand : ℕ → ℕ → ℕ → Instr
  add_operand : ℕ → ℕ → ℕ → Instr
  lw : ℕ → ℕ → Instr
  sw : ℕ → ℕ → Instr
  jr : ℕ → Instr

abbrev pub set : ℕ → ℕ → Core → Core
set rd v c = record c { x = put_at c.x rd v }

abbrev pub exec : Instr → Core → Core
exec (csrr_mhartid rd) c = set rd c.mhartid c
exec (li rd v) c = set rd v c
exec (addi rd rs imm) c = set rd (u32 (c.x rs + imm)) c
exec (andi rd rs imm) c = set rd (bit_and (c.x rs) imm) c
exec (xori rd rs imm) c = set rd (bit_xor (c.x rs) imm) c
exec (slli rd rs n) c = set rd (u32 (c.x rs * 2 ^ n)) c
exec (add rd rs rs2) c = set rd (u32 (c.x rs + c.x rs2)) c
exec (sub rd rs rs2) c = set rd (sub32 (c.x rs) (c.x rs2)) c
exec (mv rd rs) c = set rd (c.x rs) c
exec (sltu_operand rd rs v) c = set rd (if ltb (c.x rs) v then 1 else 0) c
exec (add_operand rd v rs) c = set rd (u32 (v + c.x rs)) c
exec (lw rd rs) c = set rd (c.mem (c.x rs)) c
exec (sw rs rd) c = record c { mem = write32 (c.x rd) (c.x rs) c.mem }
exec (jr rs) c = record c { pc = c.x rs / 2 * 2 }

pub exec_all : List Instr → Core → Core
exec_all [] c = c
exec_all (i ∷ is) c = exec_all is (exec i c)

-- What the linker chooses: the symbols, and the offsets of the arrays in `shared_data`.
pub record Layout : Type 0 where
  pub global_pointer : ℕ
  pub shared_data : ℕ
  pub off_stack : ℕ
  pub off_func : ℕ
  pub off_args : ℕ
  pub tdata_start : ℕ
  pub tdata_end : ℕ
  pub tbss_start : ℕ
  pub tbss_end : ℕ

-- The word of a negative immediate.
abbrev pub minus : ℕ → ℕ
minus n = 2 ^ 32 - n

-- `trampoline`, with `_SETUP_GP`
abbrev pub trampoline : Layout → List Instr
trampoline l =
    li gp l.global_pointer
    ∷ csrr_mhartid t0
    ∷ li a0 l.shared_data
    ∷ addi a0 a0 l.off_stack
    ∷ addi t0 t0 (minus cluster_hart_base)
    ∷ slli t0 t0 2
    ∷ add a0 a0 t0
    ∷ lw sp a0
    ∷ li t1 l.tdata_end
    ∷ li t2 l.tdata_start
    ∷ sub t1 t1 t2
    ∷ sub sp sp t1
    ∷ li t1 l.tbss_end
    ∷ li t2 l.tbss_start
    ∷ sub t1 t1 t2
    ∷ sub sp sp t1
    ∷ mv tp sp
    ∷ andi sp sp (minus 15)
    ∷ li a1 l.shared_data
    ∷ addi a1 a1 l.off_func
    ∷ add a1 a1 t0
    ∷ lw a1 a1
    ∷ li a0 l.shared_data
    ∷ addi a0 a0 l.off_args
    ∷ add a0 a0 t0
    ∷ lw a0 a0
    ∷ jr a1
    ∷ []

abbrev pub busy_base : ℕ
busy_base = soc_ctrl_base + 0x5c

-- `__CLUSTER_ID_ASM`, with the four thresholds that its uses give
abbrev pub cluster_id_asm : (first second third fourth : ℕ) → List Instr → List Instr
cluster_id_asm first second third fourth rest =
    csrr_mhartid t0
    ∷ li t1 0
    ∷ sltu_operand t3 t0 first
    ∷ xori t3 t3 1
    ∷ add t1 t1 t3
    ∷ sltu_operand t3 t0 second
    ∷ xori t3 t3 1
    ∷ add t1 t1 t3
    ∷ sltu_operand t3 t0 third
    ∷ xori t3 t3 1
    ∷ add t1 t1 t3
    ∷ sltu_operand t3 t0 fourth
    ∷ xori t3 t3 1
    ∷ add t1 t1 t3
    ∷ rest

-- `_SET_CLUSTER_BUSY` with 1, `_CLEAR_CLUSTER_BUSY` with 0
abbrev pub write_cluster_busy : ℕ → List Instr
write_cluster_busy v =
    cluster_id_asm 10 19 28 37
      (slli t1 t1 2 ∷ add_operand t1 busy_base t1 ∷ li t2 v ∷ sw t2 t1 ∷ [])

-- The same on chimera-convolve, with the numbers of cores of its clusters.
abbrev pub chimera_write_cluster_busy : ℕ → List Instr
chimera_write_cluster_busy v =
    cluster_id_asm 3 5 7 9 (slli t1 t1 2 ∷ add_operand t1 busy_base t1 ∷ li t2 v ∷ sw t2 t1 ∷ [])
