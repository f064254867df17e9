-- ===== src/Start.antt =====
-- The start and the exit of a core of a cluster, devices/snitch_cluster/runtime/init.c, behind the
-- thread-local storage of Trampoline.Tls, with snrt_printf_init of runtime/putc.c. What the Snitch
-- library does is a parameter: its DMA, its L1 allocator, its constants, and the rounding of an address.
pub mod Dma
pub mod Image
pub mod Load
pub mod Exit
mod Tests
use chimera_sdk.Base.{
  ℕ, ◌+◌, ◌-◌, ◌^◌, ◌≤◌, ◌<◌, ◌≡◌, ◌%◌, Bool, true, false, Option, none, some, List, [], ◌∷◌, u32,
  sub32, ◌==◌, leb, ltb, ◌&&◌, if◌then◌else◌,
}
use chimera_sdk.Mmio.{Regs, write32}
use chimera_sdk.Offload.{soc_ctrl_base}
use chimera_sdk.Trampoline.{Layout}
use chimera_sdk.Trampoline.Tls.{init_tls}

-- The arguments of `snrt_dma_start_1d`.
pub record Transfer : Type 0 where
  pub target : ℕ
  pub source : ℕ
  pub size : ℕ

-- The fields of an allocator of the library.
pub record Allocator : Type 0 where
  pub base : ℕ
  pub end : ℕ
  pub next : ℕ

-- The Snitch library as seen by one core: `snrt_is_dm_core`, `snrt_cluster_idx`,
-- `snrt_zero_memory_ptr`, `snrt_l1_end_addr`, `sizeof(cls_t)`, `MIN_CHUNK_SIZE`, `ALIGN_UP`,
-- `snrt_l1_alloc` with the L1 allocator before and after the call, and what `snrt_dma_wait_all` makes of
-- the memory, by bytes, and the transfers started, the last first.
pub record Library : Type 0 where
  pub is_dm_core : Bool
  pub cluster_idx : ℕ
  pub zero_memory : ℕ
  pub l1_end : ℕ
  pub sizeof_cls : ℕ
  pub min_chunk_size : ℕ
  pub align_up : ℕ → ℕ → ℕ
  pub l1_alloc : (size : ℕ) → Allocator → ℕ × Allocator
  pub finish : List Transfer → (ℕ → ℕ) → ℕ → ℕ

-- The symbols of the linker script, and the tables by cluster.
pub record Symbols : Type 0 where
  pub base_l1_alias : ℕ
  pub cdata_start : ℕ
  pub cdata_end : ℕ
  pub cdata_lma_start : ℕ
  pub cbss_start : ℕ
  pub cbss_end : ℕ
  pub l3_heap_start : ℕ
  pub l3_heap_end : ℕ
  pub l1_lma_start : ℕ → ℕ
  pub l1_lma_end : ℕ → ℕ
  pub l1_start : ℕ → ℕ
  pub cluster_base : ℕ → ℕ
  pub heap_start : ℕ → ℕ

-- The state that `snrt_init` changes: the memory, the transfers started and not waited for, `_cls_ptr`,
-- the allocators, `_snrt_printf_mutex_ptr`, and the barriers passed.
pub record State : Type 0 where
  pub mem : ℕ → ℕ
  pub pending : List Transfer
  pub cls_ptr : ℕ
  pub l1_allocator : Allocator
  pub l3_allocator : Allocator
  pub printf_mutex : ℕ
  pub barriers : ℕ

-- `if (size) snrt_dma_start_1d(target, source, size);`
unfoldable pub start_1d : Transfer → List Transfer → List Transfer
start_1d t ts = if t.size == 0 then ts else t ∷ ts

-- The translation of an address of the alias to the cluster's own memory.
abbrev pub local_start : Symbols → ℕ → ℕ → ℕ
local_start y idx a = u32 (sub32 a y.base_l1_alias + y.cluster_base idx)

-- The three transfers.
abbrev pub l1_transfer : Symbols → ℕ → Transfer
l1_transfer y idx = record {
  target = y.l1_start idx;
  source = y.l1_lma_start idx;
  size = sub32 (y.l1_lma_end idx) (y.l1_lma_start idx);
}

abbrev pub cdata_transfer : Symbols → ℕ → Transfer
cdata_transfer y idx = record {
  target = local_start y idx y.cdata_start;
  source = y.cdata_lma_start;
  size = sub32 y.cdata_end y.cdata_start;
}

abbrev pub cbss_transfer : Library → Symbols → ℕ → Transfer
cbss_transfer lib y idx = record {
  target = local_start y idx y.cbss_start;
  source = lib.zero_memory;
  size = sub32 y.cbss_end y.cbss_start;
}

abbrev pub allocator : Library → (start end : ℕ) → Allocator
allocator lib start end =
    let base = lib.align_up start lib.min_chunk_size in
    record { base = base; end = end; next = base }

-- The store of 0 to the word at `p`.
abbrev pub clear_word : ℕ → (ℕ → ℕ) → ℕ → ℕ
clear_word p mem a = if leb p a && ltb a (p + 4) then 0 else mem a

-- `snrt_printf_init`
pub snrt_printf_init : Library → State → State
snrt_printf_init lib s =
    let r = lib.l1_alloc 4 s.l1_allocator in
    record s { printf_mutex = r.0; l1_allocator = r.1; mem = clear_word r.0 s.mem }

-- The part of `snrt_init` for the core with the DMA.
pub init_cluster : Library → Symbols → State → State
init_cluster lib y s =
    let idx = lib.cluster_idx in
    let l1_heap_base = y.heap_start idx in
    let started =
      start_1d (cbss_transfer lib y idx)
        (start_1d (cdata_transfer y idx) (start_1d (l1_transfer y idx) s.pending)) in
    snrt_printf_init lib (record s {
      mem = lib.finish started s.mem;
      pending = [];
      cls_ptr = l1_heap_base;
      l1_allocator = allocator lib (u32 (l1_heap_base + lib.sizeof_cls)) lib.l1_end;
      l3_allocator = allocator lib y.l3_heap_start y.l3_heap_end;
    })

-- `snrt_init` with the thread pointer `tp`.
pub snrt_init : Library → Symbols → Layout → ℕ → State → State
snrt_init lib y l tp s =
    let stored = record s { mem = init_tls l tp s.mem } in
    let loaded = if lib.is_dm_core then init_cluster lib y stored else stored in
    record loaded { barriers = loaded.barriers + 1 }

-- The address that `snrt_exit` writes, and the write; `none` if it is not the address of a register,
-- which memory by words does not cover.
abbrev pub exit_reg : ℕ → ℕ
exit_reg cluster_idx = soc_ctrl_base + 0xc + cluster_idx

pub snrt_exit : ℕ → ℕ → Regs → Option Regs
snrt_exit cluster_idx exit_code regs =
    if exit_reg cluster_idx % 4 == 0
    then some (write32 (exit_reg cluster_idx) exit_code regs)
    else none
