-- ===== src/Start/Tests.antt =====
-- A library whose DMA makes the transfers in turn, a small image, and the theorems applied to them.
use chimera_sdk.Base.{
  ℕ, ◌+◌, ◌*◌, ◌/◌, ◌<◌, ◌≡◌, refl, inl, inr, arith, true, [], some, none, ◌⊎◌, ◌==◌, if◌then◌else◌,
}
use chimera_sdk.Mmio.{Regs}
use chimera_sdk.Offload.{return_reg}
use chimera_sdk.Trampoline.{Layout}
use chimera_sdk.Trampoline.Tls.{init_tls}
use chimera_sdk.Start.{Library, Symbols, State, Allocator, snrt_init, snrt_exit}
use chimera_sdk.Start.Dma.{in_turn}
use chimera_sdk.Start.Image.{IsLibrary, IsImage}
use chimera_sdk.Start.Load.{IsLoaded, snrt_init-IsLoaded}
use chimera_sdk.Start.Exit.{polled, snrt_exit-misses}

abbrev library : Library
library = record {
  is_dm_core = true;
  cluster_idx = 1;
  zero_memory = 0x30000;
  l1_end = 0x20000;
  sizeof_cls = 20;
  min_chunk_size = 8;
  align_up = λ a n. (a + 7) / 8 * 8;
  l1_alloc = λ size l. (l.next, record l { next = l.next + (size + 7) / 8 * 8 });
  finish = in_turn;
}

library-IsLibrary : IsLibrary library
library-IsLibrary = record {
  dma = λ ts mem a h. refl;
  up = λ a. omega arith;
  next_up = λ a. omega arith;
  aligned = λ a. omega arith;
  alloc = λ size l room. refl;
}

-- 16 bytes of cluster data, 8 of local data and 4 that are zeroed.
abbrev symbols : Symbols
symbols = record {
  base_l1_alias = 0x1000000;
  cdata_start = 0x1000100;
  cdata_end = 0x1000108;
  cdata_lma_start = 0x50000;
  cbss_start = 0x1000108;
  cbss_end = 0x100010C;
  l3_heap_start = 0x60001;
  l3_heap_end = 0x70000;
  l1_lma_start = λ c. 0x51000;
  l1_lma_end = λ c. 0x51010;
  l1_start = λ c. 0x10000;
  cluster_base = λ c. 0x10000;
  heap_start = λ c. 0x11000;
}

symbols-IsImage : IsImage library symbols
symbols-IsImage = record {
  cdata_l1 = record {
    writes = inr (omega arith);
    reads = inr (omega arith);
    read_by = inl (omega arith);
  };
  cbss_l1 = record {
    writes = inr (omega arith);
    reads = inr (omega arith);
    read_by = inl (omega arith);
  };
  cbss_cdata = record {
    writes = inr (omega arith);
    reads = inr (omega arith);
    read_by = inl (omega arith);
  };
  cdata_aliased = omega arith;
  cdata_fits = (omega arith, omega arith);
  cbss_aliased = omega arith;
  cbss_fits = (omega arith, omega arith);
  heap_fits = omega arith;
  l1_off = inl (omega arith);
  cdata_off = inl (omega arith);
  cbss_off = inl (omega arith);
  heap_room = omega arith;
}

abbrev layout : Layout
layout = record {
  global_pointer = 0;
  shared_data = 0;
  off_stack = 0;
  off_func = 0;
  off_args = 0;
  tdata_start = 0x40000;
  tdata_end = 0x40008;
  tbss_start = 0x40008;
  tbss_end = 0x40010;
}

abbrev none_yet : Allocator
none_yet = record { base = 0; end = 0; next = 0 }

-- A memory of zeros, but for 7 in each byte of the image.
abbrev state : State
state = record {
  mem = λ a. if a / 0x10000 == 5 then 7 else 0;
  pending = [];
  cls_ptr = 0;
  l1_allocator = none_yet;
  l3_allocator = none_yet;
  printf_mutex = 0;
  barriers = 0;
}

zeros : (i : ℕ) → i < 4 → init_tls layout 0x18000 state.mem (0x30000 + i) ≡ 0
unfolding init_tls
zeros i lt = ground arith

snrt_init-IsLoaded_example :
    IsLoaded library symbols
      (init_tls layout 0x18000 state.mem)
      (snrt_init library symbols layout 0x18000 state)
    × ((snrt_init library symbols layout 0x18000 state).barriers ≡ 1)
snrt_init-IsLoaded_example =
    snrt_init-IsLoaded library symbols layout 0x18000 state library-IsLibrary symbols-IsImage refl
      refl zeros

abbrev last_cluster : ℕ
last_cluster = 4

snrt_exit-misses_example :
    ((last_cluster ≡ 0)
      × (return_reg 0 ≡ some (polled 0))
      × (t : Regs) × (snrt_exit last_cluster 5 (λ b. 0) ≡ some t)
      × (t (polled 0) ≡ 5))
    ⊎ (((last_cluster ≡ 4)
          × (return_reg last_cluster ≡ some (polled 4))
          × (return_reg 1 ≡ some (polled 1))
          × ((t : Regs) × (snrt_exit last_cluster 5 (λ b. 0) ≡ some t)
              × (t (polled 1) ≡ 5)
              × (t (polled 4) ≡ 0)))
        ⊎ ((0 < last_cluster) × (last_cluster < 4) × (snrt_exit last_cluster 5 (λ b. 0) ≡ none)))
snrt_exit-misses_example = snrt_exit-misses last_cluster 5 (λ b. 0) (omega arith)
