-- ===== src/Alloc/Tests.antt =====
-- The allocator on a heap of a kilobyte: runs, and the theorems applied to them.
use chimera_sdk.Base.{◌+◌, ◌-◌, ◌^◌, ◌%◌, ◌<◌, ◌≤◌, ◌≡◌, ◌⊎◌, refl, arith, [], ◌∷◌, IsDistinct}
use chimera_sdk.Alloc.{
  rv32, modulus, Heap, update, total_size, payload, walk, returned, bump, malloc, free,
}
use chimera_sdk.Alloc.Valid.{IsValid}
use chimera_sdk.Alloc.Malloc.{Malloced, malloc-Malloced, free-IsValid, malloc-free}
use chimera_sdk.Alloc.Client.{World, Step, gets, Reach, booted, call}
use chimera_sdk.Alloc.History.{boot, IsRegion, Reach-inside, Reach-apart}
use chimera_sdk.Alloc.Overflow.{malloc_wraps}

abbrev start : World
start = boot 1024 2048

abbrev heap_1 : Heap
heap_1 = record start.heap { size = update start.heap.size 1024 4; heap_start = 1036 }

abbrev world_1 : World
world_1 = record { heap = heap_1; live = 1032 ∷ []; asked = update start.asked 1032 4 }

abbrev heap_2 : Heap
heap_2 = record heap_1 { size = update heap_1.size 1036 8; heap_start = 1052 }

abbrev world_2 : World
world_2 = record { heap = heap_2; live = 1044 ∷ 1032 ∷ []; asked = update world_1.asked 1044 8 }

first_call : Step rv32 start world_1
unfolding malloc walk bump payload total_size
first_call = gets 1 4 1032 heap_1 (omega arith, omega arith) refl (omega arith) refl

second_call : Step rv32 world_1 world_2
unfolding malloc walk bump payload total_size
second_call = gets 1 8 1044 heap_2 (omega arith, omega arith) refl (omega arith) refl

region : IsRegion rv32 1024 2048
region = record {
  lo_pos = omega arith;
  lo_aligned = refl;
  ordered = omega arith;
  in_space = omega arith;
}

two_calls : Reach rv32 start world_2
two_calls = call (call booted first_call) second_call

Reach-inside_example :
    (1024 ≤ 1032) × (1032 + 4 ≤ 2048) × (1032 % 4 ≡ 0) × IsDistinct (1044 ∷ 1032 ∷ [])
Reach-inside_example = Reach-inside region two_calls 1032 refl

Reach-apart_example : (1032 + 4 ≤ 1044) ⊎ (1044 + 8 ≤ 1032)
Reach-apart_example = Reach-apart region two_calls 1032 1044 refl refl (omega arith)

-- The heap after the first call, with its one block in use.
heap_1-IsValid : IsValid rv32 1024 2048 heap_1 (1024 ∷ []) []
unfolding total_size
heap_1-IsValid = record {
  tiled = (omega arith, refl, refl);
  chain = refl;
  owned = λ a m. cc;
  lo_pos = omega arith;
  lo_aligned = refl;
  fits = omega arith;
  end_is = refl;
  in_space = omega arith;
}

small_Fits : 2048 + total_size rv32 8 < modulus rv32
unfolding total_size
small_Fits = omega arith

malloc-Malloced_example : Malloced rv32 1024 2048 heap_1 (1024 ∷ []) [] 8 (malloc rv32 1 heap_1 8)
malloc-Malloced_example = malloc-Malloced heap_1-IsValid 1 8 (omega arith) small_Fits (omega arith)

free-IsValid_example :
    IsValid rv32 1024 2048 (free rv32 heap_1 1032) (1024 ∷ []) (1024 ∷ [])
    × ((free rv32 heap_1 1032).size ≡ heap_1.size)
    × ((free rv32 heap_1 1032).freelist ≡ 1024)
free-IsValid_example = free-IsValid heap_1-IsValid 1024 refl refl

malloc-free_example :
    (s' : Heap) × (malloc rv32 2 (free rv32 heap_1 1032) 3 ≡ returned 1032 s')
    × IsValid rv32 1024 2048 s' (1024 ∷ []) []
malloc-free_example = malloc-free heap_1-IsValid 2 3 1024 refl refl (omega arith) (omega arith)

malloc_wraps_example :
    (s' : Heap) × (malloc rv32 1 start.heap (2 ^ 32 - 4) ≡ returned 1032 s')
    × (s'.size 1024 ≡ 2 ^ 32 - 4)
    × (2048 < 1032 + (2 ^ 32 - 4))
    × (s'.heap_start ≤ 1032)
malloc_wraps_example =
    malloc_wraps rv32 0 start.heap (2 ^ 32 - 4) refl (omega arith) (omega arith) (omega arith)
      (omega arith) (omega arith)
