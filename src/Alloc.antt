-- ===== src/Alloc.antt =====
-- The memory island allocator, host/runtime/src/alloc.c with host/runtime/inc/alloc.h: a first-fit
-- free list in front of a bump pointer, over an explicit store of block headers.
pub mod FirstFit
pub mod Valid
pub mod Malloc
pub mod Client
pub mod Sound
pub mod History
pub mod Overflow
mod Tests
use chimera_sdk.Base.{
  ℕ, zero, suc, ◌+◌, ◌-◌, ◌*◌, ◌/◌, ◌%◌, ◌^◌, true, false, ltb, leb, ◌==◌, if◌then◌else◌,
}

-- The host is built for RV32 or for RV64.
pub data Xlen : Type 0 where
  rv32 rv64 : Xlen

-- `SIZE_MAX + 1`
abbrev pub modulus : Xlen → ℕ
modulus rv32 = 2 ^ 32
modulus rv64 = 2 ^ 64

-- `sizeof(MemoryBlock)`: a pointer and a `size_t`.
abbrev pub header : Xlen → ℕ
header rv32 = 8
header rv64 = 16

-- Address 0 is `NULL`.
abbrev pub Ptr : Type 0
Ptr = ℕ

-- The statics of alloc.c and the fields of the block headers, by the block's address. The headers
-- of two blocks do not overlap (`Alloc.Valid.blocks_apart`), so the two fields are two maps.
pub record Heap : Type 0 where
  pub heap_start : Ptr
  pub heap_end : Ptr
  pub freelist : Ptr
  pub next : Ptr → Ptr
  pub size : Ptr → ℕ

-- `ALLOC_ALIGN`: the sum wraps, and `& ~3` clears the two low bits.
abbrev pub alloc_align : Xlen → ℕ → ℕ
alloc_align x n = (n + 3) % modulus x / 4 * 4

-- `total_size` of `region_malloc`, with the wrap of `size + sizeof(MemoryBlock)`.
unfoldable pub total_size : Xlen → ℕ → ℕ
total_size x n = alloc_align x ((n + header x) % modulus x)

-- `curr + 1` and `(uint8_t *)ptr - sizeof(MemoryBlock)`
unfoldable pub payload : Xlen → Ptr → Ptr
payload x b = (b + header x) % modulus x

unfoldable pub block_of : Xlen → Ptr → Ptr
block_of x p = (p + modulus x - header x) % modulus x

-- A `MemoryBlock **`: the address of the list's head or of a block's `next`.
pub data Link : Type 0 where
  head : Link
  next_of : Ptr → Link

abbrev pub load_link : Heap → Link → Ptr
load_link s head = s.freelist
load_link s (next_of b) = s.next b

-- A map changed at one address.
abbrev pub update : (Ptr → ℕ) → Ptr → ℕ → Ptr → ℕ
update f a v b = if b == a then v else f b

abbrev pub store_link : Heap → Link → Ptr → Heap
store_link s head p = record s { freelist = p }
store_link s (next_of b) p = record s { next = update s.next b p }

-- What the walk along the free list comes to: a block unlinked, the end of the list, or no more
-- rounds.
pub data WalkResult : Type 0 where
  hit : Ptr → Heap → WalkResult
  miss : WalkResult
  tired : WalkResult

-- `while (curr) { … }`, with a bound on its rounds.
pub walk : ℕ → Heap → ℕ → Link → Ptr → WalkResult
walk zero s need prev curr = tired
walk (suc fuel) s need prev curr = elim (curr == 0) [
  | true ↦ miss
  | false ↦ elim (leb need (s.size curr)) [
    | true ↦ hit curr (store_link s prev (s.next curr))
    | false ↦ walk fuel s need (next_of curr) (s.next curr)
  ]
]

-- A returned pointer with the new state; `stuck` if the rounds did not suffice.
pub data Outcome : Type 0 where
  returned : Ptr → Heap → Outcome
  stuck : Outcome

-- The part of `region_malloc` behind the loop: carve a block at the bump pointer.
pub bump : Xlen → Heap → ℕ → Outcome
bump x s need =
    let total = total_size x need in
    let b = s.heap_start in
    if ltb s.heap_end ((b + total) % modulus x)
    then returned 0 s
    else returned (payload x b)
        (record s { size = update s.size b need; heap_start = (b + total) % modulus x })

abbrev pub after_walk : Xlen → Heap → ℕ → WalkResult → Outcome
after_walk x s need (hit b s') = returned (payload x b) s'
after_walk x s need miss = bump x s need
after_walk x s need tired = stuck

-- `region_malloc`, and `memory_island_malloc` on the one region that there is.
pub malloc : Xlen → ℕ → Heap → ℕ → Outcome
malloc x fuel s need = after_walk x s need (walk fuel s need head s.freelist)

-- `region_free` and `memory_island_free`
pub free : Xlen → Heap → Ptr → Heap
free x s p =
    if p == 0
    then s
    else let b = block_of x p in record s { next = update s.next b s.freelist; freelist = b }
