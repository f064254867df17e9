-- ===== src/Alloc/Overflow.antt =====
-- Requests near `SIZE_MAX`: `total_size` wraps, and `region_malloc` hands out a block that is
-- smaller than its recorded size.
use chimera_sdk.Base.{ℕ, suc, ◌+◌, ◌≤◌, ◌<◌, ◌%◌, ◌≡◌, refl, arith, ==-self}
use native.Mathlib.Nat.{mod-eq_of_lt}
use chimera_sdk.Alloc.{
  Xlen, rv32, rv64, modulus, header, Heap, head, total_size, payload, update, walk, miss, returned,
  bump, malloc,
}

-- The wrapped size covers at most a header.
total_size_wrapped :
    (x : Xlen) (need : ℕ)
    → modulus x ≤ need + header x + 3
    → need < modulus x
    → total_size x need ≤ header x
unfolding total_size
total_size_wrapped rv32 need over small = omega arith
total_size_wrapped rv64 need over small = omega arith

payload_of_fits : (x : Xlen) (b : ℕ) → b + header x < modulus x → payload x b ≡ b + header x
unfolding payload
payload_of_fits rv32 b h = omega arith
payload_of_fits rv64 b h = omega arith

walk-empty : (fuel : ℕ) (s : Heap) (need : ℕ) → walk (suc fuel) s need head 0 ≡ miss
unfolding walk
walk-empty fuel s need = refl

-- A request so large that `ALLOC_ALIGN(size + sizeof(MemoryBlock))` wraps is granted while the
-- free list is empty and one more header fits the heap: the returned block is recorded with the
-- requested size, and the bytes promised at the returned pointer run past the end of the heap,
-- while the bump pointer has moved by at most a header.
pub malloc_wraps :
    (x : Xlen) (fuel : ℕ) (s : Heap) (need : ℕ)
    → s.freelist ≡ 0
    → modulus x ≤ need + header x + 3
    → need < modulus x
    → s.heap_start + header x ≤ s.heap_end
    → s.heap_end + 3 < modulus x
    → 0 < s.heap_start
    → (s' : Heap) × (malloc x (suc fuel) s need ≡ returned (s.heap_start + header x) s')
      × (s'.size s.heap_start ≡ need)
      × (s.heap_end < s.heap_start + header x + need)
      × (s'.heap_start ≤ s.heap_start + header x)
unfolding malloc bump
malloc_wraps x fuel s need empty over small room space pos = (
  record s {
    size = update s.size s.heap_start need;
    heap_start = s.heap_start + total_size x need;
  },
  rw (empty, walk-empty, no_wrap, payload_of_fits x s.heap_start (omega arith))
      (ground (arith, wrapped)),
  rw (==-self s.heap_start) refl,
  omega arith,
  omega (arith, wrapped),
)
  where
    wrapped : total_size x need ≤ header x
    wrapped = total_size_wrapped x need over small

    no_wrap : (s.heap_start + total_size x need) % modulus x ≡ s.heap_start + total_size x need
    no_wrap = mod-eq_of_lt (omega (arith, wrapped))
