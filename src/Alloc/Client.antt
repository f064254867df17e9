-- ===== src/Alloc/Client.antt =====
-- Any sequence of calls by a client that frees only what it holds.
use chimera_sdk.Base.{
  ℕ, suc, ◌+◌, ◌<◌, ◌≤◌, ◌≡◌, ◌≢◌, ◌∙◌, List, ◌∷◌, true, arith, length, has, remove,
}
use chimera_sdk.Alloc.{
  Xlen, modulus, Ptr, Heap, head, total_size, update, returned, stuck, malloc, free,
}
use chimera_sdk.Alloc.FirstFit.{walk_mono}
use chimera_sdk.Alloc.Valid.{Fits, IsValid}
use chimera_sdk.Alloc.Malloc.{Malloced, malloc-Malloced}

-- The allocator with what its client holds: the pointers, and the size asked for at each.
pub record World : Type 0 where
  pub heap : Heap
  pub live : List Ptr
  pub asked : Ptr → ℕ

-- A request that does not wrap around the address space.
abbrev pub IsRequest : Xlen → Heap → ℕ → Type 0
IsRequest x s need = Fits x need × (s.heap_end + total_size x need < modulus x)

-- A call that returns: `memory_island_malloc` with a block or with `NULL`, and
-- `memory_island_free` of a pointer that the client holds, or of `NULL`.
pub data Step (x : Xlen) (w w' : World) : Type 0 where
  gets :
      (fuel need : ℕ) (p : Ptr) (s' : Heap)
      → IsRequest x w.heap need
      → malloc x fuel w.heap need ≡ returned p s'
      → p ≢ 0
      → w' ≡ record { heap = s'; live = p ∷ w.live; asked = update w.asked p need }
      → Step x w w'
  refused :
      (fuel need : ℕ) (s' : Heap)
      → IsRequest x w.heap need
      → malloc x fuel w.heap need ≡ returned 0 s'
      → w' ≡ record w { heap = s' }
      → Step x w w'
  gives :
      (p : Ptr)
      → has p w.live ≡ true
      → w' ≡ record w { heap = free x w.heap p; live = remove p w.live }
      → Step x w w'
  gives_null : w' ≡ record w { heap = free x w.heap 0 } → Step x w w'

pub data Reach (x : Xlen) (w : World) : World → Type 0 where
  booted : Reach x w w
  call : {u v : World} → Reach x w u → Step x u v → Reach x w v

-- More rounds do not change a call that has returned.
malloc_mono :
    (x : Xlen) (fuel more : ℕ) (s : Heap) (need : ℕ)
    → fuel ≤ more
    → malloc x fuel s need ≢ stuck
    → malloc x more s need ≡ malloc x fuel s need
unfolding malloc
malloc_mono x fuel more s need le ends =
    rw (walk_mono fuel more s need head s.freelist le (λ e. ends (rw e)))

pub malloc_answer :
    {x : Xlen} {lo hi : ℕ} {s : Heap} {blocks frees : List Ptr} {p : Ptr} {s' : Heap}
    (v : IsValid x lo hi s blocks frees) (fuel need : ℕ)
    → IsRequest x s need
    → malloc x fuel s need ≡ returned p s'
    → Malloced x lo hi s blocks frees need (returned p s')
malloc_answer {x} {s} {frees} v fuel need ask runs =
    let more : ℕ = fuel + suc (length frees) in
    rw (malloc_mono x fuel more s need (omega arith) (λ e. cc) ∙ runs) at
      (malloc-Malloced v more need ask.0 ask.1 (omega arith))
