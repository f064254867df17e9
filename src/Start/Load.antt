-- ===== src/Start/Load.antt =====
-- What `snrt_init` has loaded into a cluster's memory when it returns.
use chimera_sdk.Base.{
  ℕ, ◌+◌, ◌-◌, ◌≤◌, ◌<◌, ◌≡◌, ◌∙◌, ◌⊎◌, inl, inr, leb, ltb, ◌&&◌, false, refl, ap, arith, Bool,
  true, [], u32, sub32, if◌then◌else◌,
}
use chimera_sdk.Trampoline.{Layout}
use chimera_sdk.Trampoline.Tls.{init_tls}
use chimera_sdk.Start.{
  Transfer, Library, Symbols, State, Allocator, start_1d, l1_transfer, cdata_transfer,
  cbss_transfer, allocator, init_cluster, snrt_init, clear_word, snrt_printf_init,
}
use chimera_sdk.Start.Dma.{IsDisjoint-out}
use chimera_sdk.Start.Image.{
  IsLibrary, IsImage, first_chunk, IsOffHeap, through_alias, IsFresh, allocator-IsFresh, loaded,
  local_start_lem, after, l1_byte, cdata_byte, cbss_byte,
}

-- What a cluster finds when its cores pass the barrier of `snrt_init`; `before` is the memory with
-- the thread-local storage set up.
pub record IsLoaded (lib : Library) (y : Symbols) (before : ℕ → ℕ) (s : State) : Type 0 where
  pub l1_data :
      (i : ℕ)
      → i < (l1_transfer y lib.cluster_idx).size
      → s.mem (y.l1_start lib.cluster_idx + i) ≡ before (y.l1_lma_start lib.cluster_idx + i)
  pub cdata :
      (i : ℕ)
      → i < sub32 y.cdata_end y.cdata_start
      → through_alias lib y s.mem (y.cdata_start + i) ≡ before (y.cdata_lma_start + i)
  pub cbss :
      (i : ℕ) → i < sub32 y.cbss_end y.cbss_start → through_alias lib y s.mem (y.cbss_start + i) ≡ 0
  pub waited : s.pending ≡ []
  pub l1_fresh : Allocator
  pub l1_fresh-IsFresh :
      IsFresh lib (y.heap_start lib.cluster_idx + lib.sizeof_cls) lib.l1_end l1_fresh
  pub l1_used :
      s.l1_allocator ≡ record l1_fresh { next = l1_fresh.next + lib.align_up 4 lib.min_chunk_size }
  pub mutex_at : s.printf_mutex ≡ l1_fresh.next
  pub mutex_free : (i : ℕ) → i < 4 → s.mem (s.printf_mutex + i) ≡ 0
  pub l3_fresh : IsFresh lib y.l3_heap_start y.l3_heap_end s.l3_allocator
  pub cls_at : s.cls_ptr ≡ y.heap_start lib.cluster_idx

clear_word-kept : (p : ℕ) (mem : ℕ → ℕ) (a : ℕ) → (a < p) ⊎ (p + 4 ≤ a) → clear_word p mem a ≡ mem a
clear_word-kept p mem a out =
    let outside : (leb p a && ltb a (p + 4)) ≡ false = ground arith in rw outside refl

clear_word_lem : (p : ℕ) (mem : ℕ → ℕ) (i : ℕ) → i < 4 → clear_word p mem (p + i) ≡ 0
clear_word_lem p mem i lt =
    let inside : (leb p (p + i) && ltb (p + i) (p + 4)) ≡ true = ground arith in rw inside refl

-- A byte of a transfer that is off the heap is none of the mutex.
off_mutex :
    (lib : Library) (y : Symbols) (t : Transfer) (i : ℕ)
    → IsLibrary lib
    → IsImage lib y
    → IsOffHeap lib y t
    → i < t.size
    → (t.target + i < first_chunk lib y) ⊎ (first_chunk lib y + 4 ≤ t.target + i)
off_mutex lib y t i good image off lt =
    let start = y.heap_start lib.cluster_idx in
    let above = good.up (start + lib.sizeof_cls) in
    let four = good.up 4 in
    elim (IsDisjoint-out t.target t.size start (lib.l1_end - start) i off lt) [
      | inl before ↦ inl (omega (arith, before, above))
      | inr behind ↦ inr (omega (arith, behind, above, four, image.heap_room))
    ]

if_true : {A : Type 0} (x : Bool) (t u : A) → x ≡ true → (if x then t else u) ≡ t
if_true x t u e = rw e refl

-- The state behind the barrier of a core with the DMA.
abbrev passed : Library → Symbols → (ℕ → ℕ) → State → State
passed lib y mem s = record (init_cluster lib y (record s { mem = mem })) {
  barriers = s.barriers + 1;
}

snrt_init-passed :
    (lib : Library) (y : Symbols) (l : Layout) (tp : ℕ) (s : State)
    → lib.is_dm_core ≡ true
    → snrt_init lib y l tp s ≡ passed lib y (init_tls l tp s.mem) s
unfolding snrt_init init_cluster snrt_printf_init
snrt_init-passed lib y l tp s dm =
    ap {A = State} (λ t. record t { barriers = t.barriers + 1 })
      (if_true lib.is_dm_core (init_cluster lib y (record s { mem = init_tls l tp s.mem })) _ dm)

-- The allocation of the mutex.
mutex_allocated :
    (lib : Library) (y : Symbols)
    → IsLibrary lib
    → IsImage lib y
    → lib.l1_alloc 4
        (allocator lib (u32 (y.heap_start lib.cluster_idx + lib.sizeof_cls)) lib.l1_end)
      ≡ (
        first_chunk lib y,
        record {
          base = first_chunk lib y;
          end = lib.l1_end;
          next = first_chunk lib y + lib.align_up 4 lib.min_chunk_size;
        },
      )
mutex_allocated lib y good image =
    let start = y.heap_start lib.cluster_idx + lib.sizeof_cls in
    let at : u32 start ≡ start = omega (arith, image.heap_fits) in
    rw at (good.alloc 4 (allocator lib start lib.l1_end) image.heap_room)

-- The memory behind the transfers, as the DMA leaves it.
abbrev transferred : Library → Symbols → (ℕ → ℕ) → ℕ → ℕ
transferred lib y mem =
    lib.finish
      (start_1d (cbss_transfer lib y lib.cluster_idx)
        (start_1d (cdata_transfer y lib.cluster_idx) (start_1d (l1_transfer y lib.cluster_idx) [])))
      mem

passed-mem :
    (lib : Library) (y : Symbols) (mem : ℕ → ℕ) (s : State) (a : ℕ) (image : IsImage lib y)
    → IsLibrary lib
    → s.pending ≡ []
    → (a < first_chunk lib y) ⊎ (first_chunk lib y + 4 ≤ a)
    → (passed lib y mem s).mem a ≡ after lib y image mem a
unfolding init_cluster snrt_printf_init
passed-mem lib y mem s a image good idle out =
    rw (mutex_allocated lib y good image, idle)
      (clear_word-kept (first_chunk lib y) (transferred lib y mem) a out
        ∙ loaded lib y mem a good image)

passed-IsLoaded :
    (lib : Library) (y : Symbols) (mem : ℕ → ℕ) (s : State)
    → IsLibrary lib
    → IsImage lib y
    → s.pending ≡ []
    → ((i : ℕ) → i < sub32 y.cbss_end y.cbss_start → mem (lib.zero_memory + i) ≡ 0)
    → IsLoaded lib y mem (passed lib y mem s)
unfolding init_cluster snrt_printf_init
passed-IsLoaded lib y mem s good image idle zeros =
    let idx = lib.cluster_idx in
    let end : (t : Transfer) (i : ℕ)
        → IsOffHeap lib y t
        → i < t.size
        → (passed lib y mem s).mem (t.target + i) ≡ after lib y image mem (t.target + i) =
      λ t i off lt.
        passed-mem lib y mem s (t.target + i) image good idle
          (off_mutex lib y t i good image off lt) in
    let allocated = mutex_allocated lib y good image in
    let cdata_at =
      local_start_lem lib y y.cdata_start image.cdata_aliased image.cdata_fits.0
        image.cdata_fits.1 in
    let cbss_at =
      local_start_lem lib y y.cbss_start image.cbss_aliased image.cbss_fits.0 image.cbss_fits.1 in
    record {
      l1_data = λ i lt. end (l1_transfer y idx) i image.l1_off lt ∙ l1_byte lib y image mem i lt;
      cdata = λ i lt.
          let at : y.cluster_base idx + (y.cdata_start + i - y.base_l1_alias)
              ≡ (cdata_transfer y idx).target + i =
            omega (arith, cdata_at, image.cdata_aliased) in
          rw at (end (cdata_transfer y idx) i image.cdata_off lt ∙ cdata_byte lib y image mem i lt);
      cbss = λ i lt.
          let at : y.cluster_base idx + (y.cbss_start + i - y.base_l1_alias)
              ≡ (cbss_transfer lib y idx).target + i =
            omega (arith, cbss_at, image.cbss_aliased) in
          rw at (
            end (cbss_transfer lib y idx) i image.cbss_off lt
            ∙ cbss_byte lib y image mem i lt
            ∙ zeros i lt);
      waited = refl;
      l1_fresh = allocator lib (y.heap_start idx + lib.sizeof_cls) lib.l1_end;
      l1_fresh-IsFresh = allocator-IsFresh lib (y.heap_start idx + lib.sizeof_cls) lib.l1_end good;
      l1_used = rw allocated refl;
      mutex_at = rw allocated refl;
      mutex_free = λ i lt.
          rw (allocated, idle) (clear_word_lem (first_chunk lib y) (transferred lib y mem) i lt);
      l3_fresh = allocator-IsFresh lib y.l3_heap_start y.l3_heap_end good;
      cls_at = refl;
    }

-- On the core with the DMA, with a library that keeps its promises, an image whose transfers are
-- independent and off the L1 heap, whose addresses do not wrap and whose L1 heap has room for a word,
-- a zero memory that reads 0 over the length of the
-- zeroed section, and no transfer under way: behind `snrt_init` the cluster's memory holds the
-- data of the cluster and, as its cores see it through the alias, the initial values of the local
-- data and zeros for the rest; no transfer is under way; both allocators start at the first chunk
-- behind the local storage and at the start of the L3 heap, that of the L3 is empty, and that of the L1
-- has handed out its first chunk only, in which the word of the mutex of printf is and reads 0; the
-- pointer to the local storage is set; and the core has passed one barrier.
pub snrt_init-IsLoaded :
    (lib : Library) (y : Symbols) (l : Layout) (tp : ℕ) (s : State)
    → IsLibrary lib
    → IsImage lib y
    → lib.is_dm_core ≡ true
    → s.pending ≡ []
    → ((i : ℕ) → i < sub32 y.cbss_end y.cbss_start → init_tls l tp s.mem (lib.zero_memory + i) ≡ 0)
    → IsLoaded lib y (init_tls l tp s.mem) (snrt_init lib y l tp s)
      × ((snrt_init lib y l tp s).barriers ≡ s.barriers + 1)
unfolding init_cluster snrt_printf_init
snrt_init-IsLoaded lib y l tp s good image dm idle zeros =
    rw (snrt_init-passed lib y l tp s dm)
      (passed-IsLoaded lib y (init_tls l tp s.mem) s good image idle zeros, refl)
