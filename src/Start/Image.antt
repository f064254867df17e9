-- ===== src/Start/Image.antt =====
-- What the start of a cluster relies on in the Snitch library and in the linked image, and what the
-- three transfers then make of the memory.
use chimera_sdk.Base.{ℕ, ◌+◌, ◌-◌, ◌^◌, ◌%◌, ◌≤◌, ◌<◌, ◌≡◌, ◌∙◌, refl, arith, [], ◌∷◌}
use chimera_sdk.Start.{
  Transfer, Library, Symbols, Allocator, start_1d, local_start, l1_transfer, cdata_transfer,
  cbss_transfer, allocator,
}
use chimera_sdk.Start.Dma.{
  IsIndependent, IsIndependentOf, AreIndependent, in_turn, IsDma, in_turn_started,
  start_1d-AreIndependent, start_1d-IsIndependentOf, copied, kept, IsDisjoint, IsDisjoint-out,
  IsDisjoint-sym,
}

-- The library's promises: the DMA's, that `ALIGN_UP` gives the next multiple, and that the L1 allocator,
-- as long as it has room, hands out its next chunks.
pub record IsLibrary (lib : Library) : Type 0 where
  pub dma : IsDma lib.finish
  pub up : (a : ℕ) → a ≤ lib.align_up a lib.min_chunk_size
  pub next_up : (a : ℕ) → lib.align_up a lib.min_chunk_size < a + lib.min_chunk_size
  pub aligned : (a : ℕ) → lib.align_up a lib.min_chunk_size % lib.min_chunk_size ≡ 0
  pub alloc :
      (size : ℕ) (l : Allocator)
      → l.next + lib.align_up size lib.min_chunk_size ≤ l.end
      → lib.l1_alloc size l
        ≡ (l.next, record l { next = l.next + lib.align_up size lib.min_chunk_size })

-- The first chunk of a cluster's L1 heap, behind the local storage.
abbrev pub first_chunk : Library → Symbols → ℕ
first_chunk lib y = lib.align_up (y.heap_start lib.cluster_idx + lib.sizeof_cls) lib.min_chunk_size

-- The transfer writes nothing to the cluster's L1 heap.
abbrev pub IsOffHeap : Library → Symbols → Transfer → Type 0
IsOffHeap lib y t =
    IsDisjoint t.target t.size (y.heap_start lib.cluster_idx)
      (lib.l1_end - y.heap_start lib.cluster_idx)

-- An image whose three transfers for a cluster are independent and off its L1 heap, whose sections lie
-- behind the start of the alias, whose addresses do not wrap, and whose L1 heap has room for a word.
pub record IsImage (lib : Library) (y : Symbols) : Type 0 where
  pub cdata_l1 : IsIndependent (cdata_transfer y lib.cluster_idx) (l1_transfer y lib.cluster_idx)
  pub cbss_l1 : IsIndependent (cbss_transfer lib y lib.cluster_idx) (l1_transfer y lib.cluster_idx)
  pub cbss_cdata :
      IsIndependent (cbss_transfer lib y lib.cluster_idx) (cdata_transfer y lib.cluster_idx)
  pub cdata_aliased : y.base_l1_alias ≤ y.cdata_start
  pub cdata_fits :
      y.cdata_start < 2 ^ 32
      × (y.cluster_base lib.cluster_idx + (y.cdata_start - y.base_l1_alias) < 2 ^ 32)
  pub cbss_aliased : y.base_l1_alias ≤ y.cbss_start
  pub cbss_fits :
      y.cbss_start < 2 ^ 32
      × (y.cluster_base lib.cluster_idx + (y.cbss_start - y.base_l1_alias) < 2 ^ 32)
  pub heap_fits : y.heap_start lib.cluster_idx + lib.sizeof_cls < 2 ^ 32
  pub l1_off : IsOffHeap lib y (l1_transfer y lib.cluster_idx)
  pub cdata_off : IsOffHeap lib y (cdata_transfer y lib.cluster_idx)
  pub cbss_off : IsOffHeap lib y (cbss_transfer lib y lib.cluster_idx)
  pub heap_room : first_chunk lib y + lib.align_up 4 lib.min_chunk_size ≤ lib.l1_end

-- The memory of the cluster as its cores see it through the alias.
abbrev pub through_alias : Library → Symbols → (ℕ → ℕ) → ℕ → ℕ
through_alias lib y mem a = mem (y.cluster_base lib.cluster_idx + (a - y.base_l1_alias))

-- An allocator that is empty and starts at the first chunk from `start` on.
pub record IsFresh (lib : Library) (start end : ℕ) (l : Allocator) : Type 0 where
  pub above : start ≤ l.base
  pub near : l.base < start + lib.min_chunk_size
  pub aligned : l.base % lib.min_chunk_size ≡ 0
  pub unused : l.next ≡ l.base
  pub ends : l.end ≡ end

pub allocator-IsFresh :
    (lib : Library) (start end : ℕ)
    → IsLibrary lib
    → IsFresh lib start end (allocator lib start end)
allocator-IsFresh lib start end good = record {
  above = good.up start;
  near = good.next_up start;
  aligned = good.aligned start;
  unused = refl;
  ends = refl;
}

-- The memory behind the three transfers.
pub loaded :
    (lib : Library) (y : Symbols) (mem : ℕ → ℕ) (a : ℕ)
    → IsLibrary lib
    → IsImage lib y
    → let l1 = l1_transfer y lib.cluster_idx in
      let cdata = cdata_transfer y lib.cluster_idx in
      let cbss = cbss_transfer lib y lib.cluster_idx in
      lib.finish (start_1d cbss (start_1d cdata (start_1d l1 []))) mem a
      ≡ in_turn (cbss ∷ cdata ∷ l1 ∷ []) mem a
loaded lib y mem a good image =
    let l1 = l1_transfer y lib.cluster_idx in
    let cdata = cdata_transfer y lib.cluster_idx in
    let cbss = cbss_transfer lib y lib.cluster_idx in
    let first = start_1d l1 [] in
    let second = start_1d cdata first in
    let first_all : AreIndependent first = start_1d-AreIndependent l1 [] tt tt in
    let second_off : IsIndependentOf cdata first =
      start_1d-IsIndependentOf cdata l1 [] image.cdata_l1 tt in
    let second_all : AreIndependent second =
      start_1d-AreIndependent cdata first second_off first_all in
    let third_off : IsIndependentOf cbss second =
      start_1d-IsIndependentOf cbss cdata first image.cbss_cdata
        (start_1d-IsIndependentOf cbss l1 [] image.cbss_l1 tt) in
    good.dma (start_1d cbss second) mem a (start_1d-AreIndependent cbss second third_off second_all)
    ∙ in_turn_started cbss second (cdata ∷ l1 ∷ []) mem a λ b.
      in_turn_started cdata first (l1 ∷ []) mem b λ b'. in_turn_started l1 [] [] mem b' λ b''. refl

pub local_start_lem :
    (lib : Library) (y : Symbols) (a : ℕ)
    → y.base_l1_alias ≤ a
    → a < 2 ^ 32
    → y.cluster_base lib.cluster_idx + (a - y.base_l1_alias) < 2 ^ 32
    → local_start y lib.cluster_idx a ≡ y.cluster_base lib.cluster_idx + (a - y.base_l1_alias)
local_start_lem lib y a le word fits = omega (arith, fits)

module _ (lib : Library) (y : Symbols) (image : IsImage lib y) (mem : ℕ → ℕ) where
  abbrev pub l1 : Transfer
  l1 = l1_transfer y lib.cluster_idx

  abbrev pub cdata : Transfer
  cdata = cdata_transfer y lib.cluster_idx

  abbrev pub cbss : Transfer
  cbss = cbss_transfer lib y lib.cluster_idx

  abbrev pub after : ℕ → ℕ
  after = in_turn (cbss ∷ cdata ∷ l1 ∷ []) mem

  pub l1_byte : (i : ℕ) → i < l1.size → after (l1.target + i) ≡ mem (l1.source + i)
  unfolding in_turn
  l1_byte i lt =
      kept cbss (in_turn (cdata ∷ l1 ∷ []) mem) (l1.target + i) (
        IsDisjoint-out l1.target l1.size cbss.target cbss.size i
          (IsDisjoint-sym _ _ _ _ image.cbss_l1.writes) lt)
      ∙ kept cdata (in_turn (l1 ∷ []) mem) (l1.target + i) (
          IsDisjoint-out l1.target l1.size cdata.target cdata.size i
            (IsDisjoint-sym _ _ _ _ image.cdata_l1.writes) lt)
      ∙ copied l1 mem i lt

  pub cdata_byte : (i : ℕ) → i < cdata.size → after (cdata.target + i) ≡ mem (cdata.source + i)
  unfolding in_turn
  cdata_byte i lt =
      kept cbss (in_turn (cdata ∷ l1 ∷ []) mem) (cdata.target + i) (
        IsDisjoint-out cdata.target cdata.size cbss.target cbss.size i
          (IsDisjoint-sym _ _ _ _ image.cbss_cdata.writes) lt)
      ∙ copied cdata (in_turn (l1 ∷ []) mem) i lt
      ∙ kept l1 mem (cdata.source + i)
          (IsDisjoint-out cdata.source cdata.size l1.target l1.size i image.cdata_l1.reads lt)

  pub cbss_byte : (i : ℕ) → i < cbss.size → after (cbss.target + i) ≡ mem (cbss.source + i)
  unfolding in_turn
  cbss_byte i lt =
      copied cbss (in_turn (cdata ∷ l1 ∷ []) mem) i lt
      ∙ kept cdata (in_turn (l1 ∷ []) mem) (cbss.source + i)
          (IsDisjoint-out cbss.source cbss.size cdata.target cdata.size i image.cbss_cdata.reads lt)
      ∙ kept l1 mem (cbss.source + i)
          (IsDisjoint-out cbss.source cbss.size l1.target l1.size i image.cbss_l1.reads lt)
