-- ===== src/Alloc/Valid.antt =====
-- The allocator's invariant: the blocks tile the used part of the heap, and the free list is a
-- chain of some of them.
use chimera_sdk.Base.{
  ℕ, ◌+◌, ◌%◌, ◌<◌, ◌≤◌, ◌≡◌, ◌≢◌, ◌⊎◌, inl, inr, List, [], ◌∷◌, true, arith, has, Bool-cases, ◌==◌,
  ==-ne, ==_iff,
}
use chimera_sdk.Alloc.{
  Xlen, rv32, rv64, modulus, header, Ptr, Heap, total_size, payload, block_of, update,
}
use chimera_sdk.Alloc.FirstFit.{Chain}

-- `ALLOC_ALIGN(size + sizeof(MemoryBlock))` does not wrap.
abbrev pub Fits : Xlen → ℕ → Type 0
Fits x n = n + header x + 3 < modulus x

-- The blocks, newest first, fill the heap from `lo` to `top` without a gap.
abbrev pub Tiled : Xlen → (Ptr → ℕ) → ℕ → ℕ → List Ptr → Type 0
Tiled x size lo top [] = top ≡ lo
Tiled x size lo top (b ∷ bs) =
    Fits x (size b) × (top ≡ b + total_size x (size b)) × Tiled x size lo b bs

pub record IsValid (x : Xlen) (lo hi : ℕ) (s : Heap) (blocks frees : List Ptr) : Type 0 where
  pub tiled : Tiled x s.size lo s.heap_start blocks
  pub chain : Chain s.next s.freelist frees
  pub owned : (a : Ptr) → has a frees ≡ true → has a blocks ≡ true
  pub lo_pos : 0 < lo
  pub lo_aligned : lo % 4 ≡ 0
  pub fits : s.heap_start ≤ s.heap_end
  pub end_is : s.heap_end ≡ hi
  pub in_space : s.heap_end < modulus x

-- Without a wrap the carved size covers the header and the payload, and is a multiple of four.
pub total_size_bounds :
    (x : Xlen) (n : ℕ)
    → Fits x n
    → (n + header x ≤ total_size x n)
      × (total_size x n ≤ n + header x + 3)
      × (total_size x n % 4 ≡ 0)
      × (0 < header x)
unfolding total_size
total_size_bounds rv32 n h = omega arith
total_size_bounds rv64 n h = omega arith

-- What a block of the tiling satisfies.
pub record IsPlaced (x : Xlen) (size : Ptr → ℕ) (lo top : ℕ) (b : Ptr) : Type 0 where
  pub above : lo ≤ b
  pub below : b + total_size x (size b) ≤ top
  pub room : b + header x + size b ≤ top
  pub strict : b < top
  pub aligned : b % 4 ≡ 0
  pub sound : Fits x (size b)

pub Tiled-aligned :
    (x : Xlen) (size : Ptr → ℕ) (lo top : ℕ) (bs : List Ptr)
    → lo % 4 ≡ 0
    → Tiled x size lo top bs
    → (top % 4 ≡ 0) × (lo ≤ top)
Tiled-aligned x size lo top [] h t = omega arith
Tiled-aligned x size lo top (b ∷ bs) h t =
    omega (arith, total_size_bounds x (size b) t.0, Tiled-aligned x size lo b bs h t.2)

Tiled-IsPlaced_head :
    (x : Xlen) (size : Ptr → ℕ) (lo top : ℕ) (b : Ptr) (bs : List Ptr)
    → lo % 4 ≡ 0
    → Tiled x size lo top (b ∷ bs)
    → IsPlaced x size lo top b
Tiled-IsPlaced_head x size lo top b bs h t =
    omega (arith, t.0, t.1, total_size_bounds x (size b) t.0, Tiled-aligned x size lo b bs h t.2)

IsPlaced-mono :
    {x : Xlen} {size : Ptr → ℕ} {lo mid top : ℕ} {b : Ptr}
    → mid ≤ top
    → IsPlaced x size lo mid b
    → IsPlaced x size lo top b
IsPlaced-mono le p = omega arith

pub Tiled-IsPlaced :
    (x : Xlen) (size : Ptr → ℕ) (lo top : ℕ) (bs : List Ptr) (b : Ptr)
    → lo % 4 ≡ 0
    → Tiled x size lo top bs
    → has b bs ≡ true
    → IsPlaced x size lo top b
Tiled-IsPlaced x size lo top [] b h t m = cc
Tiled-IsPlaced x size lo top (c ∷ bs) b h t m = elim (Bool-cases (b == c)) [
  | inl e ↦ rw ((==_iff b c).0 e) (Tiled-IsPlaced_head x size lo top c bs h t)
  | inr ne ↦
      IsPlaced-mono (omega (arith, t.1)) (Tiled-IsPlaced x size lo c bs b h t.2 (ground arith))
]

-- Two blocks, with their headers, do not overlap.
pub blocks_apart :
    (x : Xlen) (size : Ptr → ℕ) (lo top : ℕ) (bs : List Ptr) (a b : Ptr)
    → lo % 4 ≡ 0
    → Tiled x size lo top bs
    → has a bs ≡ true
    → has b bs ≡ true
    → a ≢ b
    → (a + header x + size a ≤ b) ⊎ (b + header x + size b ≤ a)
blocks_apart x size lo top [] a b h t ma mb ne = cc
blocks_apart x size lo top (c ∷ bs) a b h t ma mb ne = elim (Bool-cases (a == c)) [
  | inl ea ↦ inr (rw ((==_iff a c).0 ea) (placed b (ground arith)).room)
  | inr na ↦ elim (Bool-cases (b == c)) [
    | inl eb ↦ inl (rw ((==_iff b c).0 eb) (placed a (ground arith)).room)
    | inr nb ↦ blocks_apart x size lo c bs a b h t.2 (ground arith) (ground arith) ne
  ]
]
  where
    placed : (d : Ptr) → has d bs ≡ true → IsPlaced x size lo c d
    placed d m = Tiled-IsPlaced x size lo c bs d h t.2 m

-- A new header above the tiling leaves the tiling as it is.
pub Tiled-update :
    (x : Xlen) (size : Ptr → ℕ) (lo top : ℕ) (bs : List Ptr) (a v : ℕ)
    → top ≤ a
    → Tiled x size lo top bs
    → Tiled x (update size a v) lo top bs
Tiled-update x size lo top [] a v h t = t
Tiled-update x size lo top (b ∷ bs) a v h t =
    let below : b < top = omega (arith, t.1, total_size_bounds x (size b) t.0) in
    rw (==-ne b a (omega arith)) (t.0, t.1, Tiled-update x size lo b bs a v (omega arith) t.2)

-- The pointer handed out for a block leads back to it.
pub block_of-payload :
    (x : Xlen) (b : Ptr)
    → b + header x < modulus x
    → (payload x b ≡ b + header x) × (block_of x (payload x b) ≡ b)
unfolding payload block_of
block_of-payload rv32 b h = omega arith
block_of-payload rv64 b h = omega arith
