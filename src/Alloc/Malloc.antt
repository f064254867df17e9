-- ===== src/Alloc/Malloc.antt =====
-- What `region_malloc` and `region_free` do to a valid heap, on every branch.
use native.Mathlib.Decide.{dec_le}
use native.Mathlib.Nat.{mod-eq_of_lt}
use chimera_sdk.Base.{
  ℕ, ◌+◌, ◌%◌, ◌<◌, ◌≤◌, ◌≡◌, ◌∙◌, refl, List, ◌∷◌, true, false, none, some, arith, length, has,
  remove, not-has-remove, Option-cases, Bool-cases, inl, inr, ==-self, ==_iff, ==-ne,
}
use chimera_sdk.Alloc.{
  Xlen, modulus, header, Ptr, Heap, head, total_size, payload, block_of, update, Outcome, returned,
  bump, malloc, free,
}
use chimera_sdk.Alloc.FirstFit.{Chain-update, first_fit, first_fit-has, walk-hit, walk-miss}
use chimera_sdk.Alloc.Valid.{
  Fits, IsValid, total_size_bounds, IsPlaced, Tiled-IsPlaced, Tiled-update, block_of-payload,
}

-- The three ways in which a request is answered: from the free list, from the unused part of the
-- heap, or by `NULL` with nothing changed.
pub data Malloced (x : Xlen) (lo hi : ℕ) (s : Heap) (blocks frees : List Ptr) (need : ℕ)
    (r : Outcome) : Type 0 where
  reused :
      (b : Ptr) (s' : Heap)
      → r ≡ returned (b + header x) s'
      → first_fit s.size need frees ≡ some b
      → IsValid x lo hi s' blocks (remove b frees)
      → s'.size ≡ s.size
      → Malloced x lo hi s blocks frees need r
  carved :
      (s' : Heap)
      → r ≡ returned (s.heap_start + header x) s'
      → first_fit s.size need frees ≡ none
      → IsValid x lo hi s' (s.heap_start ∷ blocks) frees
      → s'.size ≡ update s.size s.heap_start need
      → Malloced x lo hi s blocks frees need r
  full :
      r ≡ returned 0 s
      → first_fit s.size need frees ≡ none
      → s.heap_end < s.heap_start + total_size x need
      → Malloced x lo hi s blocks frees need r

pub has_of_has-remove : (a b : ℕ) (xs : List ℕ) → has a (remove b xs) ≡ true → has a xs ≡ true
has_of_has-remove a b xs h = elim (Bool-cases (has a xs)) [
  | inl e ↦ e
  | inr e ↦ cc (not-has-remove a b xs e)
]

module _ {x : Xlen} {lo hi : ℕ} {s : Heap} {blocks frees : List Ptr}
    (v : IsValid x lo hi s blocks frees) where
  placed : (b : Ptr) → has b blocks ≡ true → IsPlaced x s.size lo s.heap_start b
  placed b m = Tiled-IsPlaced x s.size lo s.heap_start blocks b v.lo_aligned v.tiled m

  pub payload_lem : (b : Ptr) → has b blocks ≡ true → payload x b ≡ b + header x
  payload_lem b m = (block_of-payload x b (omega (arith, placed b m, v.fits, v.in_space))).0

  malloc-hit :
      (fuel need : ℕ) (b : Ptr)
      → length frees < fuel
      → first_fit s.size need frees ≡ some b
      → (s' : Heap) × (malloc x fuel s need ≡ returned (b + header x) s')
        × IsValid x lo hi s' blocks (remove b frees)
        × (s'.size ≡ s.size)
        × (s'.heap_end ≡ s.heap_end)
  unfolding malloc
  malloc-hit fuel need b enough found =
      let (s', runs, u) =
        walk-hit fuel s need head s.freelist b frees v.chain tt refl enough found in
      let inside : has b blocks ≡ true = v.owned b (first_fit-has s.size need frees b found).0 in
      (
        s',
        rw (runs, payload_lem b inside),
        record {
          tiled = rw (u.size_same, u.start_same) v.tiled;
          chain = u.chain;
          owned = λ a m. v.owned a (has_of_has-remove a b frees m);
          lo_pos = v.lo_pos;
          lo_aligned = v.lo_aligned;
          fits = rw (u.start_same, u.end_same) v.fits;
          end_is = rw u.end_same v.end_is;
          in_space = rw u.end_same v.in_space;
        },
        u.size_same,
        u.end_same,
      )

  bump-full :
      (need : ℕ)
      → s.heap_end + total_size x need < modulus x
      → s.heap_end < s.heap_start + total_size x need
      → bump x s need ≡ returned 0 s
  unfolding bump
  bump-full need space over =
      rw
        (mod-eq_of_lt {n = s.heap_start + total_size x need} {m = modulus x}
          (omega (arith, v.fits)))
        (ground arith)

  bump-carved :
      (need : ℕ)
      → Fits x need
      → s.heap_end + total_size x need < modulus x
      → s.heap_start + total_size x need ≤ s.heap_end
      → (s' : Heap) × (bump x s need ≡ returned (s.heap_start + header x) s')
        × IsValid x lo hi s' (s.heap_start ∷ blocks) frees
        × (s'.size ≡ update s.size s.heap_start need)
  unfolding bump
  bump-carved need sound space room = (
    record s {
      size = update s.size s.heap_start need;
      heap_start = s.heap_start + total_size x need;
    },
    rw (no_wrap, in_payload) (ground arith),
    record {
      tiled = rw (==-self s.heap_start) (
        sound,
        refl,
        Tiled-update x s.size lo s.heap_start blocks s.heap_start need (omega arith) v.tiled,
      );
      chain = v.chain;
      owned = λ a m. ground (arith, v.owned a m);
      lo_pos = v.lo_pos;
      lo_aligned = v.lo_aligned;
      fits = room;
      end_is = v.end_is;
      in_space = v.in_space;
    },
    refl,
  )
    where
      no_wrap : (s.heap_start + total_size x need) % modulus x ≡ s.heap_start + total_size x need
      no_wrap = mod-eq_of_lt (omega (arith, v.in_space))

      in_payload : payload x s.heap_start ≡ s.heap_start + header x
      in_payload =
          (block_of-payload x s.heap_start
            (omega (arith, total_size_bounds x need sound, v.in_space))).0

  -- With enough rounds for the free list and no wrap in the request, `memory_island_malloc` hands
  -- out the first free block that is large enough; else it carves a block of the requested size
  -- at the bump pointer; else, if that would pass the end of the heap, it returns `NULL` and
  -- changes nothing. The heap stays valid, and no other block's size changes.
  pub malloc-Malloced :
      (fuel need : ℕ)
      → Fits x need
      → s.heap_end + total_size x need < modulus x
      → length frees < fuel
      → Malloced x lo hi s blocks frees need (malloc x fuel s need)
  malloc-Malloced fuel need sound space enough = elim (Option-cases (first_fit s.size need frees)) [
    | inr (b, found) ↦
        let (s', runs, valid, same, _) = malloc-hit fuel need b enough found in
        reused b s' runs found valid same
    | inl nothing ↦ elim (dec_le (s.heap_start + total_size x need) s.heap_end) [
      | yes room ↦
          let (s', runs, valid, same) = bump-carved need sound space room in
          carved s' (to_bump fuel need nothing enough ∙ runs) nothing valid same
      | no tight ↦
          full (to_bump fuel need nothing enough ∙ bump-full need space (omega arith)) nothing
            (omega arith)
    ]
  ]
    where
      to_bump :
          (fuel need : ℕ)
          → first_fit s.size need frees ≡ none
          → length frees < fuel
          → malloc x fuel s need ≡ bump x s need
      to_bump fuel need nothing enough =
          unfold malloc in rw (walk-miss fuel s need head s.freelist frees v.chain enough nothing)

  -- Freeing the pointer of a block that is in use puts the block at the head of the free list,
  -- keeps the heap valid and changes no size.
  pub free-IsValid :
      (b : Ptr)
      → has b blocks ≡ true
      → has b frees ≡ false
      → IsValid x lo hi (free x s (b + header x)) blocks (b ∷ frees)
        × ((free x s (b + header x)).size ≡ s.size)
        × ((free x s (b + header x)).freelist ≡ b)
  unfolding free
  free-IsValid b m out =
      rw (==-ne (b + header x) 0 (omega (arith, placed b m, v.lo_pos)), back)
        (
          record {
            tiled = v.tiled;
            chain = (
              refl,
              omega (arith, placed b m, v.lo_pos),
              out,
              rw (==-self b) (Chain-update s.next b s.freelist s.freelist frees out v.chain),
            );
            owned = λ a inside. ground (arith, v.owned a, ==_iff a b);
            lo_pos = v.lo_pos;
            lo_aligned = v.lo_aligned;
            fits = v.fits;
            end_is = v.end_is;
            in_space = v.in_space;
          },
          refl,
          refl,
        )
    where
      back : block_of x (b + header x) ≡ b
      back =
          rw (payload_lem b m) at
            ((block_of-payload x b (omega (arith, placed b m, v.fits, v.in_space))).1)

-- A freed block is the first to be handed out again: a request that it can hold gets the same
-- pointer back, and the free list is what it was before the block was freed.
pub malloc-free :
    {x : Xlen} {lo hi : ℕ} {s : Heap} {blocks frees : List Ptr} (v : IsValid x lo hi s blocks frees)
    (fuel need : ℕ) (b : Ptr)
    → has b blocks ≡ true
    → has b frees ≡ false
    → need ≤ s.size b
    → length frees + 1 < fuel
    → (s' : Heap) × (malloc x fuel (free x s (b + header x)) need ≡ returned (b + header x) s')
      × IsValid x lo hi s' blocks frees
malloc-free {x} {s} {frees} v fuel need b m out small enough =
    let (freed, same, _) = free-IsValid v b m out in
    let (s', runs, valid, _, _) =
      malloc-hit freed fuel need b (omega arith) (rw same (ground arith)) in
    (s', runs, rw (==-self b) at valid)
