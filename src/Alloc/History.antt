-- ===== src/Alloc/History.antt =====
-- The allocator from boot on: what a client may rely on after any sequence of calls.
use chimera_sdk.Base.{ℕ, ◌+◌, ◌%◌, ◌<◌, ◌≤◌, ◌≡◌, ◌≢◌, refl, ◌⊎◌, [], true, arith, has, IsDistinct}
use chimera_sdk.Alloc.{Xlen, rv32, rv64, modulus, header, Ptr, Heap, free}
use chimera_sdk.Alloc.Valid.{IsPlaced, Tiled-IsPlaced, blocks_apart}
use chimera_sdk.Alloc.Client.{
  World, Step, gets, refused, gives, gives_null, Reach, booted, call, malloc_answer,
}
use chimera_sdk.Alloc.Sound.{IsSound, gets-IsSound, refused-IsSound, gives-IsSound}

free-null : (x : Xlen) (s : Heap) → free x s 0 ≡ s
unfolding free
free-null x s = refl

Step-IsSound :
    {x : Xlen} {lo hi : ℕ} {w w' : World} → IsSound x lo hi w → Step x w w' → IsSound x lo hi w'
Step-IsSound sound (gets fuel need p s' ask runs ne e) =
    rw e (gets-IsSound sound need p s' ne (malloc_answer sound.valid fuel need ask runs))
Step-IsSound sound (refused fuel need s' ask runs e) =
    rw e (refused-IsSound sound need s' (malloc_answer sound.valid fuel need ask runs))
Step-IsSound sound (gives p m e) = rw e (gives-IsSound sound p m)
Step-IsSound sound (gives_null e) = rw (e, free-null) sound

-- The statics before the first call, with the heap from `lo` to `hi`.
abbrev pub boot : ℕ → ℕ → World
boot lo hi = record {
  heap = record { heap_start = lo; heap_end = hi; freelist = 0; next = λ b. 0; size = λ b. 0 };
  live = [];
  asked = λ p. 0;
}

-- The bounds of a heap: not at `NULL`, aligned, and inside the address space.
pub record IsRegion (x : Xlen) (lo hi : ℕ) : Type 0 where
  pub lo_pos : 0 < lo
  pub lo_aligned : lo % 4 ≡ 0
  pub ordered : lo ≤ hi
  pub in_space : hi < modulus x

boot-IsSound : {x : Xlen} {lo hi : ℕ} → IsRegion x lo hi → IsSound x lo hi (boot lo hi)
boot-IsSound r = record {
  blocks = [];
  frees = [];
  valid = record {
    tiled = refl;
    chain = refl;
    owned = λ a m. m;
    lo_pos = r.lo_pos;
    lo_aligned = r.lo_aligned;
    fits = r.ordered;
    end_is = refl;
    in_space = r.in_space;
  };
  held = λ p m. cc;
  distinct = tt;
}

Reach-IsSound :
    {x : Xlen} {lo hi : ℕ} {w : World}
    → IsRegion x lo hi
    → Reach x (boot lo hi) w
    → IsSound x lo hi w
Reach-IsSound r booted = boot-IsSound r
Reach-IsSound r (call reach step) = Step-IsSound (Reach-IsSound r reach) step

header_aligned : (x : Xlen) → header x % 4 ≡ 0
header_aligned rv32 = refl
header_aligned rv64 = refl

module _ {x : Xlen} {lo hi : ℕ} {w : World} (region : IsRegion x lo hi)
    (reach : Reach x (boot lo hi) w) where
  sound : IsSound x lo hi w
  sound = Reach-IsSound region reach

  open sound use {blocks, frees, valid, held}

  place :
      (p : Ptr) (m : has p w.live ≡ true)
      → IsPlaced x w.heap.size lo w.heap.heap_start (held p m).block
  place p m =
      Tiled-IsPlaced x w.heap.size lo w.heap.heap_start blocks (held p m).block valid.lo_aligned
        valid.tiled (held p m).carved

  -- After any sequence of returning calls from boot, in which no request wraps around the address
  -- space and only held pointers are freed: a held pointer is a multiple of four, the bytes asked
  -- for at it lie inside the heap, and no pointer is held twice.
  pub Reach-inside :
      (p : Ptr)
      → has p w.live ≡ true
      → (lo ≤ p) × (p + w.asked p ≤ hi) × (p % 4 ≡ 0) × IsDistinct w.live
  Reach-inside p m =
      let h = held p m in
      let at : IsPlaced x w.heap.size lo w.heap.heap_start h.block = place p m in
      let aligned = header_aligned x in
      (
        omega (arith, h.behind),
        omega (arith, h.behind, h.enough, valid.end_is, valid.fits),
        omega (arith, h.behind),
        sound.distinct,
      )

  -- After any sequence of returning calls from boot, in which no request wraps around the address
  -- space and only held pointers are freed: the bytes asked for at two different held pointers do
  -- not overlap.
  pub Reach-apart :
      (p q : Ptr)
      → has p w.live ≡ true
      → has q w.live ≡ true
      → p ≢ q
      → (p + w.asked p ≤ q) ⊎ (q + w.asked q ≤ p)
  Reach-apart p q mp mq ne =
      let hp = held p mp in
      let hq = held q mq in
      omega (
        arith,
        hp.behind,
        hq.behind,
        hp.enough,
        hq.enough,
        blocks_apart x w.heap.size lo w.heap.heap_start blocks hp.block hq.block valid.lo_aligned
            valid.tiled hp.carved hq.carved (omega (arith, hp.behind, hq.behind)),
      )
