-- ===== src/Alloc/Sound.antt =====
-- Every sequence of calls keeps the held pointers apart and inside the heap.
use native.Mathlib.Nat.{le_refl}
use chimera_sdk.Base.{
  ℕ, ◌+◌, ◌<◌, ◌≤◌, ◌≡◌, ◌≢◌, refl, inl, inr, List, [], ◌∷◌, true, false, arith, ap, has, remove,
  not-has-remove, IsDistinct, has-remove_self, remove-IsDistinct, Bool-cases, ◌==◌, ==_iff, ==-self,
  ==-ne,
}
use chimera_sdk.Alloc.{Xlen, header, Ptr, Heap, update, returned, free}
use chimera_sdk.Alloc.FirstFit.{Chain, first_fit-has}
use chimera_sdk.Alloc.Valid.{IsValid, IsPlaced, Tiled-IsPlaced, Tiled-aligned}
use chimera_sdk.Alloc.Malloc.{Malloced, reused, carved, full, free-IsValid, has_of_has-remove}
use chimera_sdk.Alloc.Client.{World}

-- What ties a held pointer to the heap.
pub record IsHeld (x : Xlen) (w : World) (blocks frees : List Ptr) (p : Ptr) : Type 0 where
  pub block : Ptr
  pub behind : p ≡ block + header x
  pub carved : has block blocks ≡ true
  pub in_use : has block frees ≡ false
  pub enough : w.asked p ≤ w.heap.size block

pub record IsSound (x : Xlen) (lo hi : ℕ) (w : World) : Type 0 where
  pub blocks : List Ptr
  pub frees : List Ptr
  pub valid : IsValid x lo hi w.heap blocks frees
  pub held : (p : Ptr) → has p w.live ≡ true → IsHeld x w blocks frees p
  pub distinct : IsDistinct w.live

Chain-IsDistinct : (next : Ptr → Ptr) (p : Ptr) (xs : List Ptr) → Chain next p xs → IsDistinct xs
Chain-IsDistinct next p [] c = tt
Chain-IsDistinct next p (x ∷ xs) c = (c.2, Chain-IsDistinct next (next x) xs c.3)

module _ {x : Xlen} {lo hi : ℕ} {w : World} (sound : IsSound x lo hi w) where
  open sound use {blocks, frees, valid, held, distinct}

  -- The blocks in use stay in use, untouched, and block `b` is none of them.
  abbrev Keeps : List Ptr → List Ptr → Heap → Ptr → Type 0
  Keeps blocks' frees' s' b =
      (c : Ptr)
      → has c blocks ≡ true
      → has c frees ≡ false
      → (has c blocks' ≡ true) × (has c frees' ≡ false) × (s'.size c ≡ w.heap.size c) × (c ≢ b)

  extend-IsSound :
      (blocks' frees' : List Ptr) (s' : Heap) (need b p : ℕ)
      → p ≡ b + header x
      → IsValid x lo hi s' blocks' frees'
      → has b blocks' ≡ true
      → has b frees' ≡ false
      → need ≤ s'.size b
      → Keeps blocks' frees' s' b
      → IsSound x lo hi (record { heap = s'; live = p ∷ w.live; asked = update w.asked p need })
  extend-IsSound blocks' frees' s' need b p e valid' inside in_use enough keeps = record {
    blocks = blocks';
    frees = frees';
    valid = valid';
    held = holds;
    distinct = (fresh, distinct);
  }
    where
      fresh : has p w.live ≡ false
      fresh = elim (Bool-cases (has p w.live)) [
        | inr no_one ↦ no_one
        | inl old ↦
            let h = held p old in
            absurd ((keeps h.block h.carved h.in_use).3 (omega (arith, h.behind)))
      ]

      old_held :
          (q : Ptr)
          → has q w.live ≡ true
          → IsHeld x
              (record { heap = s'; live = p ∷ w.live; asked = update w.asked p need })
              blocks'
              frees'
              q
      old_held q m =
          let h = held q m in
          let k = keeps h.block h.carved h.in_use in
          record {
            block = h.block;
            behind = h.behind;
            carved = k.0;
            in_use = k.1;
            enough = rw (==-ne q p (omega (arith, h.behind, k.3)), k.2) h.enough;
          }

      holds :
          (q : Ptr)
          → has q (p ∷ w.live) ≡ true
          → IsHeld x
              (record { heap = s'; live = p ∷ w.live; asked = update w.asked p need })
              blocks'
              frees'
              q
      holds q m = elim (Bool-cases (q == p)) [
        | inl same ↦ rw ((==_iff q p).0 same) (record {
          block = b;
          behind = e;
          carved = inside;
          in_use = in_use;
          enough = rw (==-self p) enough;
        })
        | inr other ↦ old_held q (ground arith)
      ]

  placed : (c : Ptr) → has c blocks ≡ true → IsPlaced x w.heap.size lo w.heap.heap_start c
  placed c m =
      Tiled-IsPlaced x w.heap.size lo w.heap.heap_start blocks c valid.lo_aligned valid.tiled m

  below_start : (c : Ptr) → has c blocks ≡ true → c < w.heap.heap_start
  below_start c m = (placed c m).strict

  start_unlisted : has w.heap.heap_start frees ≡ false
  start_unlisted = elim (Bool-cases (has w.heap.heap_start frees)) [
    | inr no_one ↦ no_one
    | inl listed ↦ absurd (omega (arith, below_start w.heap.heap_start (valid.owned _ listed)))
  ]

  pub gets-IsSound :
      (need : ℕ) (p : Ptr) (s' : Heap)
      → p ≢ 0
      → Malloced x lo hi w.heap blocks frees need (returned p s')
      → IsSound x lo hi (record { heap = s'; live = p ∷ w.live; asked = update w.asked p need })
  gets-IsSound need p s' ne (reused b s'' e found valid' same) =
      let es : s' ≡ s'' = cc in
      let fit = first_fit-has w.heap.size need frees b found in
      rw es (
        extend-IsSound blocks (remove b frees) s'' need b p (cc) valid' (valid.owned b fit.0)
          (has-remove_self b frees (Chain-IsDistinct w.heap.next w.heap.freelist frees valid.chain))
          (rw same fit.1)
          (λ c m out.
            (m, not-has-remove c b frees out, rw same refl, λ q. cc (ap (λ a. has a frees) q))))
  gets-IsSound need p s' ne (carved s'' e nothing valid' same) =
      let es : s' ≡ s'' = cc in
      rw es (
        extend-IsSound (w.heap.heap_start ∷ blocks) frees s'' need w.heap.heap_start p (cc) valid'
          (rw (==-self w.heap.heap_start) refl) start_unlisted
          (rw (same, ==-self w.heap.heap_start) (le_refl _))
          (λ c m out.
            let ne' : c ≢ w.heap.heap_start = omega (arith, below_start c m) in
            (
              rw (==-ne c w.heap.heap_start ne') m,
              out,
              rw (same, ==-ne c w.heap.heap_start ne') refl,
              ne',
            )))
  gets-IsSound need p s' ne (full e nothing over) = absurd (ne (cc))

  pub refused-IsSound :
      (need : ℕ) (s' : Heap)
      → Malloced x lo hi w.heap blocks frees need (returned 0 s')
      → IsSound x lo hi (record w { heap = s' })
  refused-IsSound need s' (reused b s'' e found valid' same) =
      let z : 0 ≡ b + header x = cc in
      absurd (
        omega (
          arith,
          valid.lo_pos,
          placed b (valid.owned b (first_fit-has w.heap.size need frees b found).0),
        ))
  refused-IsSound need s' (carved s'' e nothing valid' same) =
      let z : 0 ≡ w.heap.heap_start + header x = cc in
      absurd (
        omega (
          arith,
          valid.lo_pos,
          Tiled-aligned x w.heap.size lo w.heap.heap_start blocks valid.lo_aligned valid.tiled,
        ))
  refused-IsSound need s' (full e nothing over) = let es : s' ≡ w.heap = cc in rw es sound

  gives_held :
      (p q : Ptr) (h : IsHeld x w blocks frees p)
      → has q (remove (h.block + header x) w.live) ≡ true
      → (free x w.heap (h.block + header x)).size ≡ w.heap.size
      → IsHeld x
          (record w {
            heap = free x w.heap (h.block + header x);
            live = remove (h.block + header x) w.live;
          })
          blocks
          (h.block ∷ frees)
          q
  gives_held p q h m same =
      let k = held q (has_of_has-remove q (h.block + header x) w.live m) in
      let moved : q ≢ h.block + header x = λ e. cc (
        has-remove_self (h.block + header x) w.live distinct,
        ap (λ a. has a (remove (h.block + header x) w.live)) e,
      ) in
      record {
        block = k.block;
        behind = k.behind;
        carved = k.carved;
        in_use = rw (==-ne k.block h.block (omega (arith, k.behind))) k.in_use;
        enough = rw same k.enough;
      }

  pub gives-IsSound :
      (p : Ptr)
      → has p w.live ≡ true
      → IsSound x lo hi (record w { heap = free x w.heap p; live = remove p w.live })
  gives-IsSound p m =
      let h = held p m in
      let (valid', same, _) = free-IsValid valid h.block h.carved h.in_use in
      rw h.behind (record {
        blocks = blocks;
        frees = h.block ∷ frees;
        valid = valid';
        held = λ q m'. gives_held p q h m' same;
        distinct = remove-IsDistinct _ w.live distinct;
      })
