-- ===== src/Alloc/FirstFit.antt =====
-- The walk along the free list finds the first block that is large enough and unlinks it.
use chimera_sdk.Base.{
  ℕ, zero, suc, ◌<◌, ◌≤◌, ◌≡◌, ◌≢◌, refl, Option, none, some, List, [], ◌∷◌, true, false, arith,
  leb, ◌==◌, if◌then◌else◌, ==-self, ==-ne, Bool-cases, inl, inr, length, has, remove,
  not-has-remove, ◌∙◌,
}
use chimera_sdk.Alloc.{
  Ptr, Heap, Link, head, next_of, load_link, store_link, update, hit, miss, tired, walk,
}

-- From `p` the `next` fields lead through the distinct blocks `xs` to `NULL`.
abbrev pub Chain : (Ptr → Ptr) → Ptr → List Ptr → Type 0
Chain next p [] = p ≡ 0
Chain next p (x ∷ xs) = (p ≡ x) × (x ≢ 0) × (has x xs ≡ false) × Chain next (next x) xs

-- The first block of the list that holds `need` bytes.
abbrev pub first_fit : (Ptr → ℕ) → ℕ → List Ptr → Option Ptr
first_fit size need [] = none
first_fit size need (x ∷ xs) = if leb need (size x) then some x else first_fit size need xs

-- A link outside the blocks `xs`.
abbrev pub Apart : Link → List Ptr → Type 0
Apart head xs = Unit {0}
Apart (next_of b) xs = has b xs ≡ false

abbrev pub Other : Link → Link → Type 0
Other head head = ⊥
Other head (next_of b) = Unit {0}
Other (next_of a) head = Unit {0}
Other (next_of a) (next_of b) = a ≢ b

-- A change of a link outside the chain leaves the chain as it is.
pub Chain-update :
    (next : Ptr → Ptr) (a v p : Ptr) (xs : List Ptr)
    → has a xs ≡ false
    → Chain next p xs
    → Chain (update next a v) p xs
Chain-update next a v p [] out c = c
Chain-update next a v p (x ∷ xs) out c =
    let ne : (x == a) ≡ false = ground arith in
    let deep : Chain (update next a v) (next x) xs =
      Chain-update next a v (next x) xs (ground arith) c.3 in
    (c.0, c.1, c.2, rw ne deep)

-- What unlinking block `b` from the chain `xs` behind the link `prev` has done.
pub record IsUnlinked (s : Heap) (prev : Link) (b : Ptr) (xs : List Ptr) (s' : Heap) : Type 0 where
  pub chain : Chain s'.next (load_link s' prev) (remove b xs)
  pub others : (l : Link) → Other l prev → Apart l xs → load_link s' l ≡ load_link s l
  pub size_same : s'.size ≡ s.size
  pub start_same : s'.heap_start ≡ s.heap_start
  pub end_same : s'.heap_end ≡ s.heap_end

store_link-IsUnlinked :
    (s : Heap) (prev : Link) (x : Ptr) (xs : List Ptr)
    → Chain s.next x (x ∷ xs)
    → Apart prev (x ∷ xs)
    → IsUnlinked s prev x (x ∷ xs) (store_link s prev (s.next x))
store_link-IsUnlinked s head x xs c out = record {
  chain = rw (==-self x) c.3;
  others = other_links;
  size_same = refl;
  start_same = refl;
  end_same = refl;
}
  where
    other_links :
        (l : Link)
        → Other l head
        → Apart l (x ∷ xs)
        → load_link (store_link s head (s.next x)) l ≡ load_link s l
    other_links head o a = absurd o
    other_links (next_of b) o a = refl
store_link-IsUnlinked s (next_of a) x xs c out = record {
  chain =
      rw (==-self x, ==-self a) (Chain-update s.next a (s.next x) (s.next x) xs (ground arith) c.3);
  others = other_links;
  size_same = refl;
  start_same = refl;
  end_same = refl;
}
  where
    other_links :
        (l : Link)
        → Other l (next_of a)
        → Apart l (x ∷ xs)
        → load_link (store_link s (next_of a) (s.next x)) l ≡ load_link s l
    other_links head o apart = refl
    other_links (next_of b) o apart = rw (==-ne b a o)

Apart-Other :
    (l : Link) (x : Ptr) (xs : List Ptr) → Apart l (x ∷ xs) → Other l (next_of x) × Apart l xs
Apart-Other head x xs a = (tt, tt)
Apart-Other (next_of b) x xs a = ground arith

-- A block behind the first is unlinked from the whole chain.
IsUnlinked-cons :
    (s s' : Heap) (prev : Link) (x b : Ptr) (xs : List Ptr)
    → Apart prev (x ∷ xs)
    → load_link s prev ≡ x
    → x ≢ 0
    → has x xs ≡ false
    → has b xs ≡ true
    → IsUnlinked s (next_of x) b xs s'
    → IsUnlinked s prev b (x ∷ xs) s'
IsUnlinked-cons s s' prev x b xs apart at_prev pos out inside u = record {
  chain = rw (==-ne b x (ground arith)) (
    u.others prev (Apart-Other prev x xs apart).0 (Apart-Other prev x xs apart).1 ∙ at_prev,
    pos,
    not-has-remove x b xs out,
    u.chain,
  );
  others = λ l o a. u.others l (Apart-Other l x xs a).0 (Apart-Other l x xs a).1;
  size_same = u.size_same;
  start_same = u.start_same;
  end_same = u.end_same;
}

pub first_fit-has :
    (size : Ptr → ℕ) (need : ℕ) (xs : List Ptr) (b : Ptr)
    → first_fit size need xs ≡ some b
    → (has b xs ≡ true) × (need ≤ size b)
first_fit-has size need [] b e = cc
first_fit-has size need (x ∷ xs) b e = ground (arith, first_fit-has size need xs b)

-- The walk with enough rounds unlinks the first block that fits.
pub walk-hit :
    (fuel : ℕ) (s : Heap) (need : ℕ) (prev : Link) (curr b : Ptr) (xs : List Ptr)
    → Chain s.next curr xs
    → Apart prev xs
    → load_link s prev ≡ curr
    → length xs < fuel
    → first_fit s.size need xs ≡ some b
    → (s' : Heap) × (walk fuel s need prev curr ≡ hit b s') × IsUnlinked s prev b xs s'
unfolding walk
walk-hit zero s need prev curr b xs c out at_prev enough found = absurd (omega arith)
walk-hit (suc fuel) s need prev curr b [] c out at_prev enough found = cc
walk-hit (suc fuel) s need prev curr b (x ∷ xs) c out at_prev enough found =
    rw c.0 (elim (Bool-cases (leb need (s.size x))) [
      | inl fits ↦
          let e : x ≡ b = ground arith in
          (
            store_link s prev (s.next x),
            ground arith,
            rw (← e) (store_link-IsUnlinked s prev x xs (refl, c.1, c.2, c.3) out),
          )
      | inr small ↦
          let found' : first_fit s.size need xs ≡ some b = ground arith in
          let (s', runs, u) =
            walk-hit fuel s need (next_of x) (s.next x) b xs c.3 c.2 refl (omega arith) found' in
          (
            s',
            ground arith,
            IsUnlinked-cons s s' prev x b xs out (at_prev ∙ c.0) c.1 c.2
                (first_fit-has s.size need xs b found').0 u,
          )
    ])

pub walk-miss :
    (fuel : ℕ) (s : Heap) (need : ℕ) (prev : Link) (curr : Ptr) (xs : List Ptr)
    → Chain s.next curr xs
    → length xs < fuel
    → first_fit s.size need xs ≡ none
    → walk fuel s need prev curr ≡ miss
unfolding walk
walk-miss zero s need prev curr xs c enough none_fits = absurd (omega arith)
walk-miss (suc fuel) s need prev curr [] c enough none_fits = ground arith
walk-miss (suc fuel) s need prev curr (x ∷ xs) c enough none_fits =
    ground (arith, walk-miss fuel s need (next_of curr) (s.next curr) xs)

-- A walk that has ended is not changed by more rounds.
pub walk_mono :
    (fuel more : ℕ) (s : Heap) (need : ℕ) (prev : Link) (curr : Ptr)
    → fuel ≤ more
    → walk fuel s need prev curr ≢ tired
    → walk more s need prev curr ≡ walk fuel s need prev curr
unfolding walk
walk_mono zero more s need prev curr le ends = absurd (ends refl)
walk_mono (suc fuel) zero s need prev curr le ends = absurd (omega arith)
walk_mono (suc fuel) (suc more) s need prev curr le ends =
    ground (arith, walk_mono fuel more s need (next_of curr) (s.next curr))
