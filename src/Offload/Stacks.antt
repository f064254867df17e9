-- ===== src/Offload/Stacks.antt =====
-- The stack pointers of a cluster: aligned, and no two stacks overlap.
use native.Mathlib.Decide.{ℕ_discrete}
use chimera_sdk.Base.{
  false, ◌∙◌, ℕ, zero, suc, ◌+◌, ◌-◌, ◌*◌, ◌/◌, ◌%◌, ◌^◌, ◌≤◌, ◌<◌, ◌≡◌, refl, arith, ◌==◌, sub64,
  ==-self,
}
use chimera_sdk.Offload.{put_at, num_cores, generate_loop, generate_sps, generate_sps_uniform}

-- The bytes that the stacks from `i` on can take, the padding included.
abbrev pub room : (count i : ℕ) → (ℕ → ℕ) → ℕ
room zero i size = 0
room (suc count) i size = size i + 15 + room count (suc i) size

-- The stacks of cores `i` to `i + count - 1` lie one below the other between `low` and `high`.
abbrev pub IsStacked : (count i low high : ℕ) → (ℕ → ℕ) → (ℕ → ℕ) → Type 0
IsStacked zero i low high size ptr = low ≤ high
IsStacked (suc count) i low high size ptr =
    (ptr i ≤ high)
    × (high ≤ ptr i + 15)
    × (ptr i % 16 ≡ 0)
    × (size i ≤ ptr i)
    × IsStacked count (suc i) low (ptr i - size i) size ptr

-- The loop leaves the entries below `i` alone.
generate_loop-below :
    (count i sp : ℕ) (size ptr : ℕ → ℕ) (k : ℕ)
    → k < i
    → (generate_loop count i sp size ptr).1 k ≡ ptr k
unfolding generate_loop
generate_loop-below zero i sp size ptr k h = refl
generate_loop-below (suc count) i sp size ptr k h =
    let a = sp / 16 * 16 in
    let e =
      generate_loop-below count (suc i) (sub64 a (size i)) size (put_at ptr i a) k (omega arith) in
    let ne : (k == i) ≡ false = ground arith in rw ne at e

pub generate_loop-zero : (i sp : ℕ) (size ptr : ℕ → ℕ) → generate_loop 0 i sp size ptr ≡ (sp, ptr)
unfolding generate_loop
generate_loop-zero i sp size ptr = refl

pub generate_loop-suc :
    (count i sp : ℕ) (size ptr : ℕ → ℕ)
    → generate_loop (suc count) i sp size ptr
      ≡ generate_loop count
          (suc i)
          (sub64 (sp / 16 * 16) (size i))
          size
          (put_at ptr i (sp / 16 * 16))
unfolding generate_loop
generate_loop-suc count i sp size ptr = refl

pub generate_loop-IsStacked :
    (count i sp : ℕ) (size ptr : ℕ → ℕ)
    → sp < 2 ^ 64
    → room count i size ≤ sp
    → let r = generate_loop count i sp size ptr in IsStacked count i r.0 sp size r.1
unfolding generate_loop
generate_loop-IsStacked zero i sp size ptr lt h = omega arith
generate_loop-IsStacked (suc count) i sp size ptr lt h =
    let a = sp / 16 * 16 in
    let down : sub64 a (size i) ≡ a - size i = omega (arith, h) in
    let self : put_at ptr i a i ≡ a = rw (==-self i) refl in
    let here : (generate_loop count (suc i) (a - size i) size (put_at ptr i a)).1 i ≡ a =
      generate_loop-below count (suc i) (a - size i) size (put_at ptr i a) i (omega arith) ∙ self in
    let rest =
      generate_loop-IsStacked count (suc i) (a - size i) size (put_at ptr i a) (omega arith)
        (omega (arith, h)) in
    rw (generate_loop-suc count i sp size ptr, down, here)
      (omega arith, omega arith, omega arith, omega (arith, h), rest)

-- If the memory below `sp` has room for the stacks with 15 bytes of padding each, the stacks of a
-- cluster's cores lie one below the other between the returned pointer and `sp`, at multiples of 16.
pub generate_sps-IsStacked :
    (cluster_id sp : ℕ) (size ptr : ℕ → ℕ)
    → sp < 2 ^ 64
    → room (num_cores cluster_id) 0 size ≤ sp
    → let r = generate_sps cluster_id sp size ptr in
      IsStacked (num_cores cluster_id) 0 r.0 sp size r.1
unfolding generate_sps
generate_sps-IsStacked cluster_id sp size ptr lt h =
    generate_loop-IsStacked (num_cores cluster_id) 0 sp size ptr lt h

low_le :
    (count i low high : ℕ) (size ptr : ℕ → ℕ) → IsStacked count i low high size ptr → low ≤ high
low_le zero i low high size ptr s = s
low_le (suc count) i low high size ptr (le, near, al, fits, rest) =
    omega (arith, low_le count (suc i) low (ptr i - size i) size ptr rest)

pub in_stack :
    (count i low high : ℕ) (size ptr : ℕ → ℕ) (k : ℕ)
    → IsStacked count i low high size ptr
    → i ≤ k
    → k < i + count
    → (ptr k ≤ high) × (low + size k ≤ ptr k)
in_stack zero i low high size ptr k s le h = absurd (omega arith)
in_stack (suc count) i low high size ptr k (top, near, al, fits, rest) le h =
    elim (ℕ_discrete i k) [
      | yes e ↦
          let under : low + size i ≤ ptr i =
            omega (arith, low_le count (suc i) low (ptr i - size i) size ptr rest) in
          let both : (ptr i ≤ high) × (low + size i ≤ ptr i) = (top, under) in rw e at both
      | no ne ↦
          let (a, b) =
            in_stack count (suc i) low (ptr i - size i) size ptr k rest (omega arith)
              (omega arith) in
          (omega (arith, a), b)
    ]

-- In a stack of stacks, each lies below those of the lower cores.
pub IsStacked-apart :
    (count i low high : ℕ) (size ptr : ℕ → ℕ) (j k : ℕ)
    → IsStacked count i low high size ptr
    → i ≤ j
    → j < k
    → k < i + count
    → (ptr k + size j ≤ ptr j) × (low + size k ≤ ptr k)
IsStacked-apart zero i low high size ptr j k s le lt h = absurd (omega arith)
IsStacked-apart (suc count) i low high size ptr j k (top, near, al, fits, rest) le lt h =
    elim (ℕ_discrete i j) [
      | yes e ↦
          let (a, b) =
            in_stack count (suc i) low (ptr i - size i) size ptr k rest (omega arith)
              (omega arith) in
          let under : ptr k + size i ≤ ptr i = omega (arith, a) in (rw e at under, b)
      | no ne ↦
          IsStacked-apart count (suc i) low (ptr i - size i) size ptr j k rest (omega arith) lt
            (omega arith)
    ]

-- If the memory below `sp` has room for the stacks with 15 bytes of padding each, the stacks of two
-- different cores of a cluster do not overlap, and both lie above the returned pointer.
pub generate_sps-apart :
    (cluster_id sp : ℕ) (size ptr : ℕ → ℕ) (j k : ℕ)
    → sp < 2 ^ 64
    → room (num_cores cluster_id) 0 size ≤ sp
    → j < k
    → k < num_cores cluster_id
    → let r = generate_sps cluster_id sp size ptr in
      (r.1 k + size j ≤ r.1 j) × (r.0 + size k ≤ r.1 k)
generate_sps-apart cluster_id sp size ptr j k lt h j_lt k_lt =
    let r = generate_sps cluster_id sp size ptr in
    IsStacked-apart (num_cores cluster_id) 0 r.0 sp size r.1 j k
      (generate_sps-IsStacked cluster_id sp size ptr lt h) (omega arith) j_lt (omega arith)

-- The version with one stack size is the other one with that size for every core.
pub generate_sps_uniform-IsStacked :
    (cluster_id sp size : ℕ) (ptr : ℕ → ℕ)
    → sp < 2 ^ 64
    → room (num_cores cluster_id) 0 (λ i. size) ≤ sp
    → let r = generate_sps_uniform cluster_id sp size ptr in
      IsStacked (num_cores cluster_id) 0 r.0 sp (λ i. size) r.1
unfolding generate_sps_uniform
generate_sps_uniform-IsStacked cluster_id sp size ptr lt h =
    generate_loop-IsStacked (num_cores cluster_id) 0 sp (λ i. size) ptr lt h
