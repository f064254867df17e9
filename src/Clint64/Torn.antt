-- ===== src/Clint64/Torn.antt =====
-- A reading of the timer by the 64-bit driver takes the two words at different times.
use native.Mathlib.Nat.{mod-eq_of_lt}
use chimera_sdk.Base.{ℕ, ◌+◌, ◌*◌, ◌^◌, ◌≤◌, ◌≡◌, ◌⊎◌, ◌↔◌, refl, arith, u64}
use chimera_sdk.Base.Bits.{bit_or_sum}
use chimera_sdk.Clint.{Counters, mtime_low, mtime_high}
use chimera_sdk.Clint.Read.{IsClock}
use chimera_sdk.Clint64.{get_mtime64}

get_mtime64-words :
    (c : Counters) (n : ℕ) → (get_mtime64 c n).0 ≡ mtime_high c n * 2 ^ 32 + mtime_low c (n + 1)
unfolding get_mtime64
get_mtime64-words c n =
    let fits : u64 (mtime_high c n * 2 ^ 32) ≡ mtime_high c n * 2 ^ 32 =
      mod-eq_of_lt (omega arith) in
    rw fits (bit_or_sum 32 (mtime_high c n) (mtime_low c (n + 1)) (omega arith))

-- On a counter that neither runs backwards nor overflows, the value read is the counter at the
-- second access exactly if no carry into the high word falls between the two accesses; with a
-- carry it is at least 2 ^ 32 too small.
pub get_mtime64_iff :
    {c : Counters} (n : ℕ)
    → IsClock c
    → (((get_mtime64 c n).0 ≡ c.mtime (n + 1)) ↔ (mtime_high c n ≡ mtime_high c (n + 1)))
      × ((mtime_high c n ≡ mtime_high c (n + 1)) ⊎ ((get_mtime64 c n).0 + 2 ^ 32 ≤ c.mtime (n + 1)))
get_mtime64_iff {c} n clock = rw (get_mtime64-words c n) (
  omega (arith, clock.mono n (n + 1) (omega arith), clock.bound n, clock.bound (n + 1)),
  omega (arith, clock.mono n (n + 1) (omega arith), clock.bound n, clock.bound (n + 1)),
)

-- The value read is never above the counter at the second access.
pub get_mtime64-behind : {c : Counters} (n : ℕ) → IsClock c → (get_mtime64 c n).0 ≤ c.mtime (n + 1)
get_mtime64-behind {c} n clock =
    rw (get_mtime64-words c n)
      (omega (arith, clock.mono n (n + 1) (omega arith), clock.bound n, clock.bound (n + 1)))

-- With no carry between the two accesses it is the counter at the second.
pub get_mtime64-exact :
    {c : Counters} (n : ℕ)
    → IsClock c
    → mtime_high c n ≡ mtime_high c (n + 1)
    → (get_mtime64 c n).0 ≡ c.mtime (n + 1)
get_mtime64-exact n clock same = (get_mtime64_iff n clock).0.1 same

pub get_mtime64-accesses : (c : Counters) (n : ℕ) → (get_mtime64 c n).1 ≡ n + 2
unfolding get_mtime64
get_mtime64-accesses c n = refl
