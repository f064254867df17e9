-- ===== src/Clint64/Freq.antt =====
-- `clint_get_core_freq` of the 64-bit driver: unlike the 32-bit one it never divides by zero.
use chimera_sdk.Base.{
  ℕ, zero, suc, ◌+◌, ◌/◌, ◌^◌, ◌≤◌, ◌<◌, ◌≡◌, ◌≢◌, inl, inr, Bool-cases, Option, none, some, false,
  arith, ltb, u64, sub64, ◌==◌, ==-ne,
}
use chimera_sdk.Clint.{Counters}
use chimera_sdk.Clint.Read.{IsClock}
use chimera_sdk.Clint.Spin.{>>=-eq-some}
use chimera_sdk.Clint64.{
  get_mtime64, Sample64, sample64, await_tick64, await_target64, quotient64, get_core_freq64,
}
use chimera_sdk.Clint64.Torn.{get_mtime64-behind}

sample64-behind : {c : Counters} (n : ℕ) → IsClock c → (sample64 c n).0.time ≤ c.mtime (n + 1 + 1)
unfolding sample64
sample64-behind n clock = get_mtime64-behind (n + 1) clock

sample64-bound : {c : Counters} (n : ℕ) → IsClock c → (sample64 c n).0.time < 2 ^ 64
sample64-bound {c} n clock = omega (arith, sample64-behind n clock, clock.bound (n + 1 + 1))

await_target64-reached :
    {c : Counters} (fuel target n : ℕ) {s : Sample64} {n' : ℕ}
    → IsClock c
    → await_target64 c fuel target n ≡ some (s, n')
    → (target ≤ s.time) × (s.time < 2 ^ 64)
unfolding await_target64
await_target64-reached zero target n clock e = cc
await_target64-reached {c} (suc fuel) target n {s} clock e =
    elim (Bool-cases (ltb (sample64 c n).0.time target)) [
      | inl early ↦
          await_target64-reached fuel target (sample64 c n).1 clock
            (rw (early, await_target64) at e)
      | inr late ↦
          let same : (sample64 c n).0 ≡ s = cc (rw (late, await_target64) at e) in
          rw (← same) (not_early _ _ late, sample64-bound n clock)
    ]
  where
    not_early : (a b : ℕ) → ltb a b ≡ false → b ≤ a
    not_early a b h = ground arith

quotient64-some :
    (ref_freq : ℕ) (start end : Sample64)
    → start.time < end.time
    → end.time < 2 ^ 64
    → quotient64 ref_freq start end ≢ none
unfolding quotient64
quotient64-some ref start end lt small =
    let differs : sub64 end.time start.time ≢ 0 = omega arith in rw (==-ne _ 0 differs) (λ e. cc)

await_tick64-behind :
    {c : Counters} (fuel end n : ℕ) {s : Sample64} {n' : ℕ}
    → IsClock c
    → await_tick64 c fuel end n ≡ some (s, n')
    → (j : ℕ) × (s.time ≤ c.mtime j)
unfolding await_tick64
await_tick64-behind zero end n clock e = cc
await_tick64-behind {c} (suc fuel) end n {s} clock e =
    elim (Bool-cases ((sample64 c n).0.time == end)) [
      | inl same ↦
          await_tick64-behind fuel end (sample64 c n).1 clock (rw (same, await_tick64) at e)
      | inr moved ↦
          let taken : (sample64 c n).0 ≡ s = cc (rw (moved, await_tick64) at e) in
          rw (← taken) (n + 1 + 1, sample64-behind n clock)
    ]

-- If the reference time is at least one tick and not 0, and adding it to the timer never passes
-- 2 ^ 64: a measurement of the 64-bit driver that returns has not divided by zero.
pub get_core_freq64-divides :
    {c : Counters} (fuel ref_freq ref_time_inv n : ℕ) {f : Option ℕ} {n' : ℕ}
    → IsClock c
    → ref_time_inv ≢ 0
    → 0 < ref_freq / ref_time_inv
    → ((i : ℕ) → c.mtime i + ref_freq / ref_time_inv < 2 ^ 64)
    → get_core_freq64 c fuel ref_freq ref_time_inv n ≡ some (f, n')
    → f ≢ none
unfolding get_core_freq64
get_core_freq64-divides {c} fuel ref inv n {f} clock ne pos room e =
    let r = get_mtime64 c n in
    let ((s, k1), first, rest1) =
      >>=-eq-some (await_tick64 c fuel r.0 r.1) _ (rw (==-ne inv 0 ne) at e) in
    let ((t, k2), second, rest2) =
      >>=-eq-some (await_target64 c fuel (u64 (s.time + ref / inv)) k1) _ rest1 in
    let (j, behind) = await_tick64-behind fuel r.0 r.1 clock first in
    let (reached, small) = await_target64-reached fuel (u64 (s.time + ref / inv)) k1 clock second in
    let result : quotient64 ref s t ≡ f = cc rest2 in
    rw result at (quotient64-some ref s t (omega (arith, reached, behind, room j, pos)) small)
