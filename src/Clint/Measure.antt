-- ===== src/Clint/Measure.antt =====
-- `clint_get_core_freq` as a whole: the two samples behind its result, the quotient in exact
-- arithmetic, and the wrap of the target's low word.
use native.Mathlib.Nat.{mod-eq_of_lt, mul-le-mul}
use chimera_sdk.Base.{
  ℕ, suc, ◌+◌, ◌-◌, ◌*◌, ◌/◌, ◌^◌, ◌≤◌, ◌<◌, ◌≡◌, ◌≢◌, refl, inl, inr, Option-cases, Option, false,
  some, arith, u32, sub64, ==-ne,
}
use chimera_sdk.Clint.{
  Mtime, value, IsMtime, Counters, ◌>>=◌, get_mtime, less_than, Sample, sample, await_tick,
  await_target, freq_target, quotient, get_core_freq,
}
use chimera_sdk.Clint.Order.{not-less_than}
use chimera_sdk.Clint.Read.{IsClock, IsReading, get_mtime-IsReading}
use chimera_sdk.Clint.Spin.{>>=-eq-some}
use chimera_sdk.Clint.Freq.{
  IsSample, sample-IsSample, IsSample-earlier, await_tick-IsSample, await_target-IsSample,
}

-- What stands behind the result of a measurement over accesses `n` to `n'`.
pub record IsMeasured (c : Counters) (ref_freq num_ticks n : ℕ) (f : Option ℕ) (n' : ℕ)
    : Type 0 where
  pub start : Sample
  pub end : Sample
  pub middle : ℕ
  pub start_at : IsSample c n start middle
  pub end_at : IsSample c middle end n'
  pub waited : value (freq_target start.time num_ticks) ≤ value end.time
  pub result : f ≡ quotient ref_freq start end

pub freq_target-IsMtime : (s : Mtime) (num : ℕ) → IsMtime s → IsMtime (freq_target s num)
unfolding freq_target
freq_target-IsMtime s num v = record { low_lt = omega arith; high_lt = v.high_lt }

-- A measurement that returns has taken two samples one after the other, the second not before the
-- target computed from the first, and returns the quotient of the two samples.
pub get_core_freq-IsMeasured :
    {c : Counters} (reads fuel ref_freq ref_time_inv n : ℕ) {f : Option ℕ} {n' : ℕ}
    → IsClock c
    → ref_time_inv ≢ 0
    → get_core_freq c reads fuel ref_freq ref_time_inv n ≡ some (f, n')
    → IsMeasured c ref_freq (ref_freq / ref_time_inv) n f n'
unfolding get_core_freq
get_core_freq-IsMeasured {c} reads fuel ref inv n {f} {n'} clock ne e =
    let ((m, k0), read, rest0) = >>=-eq-some (get_mtime c reads n) _ (rw (==-ne inv 0 ne) at e) in
    let ((s, k1), first, rest1) = >>=-eq-some (await_tick c reads fuel m k0) _ rest0 in
    let ((t, k2), second, rest2) =
      >>=-eq-some (await_target c reads fuel (freq_target s.time (ref / inv)) k1) _ rest1 in
    let r : IsReading c n m k0 = get_mtime-IsReading reads n clock read in
    let start : IsSample c k0 s k1 = await_tick-IsSample reads fuel m k0 clock first in
    let (ends, late) =
      await_target-IsSample reads fuel (freq_target s.time (ref / inv)) k1 clock second in
    let ek : k2 ≡ n' = cc rest2 in
    record {
      start = s;
      end = t;
      middle = k1;
      start_at = IsSample-earlier (omega (arith, r.after, r.before)) start;
      end_at = rw ek at ends;
      waited =
          not-less_than t.time (freq_target s.time (ref / inv)) ends.time_at.words
            (freq_target-IsMtime s.time (ref / inv) start.time_at.words) late;
      result = cc rest2;
    }

mul-lt_word : (a b : ℕ) → a < 2 ^ 32 → b < 2 ^ 32 → a * b < 2 ^ 64
mul-lt_word a b ha hb = omega (
  arith,
  mul-le-mul {n₁ = a} {m₁ = b} {n₂ = 2 ^ 32 - 1} {m₂ = 2 ^ 32 - 1} (omega arith) (omega arith),
)

-- The quotient is exact, with no wrap in `uint64_t`, if neither the cycle counter nor the low word
-- of the timer wrapped between the samples.
pub quotient_exact :
    (ref_freq : ℕ) (start end : Sample)
    → start.time.low < end.time.low
    → end.time.low < 2 ^ 32
    → start.cycle ≤ end.cycle
    → end.cycle < 2 ^ 32
    → ref_freq < 2 ^ 32
    → quotient ref_freq start end
      ≡ some (u32 ((end.cycle - start.cycle) * ref_freq / (end.time.low - start.time.low)))
unfolding quotient
quotient_exact ref start end ticks tl cycles tc small =
    rw (elapsed, counted, mod-eq_of_lt product_fits, ==-ne _ 0 (no_zero)) refl
  where
    elapsed : sub64 end.time.low start.time.low ≡ end.time.low - start.time.low
    elapsed = omega arith

    counted : sub64 end.cycle start.cycle ≡ end.cycle - start.cycle
    counted = omega arith

    product_fits : (end.cycle - start.cycle) * ref < 2 ^ 64
    product_fits = mul-lt_word (end.cycle - start.cycle) ref (omega arith) small

    no_zero : end.time.low - start.time.low ≢ 0
    no_zero = omega arith

wrapped_target_past :
    (s e : Mtime) (num : ℕ)
    → IsMtime s
    → IsMtime e
    → num < 2 ^ 32
    → 2 ^ 32 ≤ s.low + num
    → value s ≤ value e
    → less_than e (freq_target s num) ≡ false
unfolding freq_target less_than
wrapped_target_past s e num vs ve small wraps le = ground arith

samples_in_order :
    {c : Counters} {n k k' : ℕ} {s t : Sample}
    → IsClock c
    → IsSample c n s k
    → IsSample c k t k'
    → value s.time ≤ value t.time
samples_in_order clock first second = omega (
  arith,
  first.time_at.exact,
  second.time_at.exact,
  clock.mono first.time_at.at second.time_at.at
      (omega (arith, first.time_at.before, second.later, second.time_at.after)),
)

-- Near a wrap of the timer's low word the measurement does not wait: if the start plus the
-- reference ticks passes 2 ^ 32, the first sample of the second loop ends it.
pub await_target_wraps :
    {c : Counters} (reads fuel num_ticks n : ℕ) {s : Sample} {k : ℕ}
    → IsClock c
    → IsSample c n s k
    → num_ticks < 2 ^ 32
    → 2 ^ 32 ≤ s.time.low + num_ticks
    → await_target c reads (suc fuel) (freq_target s.time num_ticks) k ≡ sample c reads k
unfolding await_target
await_target_wraps {c} reads fuel num n {s} {k} clock first small wraps =
    elim (Option-cases (sample c reads k)) [
      | inl nothing ↦ rw (nothing, ◌>>=◌)
      | inr ((t, k2), taken) ↦
          let again : IsSample c k t k2 = sample-IsSample reads k clock taken in
          rw (
            taken,
            ◌>>=◌,
            wrapped_target_past s.time t.time num first.time_at.words again.time_at.words small
                wraps (samples_in_order clock first again),
          )
    ]
