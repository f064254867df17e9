-- ===== src/Clint/Freq.antt =====
-- `clint_get_core_freq`: what a measurement that returns has measured, and when it does not wait.
use chimera_sdk.Base.{
  ℕ, zero, suc, ◌+◌, ◌≤◌, ◌≡◌, ◌∙◌, refl, inl, inr, Bool-cases, false, some, arith, u32, ◌==◌, ◌&&◌,
}
use chimera_sdk.Clint.{
  Mtime, Counters, get_mtime, less_than, Sample, sample, await_tick, await_target,
}
use chimera_sdk.Clint.Read.{IsClock, IsReading, get_mtime-IsReading}
use chimera_sdk.Clint.Spin.{>>=-eq-some}

-- A sample taken between accesses `n` and `n'`: the cycle counter is read first, then the time.
pub record IsSample (c : Counters) (n : ℕ) (s : Sample) (n' : ℕ) : Type 0 where
  pub from : ℕ
  pub later : n ≤ from
  pub cycle_at : s.cycle ≡ u32 (c.mcycle from)
  pub time_at : IsReading c (from + 1) s.time n'

pub sample-IsSample :
    {c : Counters} (reads n : ℕ) {s : Sample} {n' : ℕ}
    → IsClock c
    → sample c reads n ≡ some (s, n')
    → IsSample c n s n'
unfolding sample
sample-IsSample {c} reads n {s} {n'} clock e =
    let ((m, k), read, rest) = >>=-eq-some (get_mtime c reads (n + 1)) _ e in
    let es : record { cycle = u32 (c.mcycle n); time = m } ≡ s = cc rest in
    let ek : k ≡ n' = cc rest in
    rw (← es, ← ek)
      (record {
        from = n;
        later = omega arith;
        cycle_at = refl;
        time_at = get_mtime-IsReading reads (n + 1) clock read;
      })

pub IsSample-earlier :
    {c : Counters} {n k n' : ℕ} {s : Sample} → n ≤ k → IsSample c k s n' → IsSample c n s n'
IsSample-earlier le r = record {
  from = r.from;
  later = omega (arith, r.later);
  cycle_at = r.cycle_at;
  time_at = r.time_at;
}

pub await_tick-IsSample :
    {c : Counters} (reads fuel : ℕ) (end : Mtime) (n : ℕ) {s : Sample} {n' : ℕ}
    → IsClock c
    → await_tick c reads fuel end n ≡ some (s, n')
    → IsSample c n s n'
unfolding await_tick
await_tick-IsSample reads zero end n clock e = cc
await_tick-IsSample {c} reads (suc fuel) end n clock e =
    let ((s1, k), taken, rest) = >>=-eq-some (sample c reads n) _ e in
    let r : IsSample c n s1 k = sample-IsSample reads n clock taken in
    elim (Bool-cases (s1.time.low == end.low && s1.time.high == end.high)) [
      | inl same ↦
          IsSample-earlier (omega (arith, r.later, r.time_at.after, r.time_at.before))
            (await_tick-IsSample reads fuel end k clock (rw same at rest))
      | inr moved ↦ sample-IsSample reads n clock (taken ∙ rw moved at rest)
    ]

pub await_target-IsSample :
    {c : Counters} (reads fuel : ℕ) (target : Mtime) (n : ℕ) {s : Sample} {n' : ℕ}
    → IsClock c
    → await_target c reads fuel target n ≡ some (s, n')
    → IsSample c n s n' × (less_than s.time target ≡ false)
unfolding await_target
await_target-IsSample reads zero target n clock e = cc
await_target-IsSample {c} reads (suc fuel) target n {s} clock e =
    let ((s1, k), taken, rest) = >>=-eq-some (sample c reads n) _ e in
    let r : IsSample c n s1 k = sample-IsSample reads n clock taken in
    elim (Bool-cases (less_than s1.time target)) [
      | inl early ↦
          let go = await_target-IsSample reads fuel target k clock (rw early at rest) in
          (IsSample-earlier (omega (arith, r.later, r.time_at.after, r.time_at.before)) go.0, go.1)
      | inr late ↦
          let same : s1 ≡ s = cc (rw late at rest) in
          (sample-IsSample reads n clock (taken ∙ rw late at rest), rw same at late)
    ]
