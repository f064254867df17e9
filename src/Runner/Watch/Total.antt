-- ===== src/Runner/Watch/Total.antt =====
-- The supervision loop ends, whatever the clusters do.
use native.Mathlib.Decide.{ℕ_discrete}
use native.Mathlib.Nat.{add-zero}
use chimera_sdk.Base.{
  ℕ, zero, suc, ◌+◌, ◌≤◌, ◌<◌, ◌≡◌, ◌∙◌, arith, Bool, Bool-cases, true, false, inl, inr, some,
}
use chimera_sdk.Clint.{Mtime, value, IsMtime, ◌>>=◌, less_than}
use chimera_sdk.Clint.Read.{IsClock, IsReading, get_mtime-IsReading, get_mtime-total}
use chimera_sdk.Clint.Spin.{IsSlow}
use chimera_sdk.Clint.Sleep.{sleep_ticks-later, sleep_ticks-total}
use chimera_sdk.Runner.Watch.{Bus, Host, count_idle, serve_call, watch}
use chimera_sdk.Runner.Watch.Count.{
  count_idle-IsCount, serve_call-later, watch_all, watch_late, watch_round,
}
use chimera_sdk.Runner.Watch.Verdict.{still_early}

-- On a timer that neither runs backwards nor overflows and advances by less than 2 ^ 32 over any six
-- accesses: if it passes the deadline within the next `k` accesses, the loop ends within `k + 1`
-- rounds, each reading of the timer within two, whatever the clusters do and whatever they call
-- for.
pub watch-total :
    (bus : Bus) (ids : ℕ → ℕ) (clusters : ℕ) (limit : Mtime) (k done : ℕ) (host : Host) (n : ℕ)
    → IsClock bus.counters
    → IsSlow bus.counters
    → IsMtime limit
    → value limit < bus.counters.mtime (n + k)
    → (b : Bool) × (host' : Host) × (n' : ℕ) × (watch bus 2 (suc k) clusters ids limit done host n
        ≡ some ((b, host'), n'))
watch-total bus ids clusters limit zero done host n clock slow ok passed =
    elim (ℕ_discrete done clusters) [
      | yes all ↦ (false, host, n, watch_all bus 2 0 clusters ids limit done host n all)
      | no ne ↦
          let at = (count_idle bus ids clusters 0 0 n).1 in
          let (m, q, read, _) = get_mtime-total 0 at clock (slow at) in
          let r : IsReading bus.counters at m q = get_mtime-IsReading 2 at clock read in
          elim (Bool-cases (less_than limit m)) [
            | inl late ↦
                (true, host, q, watch_late bus 2 0 clusters ids limit done host n m q ne read late)
            | inr early ↦ absurd (
                omega (
                  arith,
                  still_early bus clock clusters ids limit ok n q m r early,
                  rw add-zero at passed,
                ))
          ]
    ]
watch-total bus ids clusters limit (suc k) done host n clock slow ok passed =
    elim (ℕ_discrete done clusters) [
      | yes all ↦ (false, host, n, watch_all bus 2 (suc k) clusters ids limit done host n all)
      | no ne ↦
          let at = (count_idle bus ids clusters 0 0 n).1 in
          let (m, q, read, _) = get_mtime-total 0 at clock (slow at) in
          let r : IsReading bus.counters at m q = get_mtime-IsReading 2 at clock read in
          elim (Bool-cases (less_than limit m)) [
            | inl late ↦ (
              true,
              host,
              q,
              watch_late bus 2 (suc k) clusters ids limit done host n m q ne read late,
            )
            | inr early ↦
                let s = serve_call bus host q in
                let (core, p, sleeps) = sleep_ticks-total 0 10 s.0.core s.1 clock slow in
                let later = sleep_ticks-later 2 0 10 s.0.core core s.1 p clock sleeps in
                let polls = count_idle-IsCount bus ids clusters 0 0 n in
                let on : n + suc k ≤ p + k = omega (
                  arith,
                  later,
                  serve_call-later bus host q,
                  r.after,
                  r.before,
                  polls.next_access,
                ) in
                let (b, host', n', runs) =
                  watch-total bus ids clusters limit k (count_idle bus ids clusters 0 0 n).0
                    (record s.0 { core = core }) p clock slow ok
                    (omega (arith, passed, clock.mono (n + suc k) (p + k) on)) in
                (
                  b,
                  host',
                  n',
                  watch_round bus 2 (suc k) clusters ids limit done host n m q ne read early
                      ∙ rw (sleeps, ◌>>=◌) runs,
                )
          ]
    ]
