-- ===== src/Runner/Watch/Verdict.antt =====
-- The verdict of the supervision loop is true of the clusters and of the timer.
use native.Mathlib.Decide.{ℕ_discrete}
use chimera_sdk.Base.{
  ℕ, zero, suc, ◌+◌, ◌≤◌, ◌<◌, ◌≡◌, ◌∙◌, sym, arith, Bool, Bool-cases, true, false, inl, inr, some,
  ==-ne,
}
use chimera_sdk.Clint.{Mtime, value, IsMtime, get_mtime, less_than}
use chimera_sdk.Clint.Order.{less_than_iff, not-less_than}
use chimera_sdk.Clint.Read.{IsClock, IsReading, get_mtime-IsReading}
use chimera_sdk.Clint.Spin.{>>=-eq-some}
use chimera_sdk.Clint.Sleep.{sleep_ticks, sleep_ticks-later}
use chimera_sdk.Runner.Watch.{Bus, Host, count_idle, serve_call, watch}
use chimera_sdk.Runner.Watch.Count.{IsAllIdle, count_idle-IsCount, serve_call-later, watch_all}

-- All clusters were found idle, from access `n` to access `n'`, and before the deadline passed.
pub record IsInTime (bus : Bus) (ids : ℕ → ℕ) (clusters : ℕ) (limit : Mtime) (n n' : ℕ)
    : Type 0 where
  pub at : ℕ
  pub after : n ≤ at
  pub before : at + clusters ≤ n'
  pub all_idle_at : IsAllIdle bus ids clusters 0 at
  pub in_time : bus.counters.mtime at ≤ value limit

-- What a verdict says: too late, or in time.
abbrev pub IsVerdict : Bus → (ℕ → ℕ) → (clusters : ℕ) → Mtime → (n n' : ℕ) → Bool → Type 0
IsVerdict bus ids clusters limit n n' true = value limit < bus.counters.mtime n'
IsVerdict bus ids clusters limit n n' false = IsInTime bus ids clusters limit n n'

module _ (bus : Bus) (clock : IsClock bus.counters) (clusters : ℕ) (ids : ℕ → ℕ) (limit : Mtime)
    (ok : IsMtime limit) where
  abbrev pub polled : ℕ → ℕ × ℕ
  polled n = count_idle bus ids clusters 0 0 n

  -- The deadline had not passed when a round with an early reading began.
  pub still_early :
      (n k : ℕ) (m : Mtime)
      → IsReading bus.counters (polled n).1 m k
      → less_than limit m ≡ false
      → bus.counters.mtime n ≤ value limit
  still_early n k m r early =
      let c = count_idle-IsCount bus ids clusters 0 0 n in
      omega (
        arith,
        not-less_than limit m ok r.words early,
        r.exact,
        clock.mono n r.at (omega (arith, r.after, c.next_access)),
      )

  poll_seen :
      (n0 n k : ℕ) (m : Mtime) (n' : ℕ)
      → n0 ≤ n
      → IsReading bus.counters (polled n).1 m k
      → less_than limit m ≡ false
      → k ≤ n'
      → (polled n).0 ≡ clusters
      → IsInTime bus ids clusters limit n0 n'
  poll_seen n0 n k m n' le r early k_le all =
      let c = count_idle-IsCount bus ids clusters 0 0 n in
      record {
        at = n;
        after = le;
        before = omega (arith, c.next_access, r.after, r.before, k_le);
        all_idle_at = c.full (omega (arith, all));
        in_time = still_early n k m r early;
      }

  passed :
      (m : Mtime) (k n : ℕ)
      → IsReading bus.counters n m k
      → less_than limit m ≡ true
      → value limit < bus.counters.mtime k
  passed m k n r late = omega (
    arith,
    (less_than_iff limit m ok r.words).0 late,
    r.exact,
    clock.mono r.at k (omega (arith, r.before)),
  )

  -- The loop with what the round before has found.
  watch-IsVerdict_from :
      (reads fuel n0 done : ℕ) (host : Host) (n : ℕ) (b : Bool) (host' : Host) (n' : ℕ)
      → n0 ≤ n
      → (done ≡ clusters → IsInTime bus ids clusters limit n0 n)
      → watch bus reads fuel clusters ids limit done host n ≡ some ((b, host'), n')
      → IsVerdict bus ids clusters limit n0 n' b
  unfolding watch
  watch-IsVerdict_from reads zero n0 done host n b host' n' le seen e = cc
  watch-IsVerdict_from reads (suc fuel) n0 done host n b host' n' le seen e =
      elim (ℕ_discrete done clusters) [
        | yes all ↦
            let runs = sym (watch_all bus reads fuel clusters ids limit done host n all) ∙ e in
            let verdict : false ≡ b = cc runs in
            let ends : n ≡ n' = cc runs in rw (← verdict, ← ends) (seen all)
        | no ne ↦
            let c = bus.counters in
            let ((m, k), read, rest) =
              >>=-eq-some (get_mtime c reads (polled n).1) _
                (rw (==-ne done clusters ne, watch) at e) in
            let r : IsReading c (polled n).1 m k =
              get_mtime-IsReading reads (polled n).1 clock read in
            elim (Bool-cases (less_than limit m)) [
              | inl late ↦
                  let runs = rw late at rest in
                  let verdict : true ≡ b = cc runs in
                  let ends : k ≡ n' = cc runs in
                  rw (← verdict, ← ends) (passed m k (polled n).1 r late)
              | inr early ↦
                  let s = serve_call bus host k in
                  let ((core, q), sleeps, go) =
                    >>=-eq-some (sleep_ticks c reads 0 10 s.0.core s.1) _ (rw early at rest) in
                  let later = sleep_ticks-later reads 0 10 s.0.core core s.1 q clock sleeps in
                  let polls = count_idle-IsCount bus ids clusters 0 0 n in
                  watch-IsVerdict_from reads fuel n0 (polled n).0 (record s.0 { core = core }) q b
                    host' n'
                    (omega (
                      arith,
                      le,
                      later,
                      serve_call-later bus host k,
                      r.after,
                      r.before,
                      polls.next_access,
                    ))
                    (poll_seen n0 n k m q le r early
                      (omega (arith, later, serve_call-later bus host k)))
                    go
            ]
      ]

-- On a timer that neither runs backwards nor overflows, for a loop that starts with no cluster found
-- done: if it ends with the verdict that the clusters were too late, the timer has passed the
-- deadline; if with the verdict that they were in time, each of them was found idle, one after the
-- other, from an access at which the deadline had not passed.
pub watch-IsVerdict :
    (bus : Bus) (ids : ℕ → ℕ) (reads fuel clusters : ℕ) (limit : Mtime) (host : Host) (n : ℕ)
    (b : Bool) (host' : Host) (n' : ℕ)
    → IsClock bus.counters
    → IsMtime limit
    → 0 < clusters
    → watch bus reads fuel clusters ids limit 0 host n ≡ some ((b, host'), n')
    → IsVerdict bus ids clusters limit n n' b
watch-IsVerdict bus ids reads fuel clusters limit host n b host' n' clock ok some_clusters e =
    watch-IsVerdict_from bus clock clusters ids limit ok reads fuel n 0 host n b host' n'
      (omega arith) (λ all. absurd (omega (arith, all))) e
