-- ===== src/Runner/Whole/Finish.antt =====
-- A run of the clusters comes to an end, and its outcome is right.
use native.Mathlib.Nat.{zero-add}
use chimera_sdk.Base.{
  ℕ, zero, suc, ◌+◌, ◌^◌, ◌≤◌, ◌<◌, ◌≡◌, ◌≢◌, ◌∙◌, refl, ap, arith, Bool, true, false, some,
}
use chimera_sdk.Mmio.{Regs, write32, write32_ne}
use chimera_sdk.Clint.{Mtime, value, IsMtime, ◌>>=◌, get_mtime, deadline}
use chimera_sdk.Clint.Order.{deadline-value}
use chimera_sdk.Clint.Read.{IsClock, IsReading, get_mtime-IsReading}
use chimera_sdk.Clint.Spin.{IsSlow}
use chimera_sdk.Offload.{Soc, soc_ctrl_base}
use chimera_sdk.Offload.Wait.{cluster_busy}
use chimera_sdk.Runner.{timeout_ticks}
use chimera_sdk.Runner.Clusters.{
  gate_of, low_byte, listed, gate_clusters_lem, set_up_clusters-gate, overwritten,
}
use chimera_sdk.Runner.Offloads.{IsJob, IsIdle, IsDone, offload_clusters_from}
use chimera_sdk.Runner.Watch.{Bus, Host}
use chimera_sdk.Runner.Watch.Verdict.{IsVerdict, watch-IsVerdict}
use chimera_sdk.Runner.Watch.Total.{watch-total}
use chimera_sdk.Runner.Whole.{
  TestConfig, job_of, set_up, collect_results, Outcome, with_interrupts, run_from, run_clusters,
}
use chimera_sdk.Runner.Whole.Collect.{
  late_ret, IsReport, collect_results-late, collect_results-in_time,
}

timeout_ticks_lt : (rtc_freq timeout : ℕ) → timeout_ticks rtc_freq timeout < 2 ^ 32
unfolding timeout_ticks
timeout_ticks_lt rtc_freq timeout = omega arith

-- The clusters under test: they are different ones of the five, idle when they are offloaded from
-- access `n` on, and each of them that is found idle after the offload has put its result in
-- its return register.
pub record IsTested (bus : Bus) (cfg : TestConfig) (n : ℕ) : Type 0 where
  pub some_clusters : 0 < cfg.clusters
  pub job : IsJob (job_of cfg) cfg.clusters
  pub idle : IsIdle (job_of cfg) cfg.clusters 0 bus.busy n
  pub reports :
      (i a m : ℕ)
      → i < cfg.clusters
      → n + cfg.clusters ≤ a
      → a ≤ m
      → cluster_busy (cfg.cluster_ids i) (bus.busy (cfg.cluster_ids i) a) ≡ 0
      → bus.returns (cfg.cluster_ids i) m ≢ 0

-- The gate of a cluster when it is offloaded.
offloaded_gate :
    (cfg : TestConfig) (soc t : Soc) (d : ℕ)
    → d < 5
    → IsDone (job_of cfg) cfg.clusters 0 (set_up cfg soc) t
    → t.regs (gate_of d)
      ≡ low_byte (listed cfg.clusters 0 cfg.cluster_ids d) 0 (soc.regs (gate_of d))
unfolding set_up
offloaded_gate cfg soc t d lt done =
    done.kept (gate_of d) (omega arith)
    ∙ set_up_clusters-gate cfg.clusters 0 cfg.cluster_ids d
        (write32 (soc_ctrl_base + 0x8) cfg.function_interrupt soc.regs) lt
    ∙ ap (low_byte (listed cfg.clusters 0 cfg.cluster_ids d) 0)
        (write32_ne (soc_ctrl_base + 0x8) (gate_of d) cfg.function_interrupt soc.regs (omega arith))

-- The result that a verdict leads to.
abbrev pub IsResult : Bus → TestConfig → (ret n ret' : ℕ) → Bool → Type 0
IsResult bus cfg ret n ret' true = ret' ≡ 0
IsResult bus cfg ret n ret' false = IsReport bus cfg.cluster_ids cfg.clusters 0 ret n ret'

-- The end of a run: at access `at` the supervision had its verdict, the result is what the verdict
-- leads to, and the clock gates of the clusters under test, and only these, are closed.
pub record IsFinished (bus : Bus) (cfg : TestConfig) (limit : Mtime) (ret n : ℕ) (soc : Soc)
    (o : Outcome) : Type 0 where
  pub at : ℕ
  pub verdict : IsVerdict bus cfg.cluster_ids cfg.clusters limit n at o.timed_out
  pub result : IsResult bus cfg ret at o.ret o.timed_out
  pub gated :
      (d : ℕ)
      → d < 5
      → o.soc.regs (gate_of d)
        ≡ low_byte (listed cfg.clusters 0 cfg.cluster_ids d) 1 (soc.regs (gate_of d))

late_ret_some : (count ret : ℕ) → 0 < count → late_ret count ret ≡ 0
late_ret_some zero ret lt = absurd (omega (arith, lt))
late_ret_some (suc count) ret lt = refl

-- The gate of a cluster under test is opened and then closed.
closed :
    (cfg : TestConfig) (soc t : Soc) (d : ℕ)
    → d < 5
    → IsDone (job_of cfg) cfg.clusters 0 (set_up cfg soc) t
    → low_byte (listed cfg.clusters 0 cfg.cluster_ids d) 1 (t.regs (gate_of d))
      ≡ low_byte (listed cfg.clusters 0 cfg.cluster_ids d) 1 (soc.regs (gate_of d))
closed cfg soc t d lt done =
    let on = listed cfg.clusters 0 cfg.cluster_ids d in
    rw (offloaded_gate cfg soc t d lt done)
      (overwritten on 0 1 (soc.regs (gate_of d)) (omega arith))

-- The collection after a verdict.
collected :
    (bus : Bus) (cfg : TestConfig) (fuel ret n at : ℕ) (limit : Mtime) (b : Bool) (soc t : Soc)
    → IsTested bus cfg n
    → IsDone (job_of cfg) cfg.clusters 0 (set_up cfg soc) t
    → IsVerdict bus cfg.cluster_ids cfg.clusters limit (n + cfg.clusters) at b
    → (ret' : ℕ) × (regs' : Regs) × (n' : ℕ) × (collect_results bus
          (suc fuel)
          b
          cfg.cluster_ids
          cfg.clusters
          0
          ret
          at
          t.regs
        ≡ some ((ret', regs'), n'))
      × IsResult bus cfg ret at ret' b
      × ((d : ℕ)
          → d < 5
          → regs' (gate_of d)
            ≡ low_byte (listed cfg.clusters 0 cfg.cluster_ids d) 1 (soc.regs (gate_of d)))
collected bus cfg fuel ret n at limit true soc t tested done verdict = (
  late_ret cfg.clusters ret,
  _,
  at,
  collect_results-late bus (suc fuel) cfg.clusters 0 ret at cfg.cluster_ids t.regs,
  late_ret_some cfg.clusters ret tested.some_clusters,
  λ d lt. gate_clusters_lem cfg.clusters 0 cfg.cluster_ids d t.regs lt ∙ closed cfg soc t d lt done,
)
collected bus cfg fuel ret n at limit false soc t tested done verdict =
    let (ret', regs', n', runs, reported, gates) =
      collect_results-in_time bus fuel cfg.clusters 0 ret at cfg.cluster_ids t.regs
        (λ i h. rw (zero-add i) (tested.job.exists i h))
        (λ i m h le. rw (zero-add i) (
          tested.reports i (verdict.at + i) m h (omega (arith, verdict.after))
            (omega (arith, verdict.before, h, le))
            (rw (zero-add i) at (verdict.all_idle_at i h)))) in
    (ret', regs', n', runs, reported, λ d lt. gates d lt ∙ closed cfg soc t d lt done)

-- The run from the start time on.
run_from-returns :
    (bus : Bus) (cfg : TestConfig) (rtc_freq ret : ℕ) (soc : Soc) (host : Host) (start : Mtime)
    (n k : ℕ)
    → IsClock bus.counters
    → IsSlow bus.counters
    → IsMtime start
    → IsTested bus cfg n
    → value (deadline start (timeout_ticks rtc_freq cfg.timeout))
      < bus.counters.mtime (n + cfg.clusters + k)
    → (o : Outcome) × (n' : ℕ) × (run_from bus 2 (suc k) cfg rtc_freq ret soc host start n
        ≡ some (o, n'))
      × IsFinished bus cfg
          (deadline start (timeout_ticks rtc_freq cfg.timeout))
          ret
          (n + cfg.clusters)
          soc
          o
unfolding run_from
run_from-returns bus cfg rtc_freq ret soc host start n k clock slow words tested passes =
    let limit = deadline start (timeout_ticks rtc_freq cfg.timeout) in
    let ok =
      (deadline-value start (timeout_ticks rtc_freq cfg.timeout) words
        (timeout_ticks_lt rtc_freq cfg.timeout)).1 in
    let (t, offloads, done) =
      offload_clusters_from k cfg.clusters 0 cfg.clusters (job_of cfg) bus.busy n (set_up cfg soc)
        tested.job (omega arith) tested.idle in
    let (b, host', at, watches) =
      watch-total bus cfg.cluster_ids cfg.clusters limit k 0 (with_interrupts host)
        (n + cfg.clusters) clock slow ok passes in
    let verdict =
      watch-IsVerdict bus cfg.cluster_ids 2 (suc k) cfg.clusters limit (with_interrupts host)
        (n + cfg.clusters) b host' at clock ok tested.some_clusters watches in
    let (ret', regs', n', collects, result, gates) =
      collected bus cfg k ret n at limit b soc t tested done verdict in
    (
      record { timed_out = b; ret = ret'; host = host'; soc = record t { regs = regs' } },
      n',
      rw (offloads, ◌>>=◌) (rw (watches, ◌>>=◌) (rw (collects, ◌>>=◌) refl)),
      record { at = at; verdict = verdict; result = result; gated = gates },
    )

-- For a run on a timer that neither runs backwards nor overflows and advances by less than 2 ^ 32
-- over any six accesses, with at least one cluster under test, different ones of the five, each
-- idle when it is offloaded and with its result in its return register when it is found idle after
-- the offload: if the timer passes the deadline within `k` accesses after the offload, the run
-- returns within `k + 1` rounds of each of its loops. It reports a time-out only when the timer has
-- passed the deadline, and then with the result 0; without a time-out, all clusters were found idle
-- from an access at which the deadline had not passed, and the result is half the return value of
-- the last one. In both cases the clock gates of the clusters under test are closed, and those of
-- the other clusters are as they were.
pub run_clusters-IsFinished :
    (bus : Bus) (cfg : TestConfig) (rtc_freq ret : ℕ) (soc : Soc) (host : Host) (start : Mtime)
    (n n1 k : ℕ)
    → IsClock bus.counters
    → IsSlow bus.counters
    → get_mtime bus.counters 2 n ≡ some (start, n1)
    → IsTested bus cfg n1
    → value (deadline start (timeout_ticks rtc_freq cfg.timeout))
      < bus.counters.mtime (n1 + cfg.clusters + k)
    → (o : Outcome) × (n' : ℕ) × (run_clusters bus 2 (suc k) cfg rtc_freq ret soc host n
        ≡ some (o, n'))
      × IsFinished bus cfg
          (deadline start (timeout_ticks rtc_freq cfg.timeout))
          ret
          (n1 + cfg.clusters)
          soc
          o
unfolding run_clusters
run_clusters-IsFinished bus cfg rtc_freq ret soc host start n n1 k clock slow read tested passes =
    let r : IsReading bus.counters n start n1 = get_mtime-IsReading 2 n clock read in
    let (o, n', runs, finished) =
      run_from-returns bus cfg rtc_freq ret soc host start n1 k clock slow r.words tested passes in
    (o, n', rw (read, ◌>>=◌) runs, finished)
