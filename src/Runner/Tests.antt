-- ===== src/Runner/Tests.antt =====
-- Two clusters with a limit of one second on a clock of 32768 Hz.
use chimera_sdk.Base.{
  ℕ, zero, suc, ◌*◌, ◌^◌, ◌<◌, ◌≡◌, ◌≢◌, refl, arith, min, Bool, true, false, none, some, [], ◌==◌,
  inl, ltb, if◌then◌else◌,
}
use chimera_sdk.Clint.{Mtime, IsMtime, Counters, get_mtime, less_than, deadline}
use chimera_sdk.Clint.Read.{IsClock}
use chimera_sdk.Clint.Spin.{IsSlow}
use chimera_sdk.Offload.{Soc}
use chimera_sdk.Runner.Offloads.{IsJob, IsDone, offload_clusters, offload_clusters-IsDone}
use chimera_sdk.Runner.Watch.{Bus, Host, watch}
use chimera_sdk.Runner.Watch.Total.{watch-total}
use chimera_sdk.Runner.Whole.{TestConfig, Outcome, job_of, run_clusters}
use chimera_sdk.Runner.Whole.Finish.{IsTested, IsFinished, run_clusters-IsFinished}
use chimera_sdk.Runner.{Config, Turn, automatic, test_cluster, timeout_ticks, count_done}
use chimera_sdk.Mmio.{Regs}
use chimera_sdk.Runner.Clusters.{set_up_clusters}
use chimera_sdk.Runner.Outcome.{limit_of, timed_out-passes, out_of_range-never_returns}

abbrev one_second : ℕ → Config
one_second mhz = record {
  mode = automatic;
  default_frequency_mhz = mhz;
  timeout = 1000;
  clusters = 2;
}

-- Both clusters are idle from round `quick` on, and a round takes `ticks`. The first cluster reports 3
-- errors.
abbrev rounds : ℕ → ℕ → Turn
rounds quick ticks = record {
  repetitions_line = true;
  frequency_line = none;
  scratch_3 = 0;
  fll = λ freq. freq;
  start = record { low = 0; high = 0 };
  busy = λ k id. ltb k quick;
  now = λ k. record { low = k * ticks; high = 0 };
  returns = λ id. if id == 0 then 7 else 1;
  answer = false;
}

abbrev limit : Mtime
limit = record { low = 32768; high = 0 }

timed_out-passes_example :
    test_cluster 1 3 (one_second 200) 32768 (λ k. rounds 9 20000) 0 0 ≡ some 0
unfolding less_than deadline timeout_ticks count_done
timed_out-passes_example =
    timed_out-passes 2 0 (one_second 200) 32768 (λ k. rounds 9 20000) 0 0 refl refl
      (λ e. omega (arith, e)) refl early busy
  where
    early :
        (i : ℕ)
        → i < 2
        → less_than (limit_of (one_second 200) 32768 (rounds 9 20000)) ((rounds 9 20000).now i)
          ≡ false
    early zero lt = refl
    early (suc zero) lt = refl
    early (suc (suc i)) lt = absurd (omega arith)

    busy : (i : ℕ) → i < 2 → count_done ((rounds 9 20000).busy i) 2 ≢ 2
    busy zero lt e = omega (arith, e)
    busy (suc zero) lt e = omega (arith, e)
    busy (suc (suc i)) lt e = absurd (omega arith)

out_of_range-never_returns_example :
    test_cluster 5 3 (one_second 5) 32768 (λ k. rounds 1 100) 0 0 ≡ none
out_of_range-never_returns_example =
    out_of_range-never_returns 5 3 (one_second 5) 32768 (λ k. rounds 1 100) 0 0 refl
      (λ e. omega (arith, e)) (inl (omega arith))

-- The clusters 2 and 4 are tested, with every register at 0x101 before.
abbrev tested : ℕ → ℕ
tested id = if id == 0 then 2 else 4

abbrev all_on : Regs
all_on a = 0x101

abbrev set_up : Regs
set_up = set_up_clusters 2 0 tested all_on

-- Two clusters under test on a bus whose timer gains a tick with each access. Cluster 2 is done at
-- access 30; the registers of both read 7 as their result.
abbrev steady : Counters
steady = record { mtime = λ i. min i (2 ^ 40); mcycle = λ i. i }

steady-IsClock : IsClock steady
steady-IsClock = record { mono = λ i j h. omega arith; bound = λ i. omega arith }

steady-IsSlow : IsSlow steady
steady-IsSlow = λ i. omega arith

abbrev bus : Bus
bus = record {
  counters = steady;
  busy = λ c n. if ltb n 10 then 0 else if ltb 30 n then 0 else 1;
  returns = λ c n. 7;
  device_to_host = λ n. 0;
  word = λ n a. 0;
}

abbrev awake : Host
awake = record {
  core = record { clint = λ a. 0; mtie = false; mie = true; sleeps = 0 };
  actions = [];
}

-- One millisecond on a clock of 32768 Hz, for the clusters 2 and 4.
abbrev two_clusters : TestConfig
two_clusters = record {
  timeout = 1;
  clusters = 2;
  cluster_ids = tested;
  stack_start = λ id. 0x80000000;
  stack_sizes = λ id core. 0x1000;
  function_test = 0x1000;
  function_trampoline = 0x2000;
  function_interrupt = 0x3000;
  args = λ id. 0x4000;
}

abbrev soc : Soc
soc = record { regs = all_on; function = λ i. 0; args = λ i. 0; stack = λ i. 0 }

tested-IsJob : IsJob (job_of two_clusters) 2
tested-IsJob = record {
  exists = λ i h. ground arith;
  distinct = λ i j i_lt j_lt e. ground (arith, e);
}

bus-IsTested : IsTested bus two_clusters 3
bus-IsTested = record {
  some_clusters = omega arith;
  job = tested-IsJob;
  idle = λ i h. ground arith;
  reports = λ i a m h le later idle e. omega (arith, e);
}

abbrev start : Mtime
start = record { low = 1; high = 0 }

-- 32 ticks after the start.
abbrev one_ms : Mtime
one_ms = deadline start (timeout_ticks 32768 1)

started : get_mtime steady 2 0 ≡ some (start, 3)
unfolding get_mtime
started = refl

run_clusters-IsFinished_example :
    (o : Outcome) × (n' : ℕ) × (run_clusters bus 2 41 two_clusters 32768 0 soc awake 0
      ≡ some (o, n'))
    × IsFinished bus two_clusters one_ms 0 5 soc o
unfolding deadline timeout_ticks
run_clusters-IsFinished_example =
    run_clusters-IsFinished bus two_clusters 32768 0 soc awake start 0 3 40 steady-IsClock
      steady-IsSlow started bus-IsTested (omega arith)

offload_clusters-IsDone_example :
    (t : Soc) × (offload_clusters 1 2 0 (job_of two_clusters) bus.busy 3 soc ≡ some (t, 5))
    × IsDone (job_of two_clusters) 2 0 soc t
offload_clusters-IsDone_example =
    offload_clusters-IsDone 0 2 (job_of two_clusters) bus.busy 3 soc tested-IsJob
      (λ i h. ground arith)

one_ms-IsMtime : IsMtime one_ms
unfolding deadline timeout_ticks
one_ms-IsMtime = record { low_lt = omega arith; high_lt = omega arith }

watch-total_example :
    (b : Bool) × (host' : Host) × (n' : ℕ) × (watch bus 2 41 2 tested one_ms 0 awake 5
      ≡ some ((b, host'), n'))
unfolding deadline timeout_ticks
watch-total_example =
    watch-total bus tested 2 one_ms 40 0 awake 5 steady-IsClock steady-IsSlow one_ms-IsMtime
      (omega arith)
