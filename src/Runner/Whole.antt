-- ===== src/Runner/Whole.antt =====
-- A run of the clusters by `test_cluster`, from the set-up to the clock gates after it: the stacks,
-- the interrupt handler, clocks and resets, the deadline, the offload, the supervision and the
-- collection of the results, on the bus of Watch. The host of chimera-convolve is an RV32, whose
-- pointers are words.
pub mod Collect
pub mod Finish
use chimera_sdk.Base.{ℕ, zero, suc, ◌+◌, ◌*◌, ◌/◌, ◌^◌, Bool, true, false, Option, none, some}
use chimera_sdk.Mmio.{Regs, write32}
use chimera_sdk.Clint.{Mtime, Timed, ◌>>=◌, get_mtime, deadline}
use chimera_sdk.Clint.Sleep.{set_mie}
use chimera_sdk.Offload.{Soc, soc_ctrl_base, return_reg, set_clock_gating}
use chimera_sdk.Offload.Wait.{wait_return}
use chimera_sdk.Runner.{timeout_ticks}
use chimera_sdk.Runner.Clusters.{set_up_clusters}
use chimera_sdk.Runner.Layout.{chimera_generate_sps}
use chimera_sdk.Runner.Offloads.{Job, offload_clusters}
use chimera_sdk.Runner.Watch.{Bus, Host, watch}

-- The fields of `test_cluster_cfg_t` that the run uses.
pub record TestConfig : Type 0 where
  pub timeout : ℕ
  pub clusters : ℕ
  pub cluster_ids : ℕ → ℕ
  pub stack_start : ℕ → ℕ
  pub stack_sizes : ℕ → ℕ → ℕ
  pub function_test : ℕ
  pub function_trampoline : ℕ
  pub function_interrupt : ℕ
  pub args : ℕ → ℕ

-- What the loops pass on, with the stack pointers of each cluster under test.
abbrev pub job_of : TestConfig → Job
job_of cfg = record {
  function_test = cfg.function_test;
  function_trampoline = cfg.function_trampoline;
  cluster_ids = cfg.cluster_ids;
  args = cfg.args;
  stack_cluster_ptr = λ id.
      (chimera_generate_sps (cfg.cluster_ids id) (cfg.stack_start id) (cfg.stack_sizes id)
        (λ i. 0)).1;
}

-- The handler's register and the clusters' clocks and resets.
pub set_up : TestConfig → Soc → Soc
set_up cfg soc = record soc {
  regs =
      set_up_clusters cfg.clusters 0 cfg.cluster_ids
        (write32 (soc_ctrl_base + 0x8) cfg.function_interrupt soc.regs);
}

-- The loop that collects the results, `count` of which are left: `retVal` and the registers. A
-- cluster that does not exist has no return register, and the code has no meaning for it.
pub collect_results :
    Bus → (fuel : ℕ) → Bool → (ℕ → ℕ) → (count id ret n : ℕ) → Regs → Timed (ℕ × Regs)
collect_results bus fuel timed_out cluster_ids zero id ret n regs = some ((ret, regs), n)
collect_results bus fuel timed_out cluster_ids (suc count) id ret n regs =
    let c = cluster_ids id in
    elim timed_out [
      | true ↦
          collect_results bus fuel true cluster_ids count (suc id) 0 n (set_clock_gating c 1 regs)
      | false ↦ elim (return_reg c) [
        | none ↦ none
        | some a ↦ wait_return fuel a (bus.returns c) n regs >>= λ r.
            collect_results bus fuel false cluster_ids count (suc id) (r.0.0 / 2) r.1
              (set_clock_gating c 1 r.0.1)
      ]
    ]

pub record Outcome : Type 0 where
  pub timed_out : Bool
  pub ret : ℕ
  pub host : Host
  pub soc : Soc

-- `set_mie(0)` before the offload and `set_mie(1)` after it.
abbrev pub with_interrupts : Host → Host
with_interrupts host = record host { core = set_mie true (set_mie false host.core) }

-- The run from the reading of the start time on; `ret` is `retVal` before it.
pub run_from :
    Bus
    → (reads fuel : ℕ) → TestConfig
    → (rtc_freq ret : ℕ) → Soc
    → Host
    → Mtime
    → (n : ℕ) → Timed Outcome
run_from bus reads fuel cfg rtc_freq ret soc host start n =
    let limit = deadline start (timeout_ticks rtc_freq cfg.timeout) in
    offload_clusters fuel cfg.clusters 0 (job_of cfg) bus.busy n (set_up cfg soc) >>= λ o.
    watch bus reads fuel cfg.clusters cfg.cluster_ids limit 0 (with_interrupts host) o.1 >>= λ v.
    collect_results bus fuel v.0.0 cfg.cluster_ids cfg.clusters 0 ret v.1 o.0.regs >>= λ r. some (
      record { timed_out = v.0.0; ret = r.0.0; host = v.0.1; soc = record (o.0) { regs = r.0.1 } },
      r.1,
    )

pub run_clusters :
    Bus → (reads fuel : ℕ) → TestConfig → (rtc_freq ret : ℕ) → Soc → Host → (n : ℕ) → Timed Outcome
run_clusters bus reads fuel cfg rtc_freq ret soc host n = get_mtime bus.counters reads n >>= λ r.
    run_from bus reads fuel cfg rtc_freq ret soc host r.0 r.1
