-- ===== src/Runner.antt =====
-- The test runner of an ASIC, `test_cluster` of targets/chimera-convolve/host/src/test.c: its choice
-- of a frequency, the supervision of the clusters with a time limit, and its result. What it reads
-- from the console, the timer and the clusters is a function of the turn and of the round.
pub mod Supervise
pub mod Outcome
pub mod Rates
pub mod Clusters
pub mod Layout
pub mod Offloads
pub mod Watch
pub mod Whole
pub mod Session
mod Tests
use chimera_sdk.Base.{
  ℕ, zero, suc, ◌+◌, ◌-◌, ◌*◌, ◌/◌, ◌^◌, ◌≡◌, Bool, true, false, not, ◌||◌, ◌&&◌, Option, none,
  some, u32, ltb, ◌==◌, if◌then◌else◌,
}
use chimera_sdk.Clint.{Mtime, less_than, deadline}

-- `test_mode_t`
pub data Mode : Type 0 where
  automatic : Mode
  dutctl : Mode
  interactive : Mode

-- The fields of `test_cluster_cfg_t` that decide the run.
pub record Config : Type 0 where
  pub mode : Mode
  pub default_frequency_mhz : ℕ
  pub timeout : ℕ
  pub clusters : ℕ

-- What one turn of the outer loop meets: the two input lines (`none` and false for the end of input),
-- the scratch register, the frequency that `configure_fll` reaches for a target, the start time, the
-- clusters' busy flags and the time in each round, the return registers, and the answer to `Run
-- again?`.
pub record Turn : Type 0 where
  pub repetitions_line : Bool
  pub frequency_line : Option ℕ
  pub scratch_3 : ℕ
  pub fll : ℕ → ℕ
  pub start : Mtime
  pub busy : ℕ → ℕ → Bool
  pub now : ℕ → Mtime
  pub returns : ℕ → ℕ
  pub answer : Bool

-- -1 as a 32-bit word
abbrev pub error : ℕ
error = 2 ^ 32 - 1

-- The choice of `target_freq_mhz`.
abbrev pub choose_freq : Mode → (default scratch_3 : ℕ) → Option ℕ → Option ℕ
choose_freq automatic default scratch_3 line = some default
choose_freq dutctl default scratch_3 line = some scratch_3
choose_freq interactive default scratch_3 line = line

abbrev pub target_freq_mhz : Config → Turn → Option ℕ
target_freq_mhz cfg t = choose_freq cfg.mode cfg.default_frequency_mhz t.scratch_3 t.frequency_line

-- Its three uses; as an `int`, a word from 2 ^ 31 on is negative.
pub data Plan : Type 0 where
  skip : Plan
  out_of_range : Plan
  configure : ℕ → Plan

abbrev pub plan : ℕ → Plan
plan mhz =
    if mhz == error
    then skip
    else if ltb mhz 10 || ltb 1000 mhz
    then out_of_range
    else configure (mhz * 1000000)

-- `timeout_ticks`, in 32-bit arithmetic
pub timeout_ticks : ℕ → ℕ → ℕ
timeout_ticks rtc_freq timeout = u32 (rtc_freq * timeout) / 1000

-- `kops_per_sec`
pub kops_per_sec : ℕ → ℕ → ℕ
kops_per_sec ops_per_cycle actual_freq = u32 (ops_per_cycle / 10000 * (actual_freq / 100000))

-- The clusters that are not busy, among the first `count`.
pub count_done : (ℕ → Bool) → ℕ → ℕ
count_done busy zero = 0
count_done busy (suc n) = count_done busy n + (if busy n then 0 else 1)

-- The supervision from round `k` on, with `done` clusters found done in the round before: does it end
-- by the time limit?
pub supervise : (fuel clusters : ℕ) → Mtime → Turn → (k done : ℕ) → Option Bool
supervise zero clusters limit t k done = none
supervise (suc fuel) clusters limit t k done = elim (done == clusters) [
  | true ↦ some false
  | false ↦ elim (less_than limit (t.now k)) [
    | true ↦ some true
    | false ↦ supervise fuel clusters limit t (suc k) (count_done (t.busy k) clusters)
  ]
]

-- `retVal` after the loop over the clusters, `count` of which are left.
pub collect : Bool → (ℕ → ℕ) → (count id ret : ℕ) → ℕ
collect timed_out returns zero id ret = ret
collect timed_out returns (suc count) id ret =
    collect timed_out returns count (suc id) (if timed_out then 0 else returns id / 2)

-- The end of a turn: another one, with `retVal`, or the result.
pub data Next : Type 0 where
  again : ℕ → Next
  stop : ℕ → Next

abbrev pub finish : Mode → Bool → Bool → ℕ → Next
finish interactive answer timed_out ret =
    if answer then (if timed_out then stop error else again ret) else stop ret
finish automatic answer timed_out ret = stop ret
finish dutctl answer timed_out ret = stop ret

-- From the offload on.
pub supervised : (fuel : ℕ) → Config → (rtc_freq : ℕ) → Turn → ℕ → Option Next
supervised fuel cfg rtc_freq t ret =
    let limit = deadline t.start (timeout_ticks rtc_freq cfg.timeout) in
    elim (supervise fuel cfg.clusters limit t 0 0) [
      | none ↦ none
      | some timed_out ↦
          some (finish cfg.mode t.answer timed_out (collect timed_out t.returns cfg.clusters 0 ret))
    ]

abbrev pub reads_input : Mode → Bool
reads_input interactive = true
reads_input automatic = false
reads_input dutctl = false

-- The body of the outer loop; `continue` is `again`.
pub turn : (fuel : ℕ) → Config → (rtc_freq : ℕ) → Turn → ℕ → Option Next
turn fuel cfg rtc_freq t ret = elim (reads_input cfg.mode && not t.repetitions_line) [
  | true ↦ some (stop error)
  | false ↦ elim (target_freq_mhz cfg t) [
    | none ↦ some (stop error)
    | some mhz ↦ elim (plan mhz) [
      | skip ↦ supervised fuel cfg rtc_freq t ret
      | out_of_range ↦ some (again ret)
      | configure freq ↦ elim (t.fll freq == 0) [
        | true ↦ some (stop error)
        | false ↦ supervised fuel cfg rtc_freq t ret
      ]
    ]
  ]
]

-- `test_cluster`, with `turns` turns at most, from turn `k` on.
pub test_cluster : (turns fuel : ℕ) → Config → (rtc_freq : ℕ) → (ℕ → Turn) → (k ret : ℕ) → Option ℕ
test_cluster zero fuel cfg rtc_freq t k ret = none
test_cluster (suc turns) fuel cfg rtc_freq t k ret = elim (turn fuel cfg rtc_freq (t k) ret) [
  | none ↦ none
  | some next ↦ elim next [
    | stop result ↦ some result
    | again ret' ↦ test_cluster turns fuel cfg rtc_freq t (suc k) ret'
  ]
]
