-- ===== src/Runner/Outcome.antt =====
-- The result of `test_cluster`.
use native.Mathlib.Nat.{zero-add}
use chimera_sdk.Base.{
  ℕ, zero, suc, ◌+◌, ◌/◌, ◌≤◌, ◌<◌, ◌≡◌, ◌≢◌, ◌∙◌, refl, sym, arith, ap, Bool, true, false, not,
  ◌&&◌, Option, none, some, ◌==◌, ◌⊎◌, inl, inr,
}
use chimera_sdk.Clint.{Mtime, less_than, deadline}
use chimera_sdk.Runner.{
  Config, Turn, Mode, automatic, dutctl, interactive, reads_input, target_freq_mhz, Plan, skip,
  out_of_range, configure, plan, error, count_done, supervise, collect, supervised, again, stop,
  finish, turn, test_cluster, timeout_ticks,
}
use chimera_sdk.Runner.Supervise.{supervise-in_time, supervise-too_late}

abbrev pub limit_of : Config → ℕ → Turn → Mtime
limit_of cfg rtc_freq t = deadline t.start (timeout_ticks rtc_freq cfg.timeout)

-- Does a turn come to the offload?
abbrev pub offloads : Config → Turn → Bool
offloads cfg t = elim (reads_input cfg.mode && not t.repetitions_line) [
  | true ↦ false
  | false ↦ elim (target_freq_mhz cfg t) [
    | none ↦ false
    | some mhz ↦ elim (plan mhz) [
      | skip ↦ true
      | out_of_range ↦ false
      | configure freq ↦ not (t.fll freq == 0)
    ]
  ]
]

-- The same choices, made with the values that they depend on.
choices :
    {A : Type 0} (refuse : Bool) (mhz : Option ℕ) (fll : ℕ → ℕ) (failed : A) (next : A) (run : A)
    → elim refuse [
      | true ↦ false
      | false ↦ elim mhz [
        | none ↦ false
        | some w ↦ elim (plan w) [
          | skip ↦ true
          | out_of_range ↦ false
          | configure freq ↦ not (fll freq == 0)
        ]
      ]
    ]
      ≡ true
    → elim refuse [
      | true ↦ failed
      | false ↦ elim mhz [
        | none ↦ failed
        | some w ↦ elim (plan w) [
          | skip ↦ run
          | out_of_range ↦ next
          | configure freq ↦ elim (fll freq == 0) [ true ↦ failed | false ↦ run ]
        ]
      ]
    ]
      ≡ run
choices true mhz fll failed next run e = cc
choices false none fll failed next run e = cc
choices false (some w) fll failed next run e = planned (plan w) fll failed next run e
  where
    planned :
        {A : Type 0} (p : Plan) (fll : ℕ → ℕ) (failed next run : A)
        → elim p [ skip ↦ true | out_of_range ↦ false | configure freq ↦ not (fll freq == 0) ]
          ≡ true
        → elim p [
          | skip ↦ run
          | out_of_range ↦ next
          | configure freq ↦ elim (fll freq == 0) [ true ↦ failed | false ↦ run ]
        ]
          ≡ run
    planned skip fll failed next run e = refl
    planned out_of_range fll failed next run e = cc
    planned (configure freq) fll failed next run e = ground arith

turn-offloads :
    (fuel : ℕ) (cfg : Config) (rtc_freq : ℕ) (t : Turn) (ret : ℕ)
    → offloads cfg t ≡ true
    → turn fuel cfg rtc_freq t ret ≡ supervised fuel cfg rtc_freq t ret
unfolding turn
turn-offloads fuel cfg rtc_freq t ret e =
    choices (reads_input cfg.mode && not t.repetitions_line) (target_freq_mhz cfg t) t.fll
      (some (stop error)) (some (again ret)) (supervised fuel cfg rtc_freq t ret) e

finish-unattended :
    (mode : Mode) (answer timed_out : Bool) (ret : ℕ)
    → reads_input mode ≡ false
    → finish mode answer timed_out ret ≡ stop ret
finish-unattended automatic answer timed_out ret e = refl
finish-unattended dutctl answer timed_out ret e = refl
finish-unattended interactive answer timed_out ret e = cc

collect_none : (returns : ℕ → ℕ) (count id : ℕ) → collect true returns count id 0 ≡ 0
unfolding collect
collect_none returns zero id = refl
collect_none returns (suc count) id = collect_none returns count (suc id)

collect_zero : (returns : ℕ → ℕ) (count ret : ℕ) → count ≢ 0 → collect true returns count 0 ret ≡ 0
unfolding collect
collect_zero returns zero ret ne = absurd (ne refl)
collect_zero returns (suc count) ret ne = collect_none returns count 1

collect_last :
    (returns : ℕ → ℕ) (count id ret : ℕ)
    → collect false returns (suc count) id ret ≡ returns (id + count) / 2
unfolding collect
collect_last returns zero id ret = ap (λ i. returns i / 2) (omega arith)
collect_last returns (suc count) id ret =
    collect_last returns count (suc id) (returns id / 2) ∙ ap (λ i. returns i / 2) (omega arith)

test_cluster_stop :
    (turns fuel : ℕ) (cfg : Config) (rtc_freq : ℕ) (t : ℕ → Turn) (k ret : ℕ) {result : ℕ}
    → turn fuel cfg rtc_freq (t k) ret ≡ some (stop result)
    → test_cluster (suc turns) fuel cfg rtc_freq t k ret ≡ some result
unfolding test_cluster
test_cluster_stop turns fuel cfg rtc_freq t k ret e = rw (e, test_cluster) refl

test_cluster_again :
    (turns fuel : ℕ) (cfg : Config) (rtc_freq : ℕ) (t : ℕ → Turn) (k ret : ℕ) {ret' : ℕ}
    → turn fuel cfg rtc_freq (t k) ret ≡ some (again ret')
    → test_cluster (suc turns) fuel cfg rtc_freq t k ret
      ≡ test_cluster turns fuel cfg rtc_freq t (suc k) ret'
unfolding test_cluster
test_cluster_again turns fuel cfg rtc_freq t k ret e = rw (e, test_cluster) refl

supervised-finish :
    (fuel : ℕ) (cfg : Config) (rtc_freq : ℕ) (t : Turn) (ret : ℕ) (timed_out : Bool)
    → supervise fuel cfg.clusters (limit_of cfg rtc_freq t) t 0 0 ≡ some timed_out
    → supervised fuel cfg rtc_freq t ret
      ≡ some (finish cfg.mode t.answer timed_out (collect timed_out t.returns cfg.clusters 0 ret))
unfolding supervised
supervised-finish fuel cfg rtc_freq t ret timed_out verdict = rw (verdict, supervised) refl

-- An unattended run that comes to the offload ends in this turn, as its supervision says.
unattended-result :
    (turns fuel : ℕ) (cfg : Config) (rtc_freq : ℕ) (t : ℕ → Turn) (k ret : ℕ) (timed_out : Bool)
    → reads_input cfg.mode ≡ false
    → offloads cfg (t k) ≡ true
    → supervise fuel cfg.clusters (limit_of cfg rtc_freq (t k)) (t k) 0 0 ≡ some timed_out
    → test_cluster (suc turns) fuel cfg rtc_freq t k ret
      ≡ some (collect timed_out (t k).returns cfg.clusters 0 ret)
unattended-result turns fuel cfg rtc_freq t k ret timed_out unattended reaches verdict =
    test_cluster_stop turns fuel cfg rtc_freq t k ret (
      turn-offloads fuel cfg rtc_freq (t k) ret reaches
      ∙ supervised-finish fuel cfg rtc_freq (t k) ret timed_out verdict
      ∙ ap some (
          finish-unattended cfg.mode (t k).answer timed_out
            (collect timed_out (t k).returns cfg.clusters 0 ret) unattended))

-- Without a console, in a run of at least one cluster that comes to the offload: if the time limit has
-- passed in round `late`, and in no round before it had it passed or were all clusters found done, the
-- runner returns 0.
pub timed_out-passes :
    (late turns : ℕ) (cfg : Config) (rtc_freq : ℕ) (t : ℕ → Turn) (k ret : ℕ)
    → reads_input cfg.mode ≡ false
    → offloads cfg (t k) ≡ true
    → cfg.clusters ≢ 0
    → less_than (limit_of cfg rtc_freq (t k)) ((t k).now late) ≡ true
    → ((i : ℕ) → i < late → less_than (limit_of cfg rtc_freq (t k)) ((t k).now i) ≡ false)
    → ((i : ℕ) → i < late → count_done ((t k).busy i) cfg.clusters ≢ cfg.clusters)
    → test_cluster (suc turns) (suc late) cfg rtc_freq t k ret ≡ some 0
timed_out-passes late turns cfg rtc_freq t k ret unattended reaches some_cluster passed early busy =
    let verdict =
      supervise-too_late late cfg.clusters (limit_of cfg rtc_freq (t k)) (t k) 0 0
        (λ e. some_cluster (sym e)) (rw (zero-add late) passed)
        (λ i lt. rw (zero-add i) (early i lt)) (λ i lt. rw (zero-add i) (busy i lt)) in
    unattended-result turns (suc late) cfg rtc_freq t k ret true unattended reaches verdict
    ∙ ap some (collect_zero (t k).returns cfg.clusters ret some_cluster)

-- Without a console, in a run of at least one cluster that comes to the offload: if all clusters are
-- found done in round `quick` and the time limit has not passed up to it, the runner returns half of
-- what the last cluster returns, whatever the other clusters return.
pub in_time-returns_last :
    (quick turns : ℕ) (cfg : Config) (rtc_freq : ℕ) (t : ℕ → Turn) (k ret others : ℕ)
    → reads_input cfg.mode ≡ false
    → offloads cfg (t k) ≡ true
    → cfg.clusters ≡ suc others
    → count_done ((t k).busy quick) cfg.clusters ≡ cfg.clusters
    → ((i : ℕ) → i ≤ quick → less_than (limit_of cfg rtc_freq (t k)) ((t k).now i) ≡ false)
    → test_cluster (suc turns) (suc (suc quick)) cfg rtc_freq t k ret
      ≡ some ((t k).returns others / 2)
in_time-returns_last quick turns cfg rtc_freq t k ret others unattended reaches count all early =
    let verdict =
      supervise-in_time quick cfg.clusters (limit_of cfg rtc_freq (t k)) (t k) 0 0
        (rw (zero-add quick) all) (λ i le. rw (zero-add i) (early i le)) in
    unattended-result turns (suc (suc quick)) cfg rtc_freq t k ret false unattended reaches verdict
    ∙ ap some (
        rw count (
          collect_last (t k).returns others 0 ret
          ∙ ap (λ i. (t k).returns i / 2) (zero-add others)))

plan-out_of_range :
    (mhz : ℕ) → mhz ≢ 0xFFFFFFFF → (mhz < 10) ⊎ (1000 < mhz) → plan mhz ≡ out_of_range
unfolding plan
plan-out_of_range mhz not_minus_one (inl low) = ground arith
plan-out_of_range mhz not_minus_one (inr high) = ground arith

turn-out_of_range :
    (fuel : ℕ) (cfg : Config) (rtc_freq : ℕ) (t : Turn) (ret : ℕ)
    → cfg.mode ≡ automatic
    → plan cfg.default_frequency_mhz ≡ out_of_range
    → turn fuel cfg rtc_freq t ret ≡ some (again ret)
unfolding turn
turn-out_of_range fuel cfg rtc_freq t ret mode bad =
    let unattended : (reads_input cfg.mode && not t.repetitions_line) ≡ false = rw mode refl in
    let default : target_freq_mhz cfg t ≡ some cfg.default_frequency_mhz =
      rw (mode, target_freq_mhz) refl in
    rw (unattended, default, bad, turn) refl

-- In the automatic mode with a default frequency that is not -1 (0xFFFFFFFF) and is below 10 or above
-- 1000 MHz, the runner never returns: no number of turns of the outer loop is enough, whatever the turns meet.
pub out_of_range-never_returns :
    (turns fuel : ℕ) (cfg : Config) (rtc_freq : ℕ) (t : ℕ → Turn) (k ret : ℕ)
    → cfg.mode ≡ automatic
    → cfg.default_frequency_mhz ≢ 0xFFFFFFFF
    → (cfg.default_frequency_mhz < 10) ⊎ (1000 < cfg.default_frequency_mhz)
    → test_cluster turns fuel cfg rtc_freq t k ret ≡ none
unfolding test_cluster
out_of_range-never_returns zero fuel cfg rtc_freq t k ret mode not_minus_one outside = refl
out_of_range-never_returns (suc turns) fuel cfg rtc_freq t k ret mode not_minus_one outside =
    test_cluster_again turns fuel cfg rtc_freq t k ret (
      turn-out_of_range fuel cfg rtc_freq (t k) ret mode
        (plan-out_of_range cfg.default_frequency_mhz not_minus_one outside))
    ∙ out_of_range-never_returns turns fuel cfg rtc_freq t (suc k) ret mode not_minus_one outside
