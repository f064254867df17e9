-- ===== src/Runner/Session.antt =====
-- `test_cluster` on an ASIC over the models of what it calls: configure_fll and restore_default_freq
-- of Switch, and the run of the clusters of Whole, one after the other on the same timer. The prints
-- are left out, and with them the frequencies that are only printed.
pub mod Choice
pub mod Ends
pub mod Turn
pub mod Bypassed
pub mod Skips
mod Tests
use chimera_sdk.Base.{
  ℕ, zero, suc, ◌+◌, ◌*◌, ◌/◌, ◌^◌, Bool, true, false, Option, none, some, ◌==◌, if◌then◌else◌,
}
use chimera_sdk.Clint.{get_core_freq}
use chimera_sdk.Offload.{Soc, put_at}
use chimera_sdk.Switch.{Board, World, configure_fll, restore_default_freq, rtc_freq_offset}
use chimera_sdk.Runner.{
  Mode, automatic, dutctl, interactive, Config, error, choose_freq, Plan, skip, out_of_range,
  configure, plan, Next, again, stop, finish,
}
use chimera_sdk.Runner.Watch.{Bus, Host}
use chimera_sdk.Runner.Whole.{TestConfig, Outcome, run_clusters}

-- What a turn of the outer loop reads: the numbers on the two input lines, `none` for the end of the
-- input, two scratch registers, and the answer to `Run again?`.
pub record Entry : Type 0 where
  pub repetitions_line : Option ℕ
  pub frequency_line : Option ℕ
  pub scratch_1 : ℕ
  pub scratch_3 : ℕ
  pub answer : Bool

-- The state of the host: clock, pins and UART, the registers and the shared data, the core, and the
-- field `repetitions` of the arguments at each address.
pub record Station (State : Type 0) : Type 0 where
  pub world : World State
  pub soc : Soc
  pub host : Host
  pub repetitions : ℕ → ℕ

-- The choice of the repetitions.
abbrev pub choose_repetitions : Mode → (default : ℕ) → Entry → Option ℕ
choose_repetitions automatic default e = some default
choose_repetitions dutctl default e = some e.scratch_1
choose_repetitions interactive default e = e.repetitions_line

-- The loops that set them for each cluster, `count` of which are left.
pub set_repetitions : (count id : ℕ) → (ℕ → ℕ) → (repetitions : ℕ) → (ℕ → ℕ) → ℕ → ℕ
set_repetitions zero id args repetitions store = store
set_repetitions (suc count) id args repetitions store =
    set_repetitions count (suc id) args repetitions (put_at store (args id) repetitions)

module _ {State : Type 0} (b : Board State) (bus : Bus) (reads fuel : ℕ) (cfg : Config)
    (default_repetitions : ℕ) (tests : TestConfig) where
  abbrev rtc_freq : ℕ
  rtc_freq = b.system_regs rtc_freq_offset

  -- The end of a turn that has configured the loops.
  pub restore : Bool → Station State → Option (Station State)
  restore configured s = elim configured [
    | false ↦ some s
    | true ↦ elim (restore_default_freq b reads fuel rtc_freq s.world) [
      | none ↦ none
      | some r ↦ some (record s { world = r.1 })
    ]
  ]

  -- From the set-up of the clusters to the end of the turn.
  pub run_and_finish :
      (configured : Bool) → Entry → (ret : ℕ) → Station State → Option (Next × Station State)
  run_and_finish configured e ret s =
      elim (run_clusters bus reads fuel tests rtc_freq ret s.soc s.host s.world.time) [
        | none ↦ none
        | some r ↦
            let after = record s {
              world = record s.world { time = r.1 };
              soc = r.0.soc;
              host = r.0.host;
            } in
            elim (restore configured after) [
              | none ↦ none
              | some s' ↦ some (finish cfg.mode e.answer r.0.timed_out r.0.ret, s')
            ]
      ]

  -- The use of the target frequency. A measurement that divides by zero has no meaning in C.
  pub switch_and_run : (mhz : ℕ) → Entry → (ret : ℕ) → Station State → Option (Next × Station State)
  switch_and_run mhz e ret s = elim (plan mhz) [
    | skip ↦ run_and_finish false e ret s
    | out_of_range ↦ some (again ret, s)
    | configure freq ↦ elim (configure_fll b reads fuel freq rtc_freq s.world) [
      | none ↦ none
      | some r ↦ elim r.0 [
        | none ↦ none
        | some actual_freq ↦ elim (actual_freq == 0) [
          | true ↦ some (stop error, record s { world = r.1 })
          | false ↦ run_and_finish true e ret (record s { world = r.1 })
        ]
      ]
    ]
  ]

  -- The body of the outer loop; `continue` is `again`.
  pub session_turn : Entry → (ret : ℕ) → Station State → Option (Next × Station State)
  session_turn e ret s = elim (choose_repetitions cfg.mode default_repetitions e) [
    | none ↦ some (stop error, s)
    | some repetitions ↦
        let set = record s {
          repetitions = set_repetitions tests.clusters 0 tests.args repetitions s.repetitions;
        } in
        elim (choose_freq cfg.mode cfg.default_frequency_mhz e.scratch_3 e.frequency_line) [
          | none ↦ some (stop error, set)
          | some mhz ↦ switch_and_run mhz e ret set
        ]
  ]

  -- The outer loop, with `turns` turns at most, from turn `k` on.
  pub session : (turns : ℕ) → (ℕ → Entry) → (k ret : ℕ) → Station State → Option (ℕ × Station State)
  session zero entries k ret s = none
  session (suc turns) entries k ret s = elim (session_turn (entries k) ret s) [
    | none ↦ none
    | some r ↦ elim r.0 [
      | stop result ↦ some (result, r.1)
      | again ret' ↦ session turns entries (suc k) ret' r.1
    ]
  ]

  -- `test_cluster` as a whole: it starts on the default clock, and measures it.
  pub whole_session : (turns : ℕ) → (ℕ → Entry) → Station State → Option (ℕ × Station State)
  whole_session turns entries s = elim (restore_default_freq b reads fuel rtc_freq s.world) [
    | none ↦ none
    | some r ↦ elim (get_core_freq b.counters reads fuel rtc_freq (rtc_freq / 128) r.1.time) [
      | none ↦ none
      | some measured ↦
          session turns entries 0 0 (record s { world = record r.1 { time = measured.1 } })
    ]
  ]
