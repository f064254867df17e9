-- ===== src/Runner/Session/Skips.antt =====
-- `test_cluster` in the automatic mode with -1 as the frequency: one run of the clusters on the
-- external clock.
use chimera_sdk.Base.{ℕ, suc, ◌/◌, ◌≡◌, refl, Option, some}
use chimera_sdk.Clint.{get_core_freq}
use chimera_sdk.Switch.{Board, World, restore_default_freq, rtc_freq_offset}
use chimera_sdk.Runner.{Config, automatic, skip, plan, stop, choose_freq, finish}
use chimera_sdk.Runner.Watch.{Bus}
use chimera_sdk.Runner.Whole.{TestConfig, Outcome, run_clusters}
use chimera_sdk.Runner.Session.{
  Entry, Station, choose_repetitions, set_repetitions, restore, run_and_finish, switch_and_run,
  session_turn, session, whole_session,
}

module _ {State : Type 0} (b : Board State) (bus : Bus) (reads fuel : ℕ) (cfg : Config)
    (default_repetitions : ℕ) (tests : TestConfig) (mode : cfg.mode ≡ automatic)
    (skips : plan cfg.default_frequency_mhz ≡ skip) where
  abbrev rtc : ℕ
  rtc = b.system_regs rtc_freq_offset

  -- The state behind such a run, which ends at access `n`.
  abbrev pub ran : Station State → Outcome → (n : ℕ) → Station State
  ran s o n = record s {
    world = record s.world { time = n };
    soc = o.soc;
    host = o.host;
    repetitions = set_repetitions tests.clusters 0 tests.args default_repetitions s.repetitions;
  }

  pub turn-skips :
      (e : Entry) (ret : ℕ) (s : Station State) (o : Outcome) (n : ℕ)
      → run_clusters bus reads fuel tests rtc ret s.soc s.host s.world.time ≡ some (o, n)
      → session_turn b bus reads fuel cfg default_repetitions tests e ret s
        ≡ some (stop o.ret, ran s o n)
  unfolding session_turn switch_and_run run_and_finish restore
  turn-skips e ret s o n runs =
      let store = set_repetitions tests.clusters 0 tests.args default_repetitions s.repetitions in
      let reps : choose_repetitions cfg.mode default_repetitions e ≡ some default_repetitions =
        rw (mode, choose_repetitions) refl in
      let freq : choose_freq cfg.mode cfg.default_frequency_mhz e.scratch_3 e.frequency_line
          ≡ some cfg.default_frequency_mhz =
        rw (mode, choose_freq) refl in
      let end : finish cfg.mode e.answer o.timed_out o.ret ≡ stop o.ret = rw (mode, finish) refl in
      rw (reps, session_turn)
        (rw freq (rw (skips, switch_and_run) (rw (runs, end, run_and_finish) refl)))

  -- If the clock can be put back and measured, and the run of the clusters returns, `test_cluster`
  -- returns with the result of the run, after one turn.
  pub whole_session-skips :
      (turns : ℕ) (entries : ℕ → Entry) (s : Station State) (f g : Option ℕ) (w : World State)
      (m n : ℕ) (o : Outcome)
      → restore_default_freq b reads fuel rtc s.world ≡ some (f, w)
      → get_core_freq b.counters reads fuel rtc (rtc / 128) w.time ≡ some (g, m)
      → run_clusters bus reads fuel tests rtc 0 s.soc s.host m ≡ some (o, n)
      → whole_session b bus reads fuel cfg default_repetitions tests (suc turns) entries s
        ≡ some (o.ret, ran (record s { world = w }) o n)
  unfolding whole_session session
  whole_session-skips turns entries s f g w m n o restored measured runs =
      let start : Station State = record s { world = record w { time = m } } in
      rw (restored, measured, whole_session, turn-skips (entries 0) 0 start o n runs, session) refl
