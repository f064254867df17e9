-- ===== src/Runner/Session/Turn.antt =====
-- What a turn of `test_cluster` that returns has done.
use native.Mathlib.Decide.{ℕ_discrete}
use native.Mathlib.Nat.{zero-add}
use chimera_sdk.Base.{
  ==-eq, ==-ne, ◌*◌, ℕ, ◌≡◌, ◌∙◌, refl, sym, ap, inl, inr, Bool, true, false, Option, Option-cases,
  some,
}
use chimera_sdk.Switch.{IsLawful, Board, configure_fll, restore_default_freq, rtc_freq_offset}
use chimera_sdk.Switch.Pins.{restore_default_freq-pins}
use chimera_sdk.Runner.{Config, error, choose_freq, Next, again, stop, finish}
use chimera_sdk.Runner.Watch.{Bus}
use chimera_sdk.Runner.Whole.{TestConfig, run_clusters}
use chimera_sdk.Runner.Session.{
  Entry, Station, choose_repetitions, set_repetitions, restore, run_and_finish, switch_and_run,
  session_turn,
}
use chimera_sdk.Runner.Session.Choice.{
  choose_repetitions-IsRepetitions, choose_repetitions-HasNone, choose_freq-IsTarget,
  choose_freq-HasNone, set_repetitions_lem, target-cases,
}
use chimera_sdk.Runner.Session.Ends.{
  IsTurnTarget, IsConfigured, no_repetitions, no_frequency, not_possible, not_configured, IsSetUp,
  IsRun, IsRestored, IsTurn, untouched, on_external_clock, on_new_clock, any_repetitions,
}

module _ {State : Type 0} (b : Board State) (level : State → ℕ → Bool) (bus : Bus) (reads fuel : ℕ)
    (cfg : Config) (default_repetitions : ℕ) (tests : TestConfig) where
  abbrev restored : Bool → Station State → Option (Station State)
  restored configured s = restore b bus reads fuel cfg default_repetitions tests configured s

  restore-kept :
      (configured : Bool) (s s' : Station State)
      → restored configured s ≡ some s'
      → (s'.soc ≡ s.soc) × (s'.host ≡ s.host) × (s'.repetitions ≡ s.repetitions)
  unfolding restore
  restore-kept false s s' e = let same : s ≡ s' = cc e in rw (← same) (refl, refl, refl)
  restore-kept true s s' e =
      elim (Option-cases
        (restore_default_freq b reads fuel (b.system_regs rtc_freq_offset) s.world)) [
          | inl is_none ↦ cc (rw (is_none, restore) at e)
          | inr (r, is_some) ↦
              let same : record s { world = r.1 } ≡ s' = cc (rw (is_some, restore) at e) in
              rw (← same) (refl, refl, refl)
        ]

  restored_off : (t s' : Station State) → restored false t ≡ some s' → t ≡ s'
  unfolding restore
  restored_off t s' e = cc e

  -- The end of a turn that runs the clusters.
  run_and_finish-IsRun :
      (configured : Bool) (e : Entry) (ret : ℕ) (s s' : Station State) (next : Next)
      → IsSetUp b level bus reads fuel cfg default_repetitions tests e s
      → run_and_finish b bus reads fuel cfg default_repetitions tests configured e ret s
        ≡ some (next, s')
      → IsRun b level bus reads fuel cfg default_repetitions tests e ret s.soc s.host s.world next
          s'
        × ((t : Station State) × (t.world.pins ≡ s.world.pins) × (restored configured t ≡ some s'))
  unfolding run_and_finish
  run_and_finish-IsRun configured e ret s s' next (n, is_n, stored) is =
      elim (Option-cases (
        run_clusters bus reads fuel tests (b.system_regs rtc_freq_offset) ret s.soc s.host
          s.world.time)) [
            | inl is_none ↦ cc (rw (is_none, run_and_finish) at is)
            | inr (r, is_run) ↦
                let after = record s {
                  world = record s.world { time = r.1 };
                  soc = r.0.soc;
                  host = r.0.host;
                } in
                elim (Option-cases (restored configured after)) [
                  | inl is_none ↦ cc (rw (is_run, is_none, run_and_finish) at is)
                  | inr (s2, is_some) ↦
                      let end = rw (is_run, is_some, run_and_finish) at is in
                      let is_next : finish cfg.mode e.answer r.0.timed_out r.0.ret ≡ next =
                        cc end in
                      let same : s2 ≡ s' = cc end in
                      let back = is_some ∙ ap some same in
                      let (soc_is, host_is, kept) = restore-kept configured after s' back in
                      (
                        record {
                          outcome = r.0;
                          ends_at = r.1;
                          runs = is_run;
                          new_soc = soc_is;
                          new_host = host_is;
                          set_up =
                              (n, is_n, λ id lt. ap (λ f. f (tests.args id)) kept ∙ stored id lt);
                          next_is = sym is_next;
                        },
                        (after, refl, back),
                      )
                ]
          ]

  module _ (lawful : IsLawful b.gpio level) (driver : b.driver_fll ≡ true)
      (convolve : b.convolve ≡ true) where
    restored-IsRestored :
        (t s' : Station State)
        → restored true t ≡ some s'
        → IsRestored b level bus reads fuel cfg default_repetitions tests t.world s'
    unfolding restore
    restored-IsRestored t s' e =
        elim (Option-cases
          (restore_default_freq b reads fuel (b.system_regs rtc_freq_offset) t.world)) [
            | inl is_none ↦ cc (rw (is_none, restore) at e)
            | inr (r, is_some) ↦
                let same : record t { world = r.1 } ≡ s' = cc (rw (is_some, restore) at e) in
                let pins =
                  restore_default_freq-pins b level reads fuel (b.system_regs rtc_freq_offset)
                    t.world lawful driver convolve is_some in
                rw (← same) pins
          ]

    switch_and_run-IsTurn :
        (mhz : ℕ) (e : Entry) (ret : ℕ) (s s' : Station State) (next : Next)
        → IsTurnTarget b level bus reads fuel cfg default_repetitions tests e mhz
        → IsSetUp b level bus reads fuel cfg default_repetitions tests e s
        → switch_and_run b bus reads fuel cfg default_repetitions tests mhz e ret s
          ≡ some (next, s')
        → IsTurn b level bus reads fuel cfg default_repetitions tests e ret s next s'
    unfolding switch_and_run
    switch_and_run-IsTurn mhz e ret s s' next target ready is = elim (target-cases mhz) [
      | inl (minus_one, is_skip) ↦
          let (run, (t, same, back)) =
            run_and_finish-IsRun false e ret s s' next ready (rw (is_skip, switch_and_run) at is) in
          let is_t : t ≡ s' = restored_off t s' back in
          on_external_clock (rw minus_one at target) run (rw (← is_t) same)
      | inr (inl (ne, out, bad)) ↦
          let end = rw (bad, switch_and_run) at is in
          let is_next : again ret ≡ next = cc end in
          let is_s : s ≡ s' = cc end in
          rw (← is_next, ← is_s)
            (untouched (record {
              same_soc = refl;
              same_host = refl;
              refused = not_possible mhz target ne out refl refl;
            }))
      | inr (inr (low, high, is_freq)) ↦
          elim (Option-cases
            (configure_fll b reads fuel (mhz * 1000000) (b.system_regs rtc_freq_offset) s.world)) [
              | inl is_none ↦ cc (rw (is_freq, is_none, switch_and_run) at is)
              | inr (r, is_some) ↦ elim (Option-cases r.0) [
                | inl by_zero ↦ cc (rw (is_freq, is_some, by_zero, switch_and_run) at is)
                | inr (actual, is_actual) ↦
                    let set : IsConfigured b level bus reads fuel cfg default_repetitions tests s
                        mhz actual r.1 =
                      is_some ∙ ap (λ f. some (f, r.1)) is_actual in
                    elim (ℕ_discrete actual 0) [
                      | yes e0 ↦
                          let end =
                            rw (is_freq, is_some, is_actual, ==-eq actual 0 e0, switch_and_run) at
                              is in
                          let is_next : stop error ≡ next = cc end in
                          let is_s : record s { world = r.1 } ≡ s' = cc end in
                          rw (← is_next, ← is_s)
                            (untouched (record {
                              same_soc = refl;
                              same_host = refl;
                              refused = not_configured mhz target low high (rw e0 at set) refl;
                            }))
                      | no ne ↦
                          let (run, (t, pins, back)) =
                            run_and_finish-IsRun true e ret (record s { world = r.1 }) s' next ready
                              (rw (is_freq, is_some, is_actual, ==-ne actual 0 ne, switch_and_run)
                                at is) in
                          let end : IsRestored b level bus reads fuel cfg default_repetitions tests
                              r.1 s' =
                            rw pins at (restored-IsRestored t s' back) in
                          on_new_clock mhz actual r.1 target low high set ne run end
                    ]
              ]
            ]
    ]

    -- On chimera-convolve with the FLL driver and a GPIO library that keeps its promises: a turn of
    -- `test_cluster` that returns has ended in one of three ways. It has not touched the clusters and
    -- the core: an input line did not come, or `configure_fll` gave 0, and it gives the error; or the
    -- target is not -1 and outside of 10 to 1000 MHz, and the turn is taken again. It has run the
    -- clusters on the clock and the pins that it found, and the target is -1. Or the target is from 10
    -- to 1000 MHz, `configure_fll` has succeeded for it in Hz, it has run the clusters on the new clock
    -- and has put the core back on the external clock, unless the write of the bypass pin for that was
    -- refused. In the last two, registers, core and result are those of the run, and the arguments of
    -- every cluster under test hold the repetitions. The target and the repetitions are those that the
    -- mode names: the defaults, two scratch registers or the input lines.
    pub session_turn-IsTurn :
        (e : Entry) (ret : ℕ) (s s' : Station State) (next : Next)
        → session_turn b bus reads fuel cfg default_repetitions tests e ret s ≡ some (next, s')
        → IsTurn b level bus reads fuel cfg default_repetitions tests e ret s next s'
    unfolding session_turn
    session_turn-IsTurn e ret s s' next is =
        elim (Option-cases (choose_repetitions cfg.mode default_repetitions e)) [
          | inl is_none ↦
              let end = rw (is_none, session_turn) at is in
              let is_next : stop error ≡ next = cc end in
              let is_s : s ≡ s' = cc end in
              rw (← is_next, ← is_s)
                (untouched (record {
                  same_soc = refl;
                  same_host = refl;
                  refused =
                      no_repetitions
                        (choose_repetitions-HasNone cfg.mode default_repetitions e is_none) refl
                        refl;
                }))
          | inr (repetitions, is_some) ↦
              let store = set_repetitions tests.clusters 0 tests.args repetitions s.repetitions in
              let set = record s { repetitions = store } in
              let ready : IsSetUp b level bus reads fuel cfg default_repetitions tests e set = (
                repetitions,
                choose_repetitions-IsRepetitions cfg.mode default_repetitions e repetitions is_some,
                λ id lt. rw zero-add at (
                    set_repetitions_lem tests.clusters 0 tests.args repetitions s.repetitions id
                      lt),
              ) in
              elim (Option-cases
                (choose_freq cfg.mode cfg.default_frequency_mhz e.scratch_3 e.frequency_line)) [
                  | inl no_freq ↦
                      let end = rw (is_some, no_freq, session_turn) at is in
                      let is_next : stop error ≡ next = cc end in
                      let is_s : set ≡ s' = cc end in
                      rw (← is_next, ← is_s)
                        (untouched (record {
                          same_soc = refl;
                          same_host = refl;
                          refused =
                              no_frequency
                                (choose_freq-HasNone cfg.mode cfg.default_frequency_mhz e no_freq)
                                refl refl;
                        }))
                  | inr (mhz, is_mhz) ↦
                      any_repetitions b level bus reads fuel cfg default_repetitions tests e ret s
                        store next s'
                        (switch_and_run-IsTurn mhz e ret set s' next
                          (choose_freq-IsTarget cfg.mode cfg.default_frequency_mhz e mhz is_mhz)
                          ready (rw (is_some, is_mhz, session_turn) at is))
                ]
        ]
