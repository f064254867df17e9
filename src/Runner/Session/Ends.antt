-- ===== src/Runner/Session/Ends.antt =====
-- The ways in which a turn of `test_cluster` ends.
use chimera_sdk.Base.{◌*◌, ◌≤◌, ◌<◌, ℕ, ◌≡◌, ◌≢◌, ◌⊎◌, Bool, true, false, some}
use chimera_sdk.Offload.{Soc}
use chimera_sdk.Switch.{Board, World, bypass_pin, configure_fll, rtc_freq_offset}
use chimera_sdk.Runner.{Config, error, Next, again, stop, finish}
use chimera_sdk.Runner.Watch.{Bus, Host}
use chimera_sdk.Runner.Whole.{TestConfig, Outcome, run_clusters}
use chimera_sdk.Runner.Session.{Entry, Station}
use chimera_sdk.Runner.Session.Choice.{IsRepetitions, IsTarget, HasNone}

module _ {State : Type 0} (b : Board State) (level : State → ℕ → Bool) (bus : Bus) (reads fuel : ℕ)
    (cfg : Config) (default_repetitions : ℕ) (tests : TestConfig) where
  abbrev pub IsTurnTarget : Entry → ℕ → Type 0
  IsTurnTarget e mhz = IsTarget cfg.mode cfg.default_frequency_mhz e mhz

  -- The loops configured for `mhz` MHz, with the result of the measurement and the world behind it.
  abbrev pub IsConfigured : Station State → (mhz result : ℕ) → World State → Type 0
  IsConfigured s mhz result w =
      configure_fll b reads fuel (mhz * 1000000) (b.system_regs rtc_freq_offset) s.world
      ≡ some (some result, w)

  -- Why a turn does not come to a run, and what it gives.
  pub data IsRefused (e : Entry) (ret : ℕ) (s : Station State) (next : Next) (s' : Station State)
      : Type 0 where
    no_repetitions :
        HasNone cfg.mode e.repetitions_line
        → next ≡ stop error
        → s'.world ≡ s.world
        → IsRefused e ret s next s'
    no_frequency :
        HasNone cfg.mode e.frequency_line
        → next ≡ stop error
        → s'.world ≡ s.world
        → IsRefused e ret s next s'
    not_possible :
        (mhz : ℕ)
        → IsTurnTarget e mhz
        → mhz ≢ 0xFFFFFFFF
        → (mhz < 10) ⊎ (1000 < mhz)
        → next ≡ again ret
        → s'.world ≡ s.world
        → IsRefused e ret s next s'
    not_configured :
        (mhz : ℕ)
        → IsTurnTarget e mhz
        → 10 ≤ mhz
        → mhz ≤ 1000
        → IsConfigured s mhz 0 s'.world
        → next ≡ stop error
        → IsRefused e ret s next s'

  -- The clusters were not touched.
  pub record IsUntouched (e : Entry) (ret : ℕ) (s : Station State) (next : Next)
      (s' : Station State) : Type 0 where
    pub same_soc : s'.soc ≡ s.soc
    pub same_host : s'.host ≡ s.host
    pub refused : IsRefused e ret s next s'

  -- The arguments of every cluster under test hold the repetitions of the turn.
  abbrev pub IsSetUp : Entry → Station State → Type 0
  IsSetUp e s =
      (n : ℕ) × IsRepetitions cfg.mode default_repetitions e n
      × ((id : ℕ) → id < tests.clusters → s.repetitions (tests.args id) ≡ n)

  -- A run of the clusters on the clock of `w`, and the turn's end with its outcome.
  pub record IsRun (e : Entry) (ret : ℕ) (soc : Soc) (host : Host) (w : World State) (next : Next)
      (s' : Station State) : Type 0 where
    pub outcome : Outcome
    pub ends_at : ℕ
    pub runs :
        run_clusters bus reads fuel tests (b.system_regs rtc_freq_offset) ret soc host w.time
        ≡ some (outcome, ends_at)
    pub new_soc : s'.soc ≡ outcome.soc
    pub new_host : s'.host ≡ outcome.host
    pub set_up : IsSetUp e s'
    pub next_is : next ≡ finish cfg.mode e.answer outcome.timed_out outcome.ret

  -- The core runs on the external clock again, unless the GPIO library refused the write of the bypass
  -- pin at the end of the turn, where the pins are still those behind the switch to the clock of `w`.
  abbrev pub IsRestored : World State → Station State → Type 0
  IsRestored w s' =
      (level s'.world.pins bypass_pin ≡ true) ⊎ ((b.gpio.write bypass_pin true w.pins).0 ≡ false)

  pub data IsTurn (e : Entry) (ret : ℕ) (s : Station State) (next : Next) (s' : Station State)
      : Type 0 where
    untouched : IsUntouched e ret s next s' → IsTurn e ret s next s'
    on_external_clock :
        IsTurnTarget e 0xFFFFFFFF
        → IsRun e ret s.soc s.host s.world next s'
        → s'.world.pins ≡ s.world.pins
        → IsTurn e ret s next s'
    on_new_clock :
        (mhz actual_freq : ℕ) (w : World State)
        → IsTurnTarget e mhz
        → 10 ≤ mhz
        → mhz ≤ 1000
        → IsConfigured s mhz actual_freq w
        → actual_freq ≢ 0
        → IsRun e ret s.soc s.host w next s'
        → IsRestored w s'
        → IsTurn e ret s next s'

  -- The repetitions before the turn play no part in it.
  any_repetitions-IsRefused :
      (e : Entry) (ret : ℕ) (s : Station State) (store : ℕ → ℕ) (next : Next) (s' : Station State)
      → IsRefused e ret (record s { repetitions = store }) next s'
      → IsRefused e ret s next s'
  any_repetitions-IsRefused e ret s store next s' (no_repetitions absent is same) =
      no_repetitions absent is same
  any_repetitions-IsRefused e ret s store next s' (no_frequency absent is same) =
      no_frequency absent is same
  any_repetitions-IsRefused e ret s store next s' (not_possible mhz target ne out is same) =
      not_possible mhz target ne out is same
  any_repetitions-IsRefused e ret s store next s' (not_configured mhz target low high set is) =
      not_configured mhz target low high set is

  pub any_repetitions :
      (e : Entry) (ret : ℕ) (s : Station State) (store : ℕ → ℕ) (next : Next) (s' : Station State)
      → IsTurn e ret (record s { repetitions = store }) next s'
      → IsTurn e ret s next s'
  any_repetitions e ret s store next s' (untouched u) = untouched (record {
    same_soc = u.same_soc;
    same_host = u.same_host;
    refused = any_repetitions-IsRefused e ret s store next s' u.refused;
  })
  any_repetitions e ret s store next s' (on_external_clock target run pins) =
      on_external_clock target run pins
  any_repetitions e ret s store next s'
        (on_new_clock mhz actual w target low high set ne run back) =
      on_new_clock mhz actual w target low high set ne run back
