-- ===== src/Runner/Session/Bypassed.antt =====
-- The clock after `test_cluster`.
use chimera_sdk.Base.{
  ℕ, zero, suc, ◌/◌, ◌≡◌, ◌⊎◌, ◌∙◌, refl, sym, inl, inr, Bool, true, Option-cases, some,
}
use chimera_sdk.Clint.{get_core_freq}
use chimera_sdk.Switch.{IsLawful, Board, bypass_pin, restore_default_freq, rtc_freq_offset}
use chimera_sdk.Switch.Pins.{restore_default_freq-pins}
use chimera_sdk.Runner.{Config, error, Next, again, stop}
use chimera_sdk.Runner.Watch.{Bus}
use chimera_sdk.Runner.Whole.{TestConfig}
use chimera_sdk.Runner.Session.{Entry, Station, session_turn, session, whole_session}
use chimera_sdk.Runner.Session.Ends.{
  IsRefused, no_repetitions, no_frequency, not_possible, not_configured, IsTurn, untouched,
  on_external_clock, on_new_clock,
}
use chimera_sdk.Runner.Session.Turn.{session_turn-IsTurn}

next-cases :
    (next : Next) → ((result : ℕ) × (next ≡ stop result)) ⊎ ((ret : ℕ) × (next ≡ again ret))
next-cases (stop result) = inl (result, refl)
next-cases (again ret) = inr (ret, refl)

module _ {State : Type 0} (b : Board State) (level : State → ℕ → Bool) (bus : Bus) (reads fuel : ℕ)
    (cfg : Config) (default_repetitions : ℕ) (tests : TestConfig) (lawful : IsLawful b.gpio level)
    (driver : b.driver_fll ≡ true) (convolve : b.convolve ≡ true)
    (accepts : (w : State) → (b.gpio.write bypass_pin true w).0 ≡ true) where
  -- The core runs on the external clock.
  abbrev IsBypassed : Station State → Type 0
  IsBypassed s = level s.world.pins bypass_pin ≡ true

  refused-IsBypassed :
      (e : Entry) (ret : ℕ) (s s' : Station State) (next : Next)
      → IsRefused b level bus reads fuel cfg default_repetitions tests e ret s next s'
      → IsBypassed s
      → IsBypassed s' ⊎ (next ≡ stop error)
  refused-IsBypassed e ret s s' next (no_repetitions absent is same) on = inr is
  refused-IsBypassed e ret s s' next (no_frequency absent is same) on = inr is
  refused-IsBypassed e ret s s' next (not_possible mhz target ne out is same) on = inl (rw same on)
  refused-IsBypassed e ret s s' next (not_configured mhz target low high set is) on = inr is

  turn-IsBypassed :
      (e : Entry) (ret : ℕ) (s s' : Station State) (next : Next)
      → IsTurn b level bus reads fuel cfg default_repetitions tests e ret s next s'
      → IsBypassed s
      → IsBypassed s' ⊎ (next ≡ stop error)
  turn-IsBypassed e ret s s' next (untouched u) on = refused-IsBypassed e ret s s' next u.refused on
  turn-IsBypassed e ret s s' next (on_external_clock target run pins) on = inl (rw pins on)
  turn-IsBypassed e ret s s' next (on_new_clock mhz actual w target low high set ne run back) on =
      elim back [ inl restored ↦ inl restored | inr denied ↦ absurd (cc (accepts w.pins, denied)) ]

  session-IsBypassed :
      (turns : ℕ) (entries : ℕ → Entry) (k ret : ℕ) (s s' : Station State) (result : ℕ)
      → IsBypassed s
      → session b bus reads fuel cfg default_repetitions tests turns entries k ret s
        ≡ some (result, s')
      → IsBypassed s' ⊎ (result ≡ error)
  unfolding session
  session-IsBypassed zero entries k ret s s' result on is = cc is
  session-IsBypassed (suc turns) entries k ret s s' result on is =
      elim (Option-cases
        (session_turn b bus reads fuel cfg default_repetitions tests (entries k) ret s)) [
          | inl is_none ↦ cc (rw (is_none, session) at is)
          | inr (r, is_turn) ↦
              let turn =
                session_turn-IsTurn b level bus reads fuel cfg default_repetitions tests lawful
                  driver convolve (entries k) ret s r.1 r.0 is_turn in
              let after = turn-IsBypassed (entries k) ret s r.1 r.0 turn on in
              elim (next-cases r.0) [
                | inl (result1, is_stop) ↦
                    let end = rw (is_turn, is_stop, session) at is in
                    let is_result : result1 ≡ result = cc end in
                    let is_s : r.1 ≡ s' = cc end in
                    elim after [
                      | inl bypassed ↦ inl (rw (← is_s) bypassed)
                      | inr is_error ↦
                          let stops : stop result1 ≡ stop error = sym is_stop ∙ is_error in
                          let is_minus_1 : result1 ≡ error = cc stops in
                          inr (sym is_result ∙ is_minus_1)
                    ]
                | inr (ret1, is_again) ↦ elim after [
                  | inl bypassed ↦
                      session-IsBypassed turns entries (suc k) ret1 r.1 s' result bypassed
                        (rw (is_turn, is_again, session) at is)
                  | inr is_error ↦ absurd (cc (is_again, is_error))
                ]
              ]
        ]

-- On chimera-convolve with the FLL driver and a GPIO library that keeps its promises and accepts
-- every write of the bypass pin: when `test_cluster` returns, after however many turns and whatever
-- the turns, the clusters and the clock before it were, the core runs on the external clock or the
-- result is -1.
pub whole_session-IsBypassed :
    {State : Type 0} (b : Board State) (level : State → ℕ → Bool) (bus : Bus) (reads fuel : ℕ)
    (cfg : Config) (default_repetitions : ℕ) (tests : TestConfig) (turns : ℕ) (entries : ℕ → Entry)
    (s s' : Station State) (result : ℕ)
    → IsLawful b.gpio level
    → b.driver_fll ≡ true
    → b.convolve ≡ true
    → ((w : State) → (b.gpio.write bypass_pin true w).0 ≡ true)
    → whole_session b bus reads fuel cfg default_repetitions tests turns entries s
      ≡ some (result, s')
    → (level s'.world.pins bypass_pin ≡ true) ⊎ (result ≡ error)
unfolding whole_session
whole_session-IsBypassed b level bus reads fuel cfg default_repetitions tests turns entries s s'
      result lawful driver convolve accepts is =
    let rtc = b.system_regs rtc_freq_offset in
    elim (Option-cases (restore_default_freq b reads fuel rtc s.world)) [
      | inl is_none ↦ cc (rw (is_none, whole_session) at is)
      | inr (r, restored) ↦
          elim (Option-cases (get_core_freq b.counters reads fuel rtc (rtc / 128) r.1.time)) [
            | inl is_none ↦ cc (rw (restored, is_none, whole_session) at is)
            | inr (measured, is_some) ↦
                let pins =
                  restore_default_freq-pins b level reads fuel rtc s.world lawful driver convolve
                    restored in
                elim pins [
                  | inl on ↦
                      session-IsBypassed b level bus reads fuel cfg default_repetitions tests lawful
                        driver convolve accepts turns entries 0 0
                        (record s { world = record r.1 { time = measured.1 } }) s' result on
                        (rw (restored, is_some, whole_session) at is)
                  | inr denied ↦ absurd (cc (accepts s.world.pins, denied))
                ]
          ]
    ]
