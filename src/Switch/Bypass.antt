-- ===== src/Switch/Bypass.antt =====
-- The bypass during the switch of the clock: the loops are written only behind it.
use chimera_sdk.Base.{
  List, [], ◌∷◌, ℕ, ◌≡◌, ◌≢◌, ◌⊎◌, ◌∙◌, refl, sym, inl, inr, Option-cases, Bool-cases, Bool, true,
  false, Option, some, ◌++◌, ap,
}
use chimera_sdk.Fll.{
  FllParams, calculate_fll_params, cfg1, init_word, freq_word, get_fll_ptr, fll_soc_base,
  fll_clu_base,
}
use chimera_sdk.Mmio.{Regs, write32}
use chimera_sdk.Uart.Device.{Device, apply_all, latched}
use chimera_sdk.Switch.{
  IsLawful, Board, World, bypass_pin, program_fll, switch_clock, configure_fll,
}
use chimera_sdk.Switch.Serial.{measure_and_reopen-IsReclocked}
use chimera_sdk.Switch.Clock.{
  enabling, disabling, bypassed, programmed, switch_clock_refused, switch_clock_stuck,
  switch_clock_done,
}

-- Two writes to the SoC's loop and then two to the cluster's, all with the pins as they stand.
abbrev pub writes_at : {State : Type 0} → State → (a b c d : ℕ) → List (ℕ × ℕ × State)
writes_at s a b c d =
    (cfg1 fll_soc_base, a, s)
    ∷ (cfg1 fll_soc_base, b, s)
    ∷ (cfg1 fll_clu_base, c, s)
    ∷ (cfg1 fll_clu_base, d, s)
    ∷ []

-- The registers behind logged writes.
pub replay : {State : Type 0} → List (ℕ × ℕ × State) → Regs → Regs
replay [] regs = regs
replay ((a, v, s) ∷ ws) regs = replay ws (write32 a v regs)

-- The four writes were made with the pins `s`, and nothing else changed the loops' registers.
abbrev pub AreMade : {State : Type 0} → State → (w w' : World State) → Type 0
AreMade s w w' =
    (a b c d : ℕ) × (w'.log ≡ w.log ++ writes_at s a b c d)
    × (w'.fll ≡ replay (writes_at s a b c d) w.fll)

append_four :
    {A : Type 0} (xs : List A) (a b c d : A)
    → (((xs ++ (a ∷ [])) ++ (b ∷ [])) ++ (c ∷ [])) ++ (d ∷ []) ≡ xs ++ (a ∷ b ∷ c ∷ d ∷ [])
append_four [] a b c d = refl
append_four (x ∷ xs) a b c d = ap (λ ys. x ∷ ys) (append_four xs a b c d)

programmed-AreMade :
    {State : Type 0} (b : Board State) (p : FllParams) (w : World State)
    → AreMade (enabling b w).1 w (programmed b p w)
unfolding program_fll get_fll_ptr replay
programmed-AreMade b p w =
    let soc = cfg1 fll_soc_base in
    let clu = cfg1 fll_clu_base in
    let v1 = init_word (w.fll soc) in
    let r1 = write32 soc v1 w.fll in
    let v2 = freq_word p (r1 soc) in
    let r2 = write32 soc v2 r1 in
    let v3 = init_word (r2 clu) in
    let v4 = freq_word p (write32 clu v3 r2 clu) in
    let s = (enabling b w).1 in
    (v1, v2, v3, v4, append_four w.log (soc, v1, s) (soc, v2, s) (clu, v3, s) (clu, v4, s), refl)

AreMade-then :
    {State : Type 0} (s : State) (w v w' : World State)
    → AreMade s w v
    → w'.log ≡ v.log
    → w'.fll ≡ v.fll
    → AreMade s w w'
AreMade-then s w v w' (a, b, c, d, log, fll) same_log same_fll =
    (a, b, c, d, same_log ∙ log, same_fll ∙ fll)

-- Behind an enabled bypass every end of `switch_clock` has made these writes and no other.
switched-AreMade :
    {State : Type 0} (b : Board State) (d : Device) (reads fuel : ℕ) (p : FllParams) (rtc : ℕ)
    (w : World State) {f : Option ℕ} {w' : World State}
    → b.convolve ≡ true
    → (enabling b w).0 ≡ true
    → w.default_uart_inst.base ≢ 0
    → latched (apply_all d w.bus.writes) ≡ false
    → switch_clock b reads fuel p rtc w ≡ some (f, w')
    → AreMade (enabling b w).1 w w'
unfolding program_fll
switched-AreMade b d reads fuel p rtc w {f} {w'} convolve allowed ne closed e =
    elim (Bool-cases (disabling b w).0) [
      | inr denied ↦
          let e1 = sym (switch_clock_stuck b reads fuel p rtc w convolve allowed denied) ∙ e in
          let ew : programmed b p w ≡ w' = cc e1 in rw (← ew) (programmed-AreMade b p w)
      | inl done ↦
          let e1 = sym (switch_clock_done b reads fuel p rtc w convolve allowed done) ∙ e in
          let r =
            measure_and_reopen-IsReclocked b d reads fuel rtc 1 (programmed b p w) ne closed e1 in
          AreMade-then (enabling b w).1 w (programmed b p w) w' (programmed-AreMade b p w)
            r.same_log r.same_loops
    ]

-- On chimera-convolve, with a GPIO library that keeps its promises, a UART port with an address and a
-- device whose divisor latch is closed: a `configure_fll` that returns has either written no register
-- of the loops, or has written twice to that of the SoC's and then twice to that of the cluster's,
-- all four times with the bypass pin on, and the registers of the loops are what these four writes
-- make of them.
pub configure_fll-IsBypassed :
    {State : Type 0} (b : Board State) (level : State → ℕ → Bool) (d : Device)
    (reads fuel t rtc : ℕ) (w : World State) {f : Option ℕ} {w' : World State}
    → IsLawful b.gpio level
    → b.convolve ≡ true
    → w.default_uart_inst.base ≢ 0
    → latched (apply_all d w.bus.writes) ≡ false
    → configure_fll b reads fuel t rtc w ≡ some (f, w')
    → ((w'.log ≡ w.log) × (w'.fll ≡ w.fll))
      ⊎ ((s : State) × (level s bypass_pin ≡ true) × AreMade s w w')
unfolding configure_fll
configure_fll-IsBypassed b level d reads fuel t rtc w {f} {w'} lawful convolve ne closed e =
    elim (Bool-cases b.driver_fll) [
      | inr missing ↦
          let ew : w ≡ w' = cc (rw (missing, configure_fll) at e) in rw (← ew) (inl (refl, refl))
      | inl driver ↦ elim (Option-cases (calculate_fll_params true true t rtc)) [
        | inl is_none ↦
            let ew : w ≡ w' = cc (rw (driver, is_none, configure_fll) at e) in
            rw (← ew) (inl (refl, refl))
        | inr (p, is_some) ↦ elim (Bool-cases (enabling b w).0) [
          | inr denied ↦
              let e1 =
                sym (switch_clock_refused b reads fuel p rtc w convolve denied)
                ∙ rw (driver, is_some, configure_fll) at e in
              let ew : bypassed b w ≡ w' = cc e1 in rw (← ew) (inl (refl, refl))
          | inl allowed ↦ inr (
            (enabling b w).1,
            lawful.sets bypass_pin true w.pins allowed,
            switched-AreMade b d reads fuel p rtc w convolve allowed ne closed
                (rw (driver, is_some, configure_fll) at e),
          )
        ]
      ]
    ]
