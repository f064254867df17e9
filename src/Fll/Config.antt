-- ===== src/Fll/Config.antt =====
-- What `initFll` and `setFllFreq` leave in the configuration register.
use native.Mathlib.Decide.{ℕ_discrete}
use native.Mathlib.Nat.{mod-eq_of_lt, mul-le-mul, le_refl, pow-le-pow_right}
use chimera_sdk.Base.{
  ==-ne, ◌≢◌, ◌||◌, ℕ, suc, ◌+◌, ◌*◌, ◌/◌, ◌%◌, ◌^◌, ◌≤◌, ◌<◌, ◌≡◌, ◌∙◌, inl, inr, refl, arith,
  true, some, none, Option, Option-cases, Bool-cases, ltb, bit_and, bit_or, u32, ◌<<<◌, ==-self,
  if◌then◌else◌, ◌==◌,
}
use chimera_sdk.Base.Bits.{
  bit_or_parts, bit_and_high, bit_or_sum, bit_and_low, zero-bit_or, bit_or-zero,
}
use chimera_sdk.Mmio.{Regs, write32, write32_self, write32_iff}
use chimera_sdk.Fll.{
  FllParams, calculate_fll_params, cfg1, init_fll, set_fll_freq, get_fll_ptr, program_flls,
  fll_soc_base, fll_clu_base,
}
use chimera_sdk.Fll.Params.{IsTuned, calculate_fll_params-IsOutcome}

-- The fields of the register: what the reset value of the upper half keeps, divider and multiplier.
abbrev pub word_of : FllParams → ℕ
word_of p = ((48 + p.div) * 2 ^ 10 + 344) * 2 ^ 16 + p.mult

join_low : (mult div : ℕ) → mult < 2 ^ 26 → bit_or mult (div * 2 ^ 26) ≡ div * 2 ^ 26 + mult
join_low mult div h =
    let e : bit_or (0 * 2 ^ 26 + mult) (div * 2 ^ 26 + 0) ≡ bit_or 0 div * 2 ^ 26 + bit_or mult 0 =
      bit_or_parts 26 0 mult div 0 h (omega arith) in
    let l : 0 * 2 ^ 26 + mult ≡ mult = omega arith in
    let r : div * 2 ^ 26 + 0 ≡ div * 2 ^ 26 = omega arith in
    rw (l, r, zero-bit_or div, bit_or-zero mult) at e

join_kept : (div : ℕ) → div < 16 → bit_or 0xC158 (div * 2 ^ 10) ≡ (48 + div) * 2 ^ 10 + 344
join_kept div h =
    let e : bit_or 0xC158 (div * 2 ^ 10 + 0) ≡ bit_or 48 div * 2 ^ 10 + bit_or 344 0 =
      bit_or_parts 10 48 344 div 0 (omega arith) (omega arith) in
    let r : div * 2 ^ 10 + 0 ≡ div * 2 ^ 10 = omega arith in
    let top : bit_or 48 div ≡ 48 + div = bit_or_sum 4 3 div h in rw (r, top) at e

fields :
    (mult div : ℕ)
    → mult < 2 ^ 16
    → div < 16
    → bit_or (0xC158 * 2 ^ 16) (bit_or mult (div * 2 ^ 26))
      ≡ ((48 + div) * 2 ^ 10 + 344) * 2 ^ 16 + mult
fields mult div m_lt d_lt =
    let e : bit_or (0xC158 * 2 ^ 16 + 0) (div * 2 ^ 10 * 2 ^ 16 + mult)
        ≡ bit_or 0xC158 (div * 2 ^ 10) * 2 ^ 16 + bit_or 0 mult =
      bit_or_parts 16 0xC158 0 (div * 2 ^ 10) mult (omega arith) m_lt in
    let r : div * 2 ^ 10 * 2 ^ 16 + mult ≡ div * 2 ^ 26 + mult = omega arith in
    rw (join_low mult div (omega arith)) (rw (r, join_kept div d_lt, zero-bit_or mult) at e)

init_fll_lem :
    (ptr : ℕ) (regs : Regs)
    → init_fll ptr regs (cfg1 ptr) ≡ 0xC958 * 2 ^ 16 + regs (cfg1 ptr) % 2 ^ 16
unfolding init_fll
init_fll_lem ptr regs =
    rw
      (
        write32_self (cfg1 ptr)
            (bit_or (u32 (0xC958 <<< 16)) (bit_and (regs (cfg1 ptr)) 0x0000FFFF)) regs,
        bit_and_low 16 (regs (cfg1 ptr)),
      )
      (bit_or_sum 16 0xC958 (regs (cfg1 ptr) % 2 ^ 16) (omega arith))

-- With a divider and a multiplier that fit their fields, `setFllFreq` after `initFll` leaves the
-- two of them and the constant bits in the register, whatever it held before.
pub set_fll_freq-init_fll :
    (ptr : ℕ) (p : FllParams) (regs : Regs)
    → p.mult < 2 ^ 16
    → p.div < 16
    → set_fll_freq ptr p (init_fll ptr regs) (cfg1 ptr) ≡ word_of p
unfolding set_fll_freq
set_fll_freq-init_fll ptr p regs m_lt d_lt =
    let old = regs (cfg1 ptr) % 2 ^ 16 in
    let upper : (0xC958 * 2 ^ 16 + old) / 2 ^ 16 ≡ 0xC958 = omega arith in
    let kept : bit_and (0xC958 * 2 ^ 16 + old) (0xC3FF * 2 ^ 16) ≡ 0xC158 * 2 ^ 16 =
      bit_and_high 16 (0xC958 * 2 ^ 16 + old) 0xC3FF ∙ rw upper refl in
    let shifted : u32 (p.div <<< 26) ≡ p.div * 2 ^ 26 = mod-eq_of_lt (omega arith) in
    rw (write32_iff (cfg1 ptr) (cfg1 ptr), ==-self (cfg1 ptr), init_fll_lem ptr regs, kept, shifted)
      (fields p.mult p.div m_lt d_lt)

fits :
    (t rtc : ℕ) (p : FllParams)
    → 2 ^ 16 ≤ t
    → 2 ^ 15 ≤ rtc
    → IsTuned t rtc p
    → (p.mult < 2 ^ 16) × (p.div < 16)
fits t rtc p t_lo rtc_lo (e, is_div, near, far, up, down) =
    let wide : 2 ^ 16 * suc (2 ^ e) ≤ t * suc (2 ^ e) = mul-le-mul t_lo (le_refl (suc (2 ^ e))) in
    let small : e < 15 = elim (Bool-cases (ltb e 15)) [
      | inl lt ↦ ground arith
      | inr ge ↦
          let over : 15 ≤ e = ground arith in
          let big : 2 ^ 15 ≤ 2 ^ e = pow-le-pow_right (omega arith) over in absurd (omega arith)
    ] in
    let few : p.mult < 2 ^ 16 = elim down [
      | inl le ↦ elim (Bool-cases (ltb p.mult (2 ^ 16))) [
        | inl lt ↦ ground arith
        | inr ge ↦
            let large : 2 ^ 16 * rtc ≤ p.mult * rtc = mul-le-mul (ground arith) (le_refl rtc) in
            absurd (omega arith)
      ]
      | inr one ↦ omega arith
    ] in
    (few, omega arith)

abbrev pub Fits : Option FllParams → Type 0
Fits none = Unit {0}
Fits (some p) = (p.mult < 2 ^ 16) × (p.div < 16)

-- With a reference clock of 32768 Hz or faster and a target from 65536 Hz to below `2 ^ 31`, the
-- parameters that `calculate_fll_params` returns fit the register's fields.
pub calculate_fll_params-Fits :
    (t rtc : ℕ)
    → 2 ^ 16 ≤ t
    → t < 2 ^ 31
    → 2 ^ 15 ≤ rtc
    → rtc < 2 ^ 32
    → Fits (calculate_fll_params true true t rtc)
calculate_fll_params-Fits t rtc t_lo t_lt rtc_lo rtc_lt =
    elim (Option-cases (calculate_fll_params true true t rtc)) [
      | inl is_none ↦ rw is_none tt
      | inr (p, is_some) ↦
          let o : IsTuned t rtc p =
            rw is_some at (calculate_fll_params-IsOutcome t rtc t_lt rtc_lt) in
          rw is_some (fits t rtc p t_lo rtc_lo o)
    ]

-- Programming one loop changes no other register.
frame :
    (ptr : ℕ) (p : FllParams) (regs : Regs) (a : ℕ)
    → a ≢ cfg1 ptr
    → set_fll_freq ptr p (init_fll ptr regs) a ≡ regs a
unfolding set_fll_freq init_fll write32
frame ptr p regs a ne = rw (==-ne a (cfg1 ptr) ne) refl

-- After `configure_fll` has programmed both loops with a multiplier below 2 ^ 16 and a divider below
-- 16, both
-- configuration registers hold the word for them, and no other register has changed.
pub program_flls_lem :
    (p : FllParams) (regs : Regs) (a : ℕ)
    → p.mult < 2 ^ 16
    → p.div < 16
    → program_flls p regs a
      ≡ (if a == cfg1 fll_soc_base || a == cfg1 fll_clu_base then word_of p else regs a)
unfolding program_flls get_fll_ptr
program_flls_lem p regs a m_lt d_lt =
    let soc_done = set_fll_freq fll_soc_base p (init_fll fll_soc_base regs) in
    elim (ℕ_discrete a (cfg1 fll_clu_base)) [
      | yes e ↦ rw e (set_fll_freq-init_fll fll_clu_base p soc_done m_lt d_lt)
      | no ne ↦ frame fll_clu_base p soc_done a ne ∙ elim (ℕ_discrete a (cfg1 fll_soc_base)) [
        | yes e ↦ rw e (set_fll_freq-init_fll fll_soc_base p regs m_lt d_lt)
        | no ne' ↦
            rw (==-ne a (cfg1 fll_soc_base) ne', ==-ne a (cfg1 fll_clu_base) ne)
              (frame fll_soc_base p regs a ne')
      ]
    ]
