-- ===== src/Fll/Params.antt =====
-- The multiplier and divider that `calculate_fll_params` chooses, where `2 * target_freq` fits a
-- word.
use native.Mathlib.Decide.{ℕ_discrete}
use native.Mathlib.Nat.{
  mod-eq_of_lt, mul-le-mul, le_refl, div-mul-le_self, lt-div-mul-add, le-div_iff_mul-le,
  div-lt_iff_lt-mul,
}
use chimera_sdk.Base.{
  false, ℕ, suc, ◌+◌, ◌-◌, ◌*◌, ◌/◌, ◌^◌, ◌≤◌, ◌<◌, ◌≡◌, ◌⊎◌, ◌∙◌, refl, inl, inr, arith, true,
  some, none, Bool-cases, Option, u32, leb, ◌==◌, ==-ne, if◌then◌else◌, ◌<<<◌,
}
use chimera_sdk.Fll.{clz, fmax, FllParams, choose_params, calculate_fll_params}
use chimera_sdk.Fll.Clz.{clz_log}

-- The multiplier rounded to the nearest, but at least 1.
abbrev pub rounded : ℕ → ℕ → ℕ
rounded num rtc_freq = let m = (num + rtc_freq / 2) / rtc_freq in if m == 0 then 1 else m

-- The result behind the guards: no step wraps, and the divider is the largest power of two below
-- the limit.
choose_params_lem :
    (t rtc limit : ℕ)
    → 0 < t
    → rtc < 2 ^ 32
    → 1 < limit
    → 2 * (t * limit) ≤ fmax
    → (e : ℕ) × (choose_params t rtc limit ≡ record { mult = rounded (t * 2 ^ e) rtc; div = e + 1 })
      × (2 ^ e < limit)
      × (limit ≤ 2 * 2 ^ e)
      × (t * 2 ^ e < t * limit)
unfolding choose_params
choose_params_lem t rtc limit pos rtc_lt big le =
    let wide : 1 * limit ≤ t * limit = mul-le-mul pos (le_refl limit) in
    let below : limit - 1 < 2 ^ 32 = omega arith in
    let (e, sum, lo, hi) = clz_log 32 (limit - 1) (omega arith) below in
    let is_e : 31 - clz 32 (limit - 1) ≡ e = omega (arith, sum) in
    let thin : t * suc (2 ^ e) ≤ t * limit = mul-le-mul (le_refl t) (omega arith) in
    let less : t * 2 ^ e < t * limit = omega arith in
    let is_one : u32 (1 <<< e) ≡ 2 ^ e = mod-eq_of_lt (omega arith) ∙ omega arith in
    let is_num : u32 (t * 2 ^ e) ≡ t * 2 ^ e = mod-eq_of_lt (omega arith) in
    let is_sum : u32 (t * 2 ^ e + rtc / 2) ≡ t * 2 ^ e + rtc / 2 = mod-eq_of_lt (omega arith) in
    (e, rw (is_e, is_one, is_num, is_sum) refl, omega arith, omega arith, less)

rounded_up :
    (num rtc_freq : ℕ) → 0 < rtc_freq → 2 * num ≤ 2 * (rounded num rtc_freq * rtc_freq) + rtc_freq
rounded_up num rtc_freq pos =
    let hi : num + rtc_freq / 2 < (num + rtc_freq / 2) / rtc_freq * rtc_freq + rtc_freq =
      lt-div-mul-add pos in
    elim (Bool-cases ((num + rtc_freq / 2) / rtc_freq == 0)) [
      | inl z ↦
          let e : (num + rtc_freq / 2) / rtc_freq ≡ 0 = ground arith in
          let h : num + rtc_freq / 2 < 0 * rtc_freq + rtc_freq = rw e at hi in rw z (omega arith)
      | inr z ↦ rw z (omega arith)
    ]

rounded_down :
    (num rtc_freq : ℕ)
    → 0 < rtc_freq
    → (2 * (rounded num rtc_freq * rtc_freq) ≤ 2 * num + rtc_freq) ⊎ (rounded num rtc_freq ≡ 1)
rounded_down num rtc_freq pos =
    let lo : (num + rtc_freq / 2) / rtc_freq * rtc_freq ≤ num + rtc_freq / 2 =
      div-mul-le_self (num + rtc_freq / 2) rtc_freq in
    elim (Bool-cases ((num + rtc_freq / 2) / rtc_freq == 0)) [
      | inl z ↦ inr (rw z refl)
      | inr z ↦ inl (rw z (omega arith))
    ]

-- What the parameters are chosen for: with `Dout = 2 ^ (div - 1)`, the oscillator runs at most at
-- `fmax / 2`, twice that divider would not be below the limit, and the multiplier is the nearest.
abbrev pub IsTuned : ℕ → ℕ → FllParams → Type 0
IsTuned t rtc p =
    (e : ℕ) × (p.div ≡ e + 1)
    × (2 * (t * suc (2 ^ e)) ≤ fmax)
    × (fmax < 2 * (t * suc (2 * 2 ^ e)))
    × (2 * (t * 2 ^ e) ≤ 2 * (p.mult * rtc) + rtc)
    × ((2 * (p.mult * rtc) ≤ 2 * (t * 2 ^ e) + rtc) ⊎ (p.mult ≡ 1))

abbrev pub IsOutcome : ℕ → ℕ → Option FllParams → Type 0
IsOutcome t rtc none = (t ≡ 0) ⊎ (rtc ≡ 0) ⊎ (fmax < 2 * (t * 2))
IsOutcome t rtc (some p) = IsTuned t rtc p

-- For a target below `2 ^ 31`, `calculate_fll_params` fails for a zero frequency and for a target
-- above a quarter of `fmax` only; otherwise the divider is the largest power of two below the limit
-- that the 3.3 GHz bound sets, and the multiplier is the nearest that is not 0.
pub calculate_fll_params-IsOutcome :
    (t rtc : ℕ) → t < 2 ^ 31 → rtc < 2 ^ 32 → IsOutcome t rtc (calculate_fll_params true true t rtc)
unfolding calculate_fll_params
calculate_fll_params-IsOutcome t rtc t_lt rtc_lt = elim (ℕ_discrete t 0) [
  | yes z ↦ rw z (inl refl)
  | no t_ne ↦ elim (ℕ_discrete rtc 0) [
    | yes z ↦ rw (z, ==-ne t 0 t_ne) (inr (inl refl))
    | no rtc_ne ↦
        let is_denom : u32 (2 * t) ≡ 2 * t = mod-eq_of_lt (omega arith) in
        let denom_pos : (2 * t == 0) ≡ false = ground arith in
        let pos : 0 < 2 * t = omega arith in
        elim (Bool-cases (leb (fmax / (2 * t)) 1)) [
          | inl high ↦
              let h : fmax / (2 * t) < 2 = ground arith in
              let far : fmax < 2 * (2 * t) = (div-lt_iff_lt-mul pos).0 h in
              rw (==-ne t 0 t_ne, ==-ne rtc 0 rtc_ne, is_denom, denom_pos, high)
                (inr (inr (omega arith)))
          | inr low ↦
              let h : 1 < fmax / (2 * t) = ground arith in
              let near : fmax / (2 * t) * (2 * t) ≤ fmax = div-mul-le_self fmax (2 * t) in
              let (e, is_chosen, above, under, less) =
                choose_params_lem t rtc (fmax / (2 * t)) (omega arith) rtc_lt h (omega arith) in
              let under_next : fmax / (2 * t) < suc (2 * 2 ^ e) = omega arith in
              rw (==-ne t 0 t_ne, ==-ne rtc 0 rtc_ne, is_denom, denom_pos, low, is_chosen)
                (
                  e,
                  refl,
                  omega (arith, (le-div_iff_mul-le pos).0 above),
                  omega (arith, (div-lt_iff_lt-mul pos).0 under_next),
                  rounded_up (t * 2 ^ e) rtc (omega arith),
                  rounded_down (t * 2 ^ e) rtc (omega arith),
                )
        ]
  ]
]
