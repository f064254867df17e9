-- ===== src/Fll.antt =====
-- The frequency-locked loops: host/drivers/fll/fll.c and the parameter calculation of
-- host/runtime/src/fll.c, with the addresses of chimera-convolve's
-- targets/chimera-convolve/shared/inc/addr_maps/fll_addr_map.h.
pub mod Clz
pub mod Params
pub mod TooHigh
pub mod Config
mod Tests
use chimera_sdk.Base.{
  ℕ, zero, suc, ◌+◌, ◌-◌, ◌*◌, ◌/◌, ◌%◌, ◌^◌, Bool, true, false, not, ◌||◌, Option, none, some,
  bit_and, bit_or, u32, ltb, leb, ◌==◌, if◌then◌else◌, ◌<<<◌,
}
use chimera_sdk.Mmio.{Regs, write32}

-- `__builtin_clz` of a word of `w` bits.
unfoldable pub clz : ℕ → ℕ → ℕ
clz zero x = 0
clz (suc w) x = if ltb x (2 ^ w) then suc (clz w x) else 0

abbrev pub fmax : ℕ
fmax = 3300000000

-- `(mult, div)`
pub record FllParams : Type 0 where
  pub mult : ℕ
  pub div : ℕ

-- The part of `calculate_fll_params` behind its guards; `limit` is above 1.
unfoldable pub choose_params : ℕ → ℕ → ℕ → FllParams
choose_params target_freq rtc_freq limit =
    let below = limit - 1 in
    let e = 31 - clz 32 below in
    let dout = u32 (1 <<< e) in
    let num = u32 (target_freq * dout) in
    let m = u32 (num + rtc_freq / 2) / rtc_freq in
    record { mult = if m == 0 then 1 else m; div = e + 1 }

-- `calculate_fll_params`: `none` is the return of -1. The two Booleans say that the pointers `mult`
-- and `div` are not `NULL`.
unfoldable pub calculate_fll_params : Bool → Bool → ℕ → ℕ → Option FllParams
calculate_fll_params mult_ptr div_ptr target_freq rtc_freq =
    if not mult_ptr || not div_ptr || target_freq == 0 || rtc_freq == 0
    then none
    else let denom = u32 (2 * target_freq) in
      if denom == 0
      then none
      else let limit = fmax / denom in
        if leb limit 1 then none else some (choose_params target_freq rtc_freq limit)

-- `FLL_SOC_BASE` and `FLL_CLU_BASE`
abbrev pub fll_soc_base : ℕ
fll_soc_base = 0x30004000

abbrev pub fll_clu_base : ℕ
fll_clu_base = fll_soc_base + 16

abbrev pub fll_conf1_offset : ℕ
fll_conf1_offset = 0x4

-- `getFllPtr`; 0 is `NULL`.
unfoldable pub get_fll_ptr : ℕ → ℕ
get_fll_ptr fll_idx =
    if fll_idx == 0 then fll_soc_base else if fll_idx == 1 then fll_clu_base else 0

-- `fllPtr += FLL_CONF1_OFFSET / 4` on a pointer to words
abbrev pub cfg1 : ℕ → ℕ
cfg1 fll_ptr = fll_ptr + fll_conf1_offset / 4 * 4

-- The words that `initFll` and `setFllFreq` store, from the word that they read.
abbrev pub init_word : ℕ → ℕ
init_word word = bit_or (u32 (0xC958 <<< 16)) (bit_and word 0x0000FFFF)

abbrev pub freq_word : FllParams → ℕ → ℕ
freq_word p word =
    let div = u32 (p.div <<< 26) in bit_or (bit_and word 0xC3FF0000) (bit_or p.mult div)

-- `initFll`
unfoldable pub init_fll : ℕ → Regs → Regs
init_fll fll_ptr regs = let a = cfg1 fll_ptr in write32 a (init_word (regs a)) regs

-- `setFllFreq`
unfoldable pub set_fll_freq : ℕ → FllParams → Regs → Regs
set_fll_freq fll_ptr p regs = let a = cfg1 fll_ptr in write32 a (freq_word p (regs a)) regs

-- The part of `configure_fll` that programs the two loops with parameters already chosen.
unfoldable pub program_flls : FllParams → Regs → Regs
program_flls p regs =
    let soc_done = set_fll_freq (get_fll_ptr 0) p (init_fll (get_fll_ptr 0) regs) in
    set_fll_freq (get_fll_ptr 1) p (init_fll (get_fll_ptr 1) soc_done)
