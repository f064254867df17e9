-- ===== src/Fll/Tests.antt =====
-- The FLL parameters at 200 MHz from a 32768 Hz reference, and the theorems applied there.
use chimera_sdk.Base.{◌≡◌, refl, arith, true, some}
use chimera_sdk.Mmio.{Regs}
use chimera_sdk.Fll.{clz, FllParams, choose_params, calculate_fll_params}
use chimera_sdk.Fll.Params.{IsOutcome, calculate_fll_params-IsOutcome}

abbrev params : FllParams
params = record { mult = 24414; div = 3 }

calculated : calculate_fll_params true true 200000000 32768 ≡ some params
unfolding calculate_fll_params choose_params clz
calculated = refl

calculate_fll_params-IsOutcome_example :
    IsOutcome 200000000 32768 (calculate_fll_params true true 200000000 32768)
calculate_fll_params-IsOutcome_example =
    calculate_fll_params-IsOutcome 200000000 32768 (omega arith) (omega arith)

abbrev fll_regs : Regs
fll_regs = λ a. 12345678
