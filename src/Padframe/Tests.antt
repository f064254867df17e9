-- ===== src/Padframe/Tests.antt =====
-- The drivers of two pads over bit fields by digits, and the theorems applied to them.
use chimera_sdk.Base.{◌≡◌, refl, arith}
use chimera_sdk.Mmio.{Regs}
use chimera_sdk.Padframe.{drv, pue, driver, gpio_3, gpio_4, cs1, dq0, drv_set, drv_get}
use chimera_sdk.Padframe.Gpio.{cfg_get-cfg_set, gpio_pads-independent}
use chimera_sdk.Padframe.Hyper.{drv_get-drv_set}
use chimera_sdk.Padframe.Digits.{digits, digits-IsBitfield}

abbrev pad_regs : Regs
pad_regs = λ a. 0x1a5

cfg_get-cfg_set_example :
    ((driver digits gpio_3).cfg_get drv ((driver digits gpio_3).cfg_set drv 7 pad_regs) ≡ 3)
    × ((driver digits gpio_3).mux_get ((driver digits gpio_3).cfg_set drv 7 pad_regs)
        ≡ (driver digits gpio_3).mux_get pad_regs)
cfg_get-cfg_set_example =
    cfg_get-cfg_set digits digits-IsBitfield gpio_3 drv drv 7 pad_regs (omega arith)

gpio_pads-independent_example :
    let da = driver digits gpio_3 in
    let db = driver digits gpio_4 in
    (db.cfg_get pue (da.mux_set 2 (da.cfg_set drv 3 pad_regs)) ≡ db.cfg_get pue pad_regs)
    × (db.mux_get (da.mux_set 2 (da.cfg_set drv 3 pad_regs)) ≡ db.mux_get pad_regs)
gpio_pads-independent_example =
    gpio_pads-independent digits digits-IsBitfield 3 4 gpio_3 gpio_4 drv pue 3 2 pad_regs
      (omega arith) refl refl

drv_get-drv_set_example :
    drv_get digits cs1 (drv_set digits dq0 2 pad_regs) ≡ drv_get digits cs1 pad_regs
drv_get-drv_set_example = drv_get-drv_set digits digits-IsBitfield 6 1 dq0 cs1 2 pad_regs refl refl
