-- ===== src/Padframe/Gpio.antt =====
-- The functions of the GPIO pads: what is set reads back, and nothing else changes.
use native.Mathlib.Decide.{ℕ_discrete}
use native.Mathlib.Nat.{mod-eq_of_lt}
use chimera_sdk.Base.{
  ==-self, ==-ne, ℕ, zero, suc, ◌+◌, ◌*◌, ◌%◌, ◌<◌, ◌≡◌, ◌≢◌, ◌∙◌, refl, ap, arith, List, [], ◌∷◌,
  some, get_elem?, Bool, true, false, u8, u32, bit_and, ◌==◌, if◌then◌else◌,
}
use chimera_sdk.Base.Bits.{bit_and_low}
use chimera_sdk.Mmio.{Regs, write32, write32_self, write32_ne}
use chimera_sdk.Padframe.{
  Bitfield, Part, chip2pad, drv, pde, pue, rxe, slw, smt, trie, part_write, part_read, to_bool,
  of_bool, Pad, driver, padframe_gpio_base, gpio_pads, drv_field, bit_of,
}
use chimera_sdk.Padframe.Laws.{IsField, IsBitfield}

-- What a part holds of a byte that is written: two bits of drive strength, else zero or not.
abbrev pub held : Part → ℕ → ℕ
held drv value = value % 4
held p value = of_bool (to_bool value)

-- Two parts are the same when they have the same name, wherever their bits are.
abbrev pub same : Part → Part → Bool
same chip2pad chip2pad = true
same drv drv = true
same pde pde = true
same pue pue = true
same rxe rxe = true
same slw slw = true
same smt smt = true
same trie trie = true
same p q = false

-- No two parts start at the same bit.
same_lem : (p q : Part) → (bit_of p == bit_of q) ≡ same p q
same_lem p q = ground arith

drv-IsField : IsField drv_field 2
drv-IsField = record { is_mask = refl; in_word = omega arith }

-- No register of the second pad is one of the first.
abbrev pub IsApart : Pad → Pad → Type 0
IsApart a b = (b.cfg ≢ a.cfg) × (b.cfg ≢ a.mux_sel) × (b.mux_sel ≢ a.cfg) × (b.mux_sel ≢ a.mux_sel)

-- The pads' registers lie one behind the other.
abbrev pub IsLaidOut : ℕ → List Pad → Type 0
IsLaidOut n [] = Unit {0}
IsLaidOut n (p ∷ ps) = (p.cfg ≡ 4 + 8 * n) × (p.mux_sel ≡ 8 + 8 * n) × IsLaidOut (suc n) ps

pub gpio_pads-IsLaidOut : IsLaidOut 0 gpio_pads
gpio_pads-IsLaidOut = ground arith

laid_at :
    (n i : ℕ) (ps : List Pad) (p : Pad)
    → IsLaidOut n ps
    → get_elem? ps i ≡ some p
    → (p.cfg ≡ 4 + 8 * (n + i)) × (p.mux_sel ≡ 8 + 8 * (n + i))
laid_at n i [] p h at = absurd (cc at)
laid_at n zero (p' ∷ ps) p (c, m, rest) at =
    let e : p' ≡ p = cc at in
    let here : (p'.cfg ≡ 4 + 8 * (n + 0)) × (p'.mux_sel ≡ 8 + 8 * (n + 0)) =
      (omega (arith, c), omega (arith, m)) in
    rw e at here
laid_at n (suc i) (p' ∷ ps) p (c, m, rest) at =
    let (c', m') = laid_at (suc n) i ps p rest at in (omega (arith, c'), omega (arith, m'))

module _ (bits : Bitfield) (laws : IsBitfield bits) where
  bit-bit :
      (i j reg : ℕ) (b : Bool)
      → i < 32
      → j < 32
      → bits.bit32_read (bits.bit32_write reg i b) j ≡ (if i == j then b else bits.bit32_read reg j)
  bit-bit i j reg b hi hj = elim (ℕ_discrete i j) [
    | yes e ↦ rw (e, ==-self j) (laws.bit-bit_self reg j b hj)
    | no ne ↦ rw (==-ne i j ne) (laws.bit-bit_ne reg i j b hi hj ne)
  ]

  -- A part that is written into the configuration word reads back, the others keep their value.
  part_read-part_write :
      (p q : Part) (value reg : ℕ)
      → part_read bits q (part_write bits p value reg)
        ≡ (if same p q then held p value else part_read bits q reg)
  part_read-part_write drv drv value reg =
      ap u8 (laws.field-field_self reg 2 value drv_field drv-IsField) ∙ mod-eq_of_lt (omega arith)
  part_read-part_write drv q value reg =
      ap of_bool
        (laws.bit-field reg 2 value (bit_of q) drv_field drv-IsField (omega arith) (ground arith))
  part_read-part_write p drv value reg = ap u8 (
      laws.field-bit reg 2 (bit_of p) (to_bool value) drv_field drv-IsField (omega arith)
        (ground arith))
  part_read-part_write p q value reg =
      ap of_bool (bit-bit (bit_of p) (bit_of q) reg (to_bool value) (omega arith) (omega arith))

  -- On a pad whose two registers differ, a part that is set reads back and leaves the other parts
  -- and the multiplexer as they were.
  pub cfg_get-cfg_set :
      (pad : Pad) (p q : Part) (value : ℕ) (regs : Regs)
      → pad.cfg ≢ pad.mux_sel
      → ((driver bits pad).cfg_get q ((driver bits pad).cfg_set p value regs)
          ≡ (if same p q then held p value else (driver bits pad).cfg_get q regs))
        × ((driver bits pad).mux_get ((driver bits pad).cfg_set p value regs)
            ≡ (driver bits pad).mux_get regs)
  unfolding driver
  cfg_get-cfg_set pad p q value regs ne =
      let a = padframe_gpio_base + pad.cfg in
      (
        rw (write32_self a (part_write bits p value (regs a)) regs)
            (part_read-part_write p q value (regs a)),
        rw
            (write32_ne a (padframe_gpio_base + pad.mux_sel) (part_write bits p value (regs a)) regs
              (omega arith))
            refl,
      )

  -- A multiplexer selection reads back by its four low bits and leaves the configuration as it was.
  pub mux_get-mux_set :
      (pad : Pad) (q : Part) (sel : ℕ) (regs : Regs)
      → pad.cfg ≢ pad.mux_sel
      → ((driver bits pad).mux_get ((driver bits pad).mux_set sel regs) ≡ sel % 16)
        × ((driver bits pad).cfg_get q ((driver bits pad).mux_set sel regs)
            ≡ (driver bits pad).cfg_get q regs)
  unfolding driver
  mux_get-mux_set pad q sel regs ne =
      let a = padframe_gpio_base + pad.mux_sel in
      (
        rw
            (
              write32_self a (bit_and (u32 sel) 15) regs,
              bit_and_low 4 (u32 sel),
              bit_and_low 4 (u32 sel % 16),
            )
            (omega arith),
        rw (write32_ne a (padframe_gpio_base + pad.cfg) (bit_and (u32 sel) 15) regs (omega arith))
            refl,
      )

  -- Setting on one pad does not change what another reads, if their registers differ.
  frame :
      (a b : Pad) (p q : Part) (value sel : ℕ) (regs : Regs)
      → IsApart a b
      → let da = driver bits a in
        let db = driver bits b in
        (db.cfg_get q (da.mux_set sel (da.cfg_set p value regs)) ≡ db.cfg_get q regs)
        × (db.mux_get (da.mux_set sel (da.cfg_set p value regs)) ≡ db.mux_get regs)
  unfolding driver
  frame a b p q value sel regs (cc, cm, mc, mm) =
      let cfg_at = padframe_gpio_base + a.cfg in
      let mux_at = padframe_gpio_base + a.mux_sel in
      let v = part_write bits p value (regs cfg_at) in
      let other : (c : ℕ)
          → c ≢ a.cfg
          → c ≢ a.mux_sel
          → write32 mux_at (bit_and (u32 sel) 15) (write32 cfg_at v regs) (padframe_gpio_base + c)
            ≡ regs (padframe_gpio_base + c) =
        λ c n m.
          rw
            (write32_ne mux_at (padframe_gpio_base + c) (bit_and (u32 sel) 15)
              (write32 cfg_at v regs) (omega arith))
            (write32_ne cfg_at (padframe_gpio_base + c) v regs (omega arith)) in
      (rw (other b.cfg cc cm) refl, rw (other b.mux_sel mc mm) refl)

  -- What is set on one of the sixteen GPIO pads changes nothing that another of them reads.
  pub gpio_pads-independent :
      (i j : ℕ) (a b : Pad) (p q : Part) (value sel : ℕ) (regs : Regs)
      → i ≢ j
      → get_elem? gpio_pads i ≡ some a
      → get_elem? gpio_pads j ≡ some b
      → let da = driver bits a in
        let db = driver bits b in
        (db.cfg_get q (da.mux_set sel (da.cfg_set p value regs)) ≡ db.cfg_get q regs)
        × (db.mux_get (da.mux_set sel (da.cfg_set p value regs)) ≡ db.mux_get regs)
  gpio_pads-independent i j a b p q value sel regs ne at_i at_j =
      let (ac, am) = laid_at 0 i gpio_pads a gpio_pads-IsLaidOut at_i in
      let (bc, bm) = laid_at 0 j gpio_pads b gpio_pads-IsLaidOut at_j in
      frame a b p q value sel regs (
        omega (arith, ac, am, bc, bm),
        omega (arith, ac, am, bc, bm),
        omega (arith, ac, am, bc, bm),
        omega (arith, ac, am, bc, bm),
      )
