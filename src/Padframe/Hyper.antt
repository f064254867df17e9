-- ===== src/Padframe/Hyper.antt =====
-- The drive strengths of the HyperBus pads, fields of one register.
use native.Mathlib.Decide.{ℕ_discrete}
use native.Mathlib.Nat.{mod-eq_of_lt}
use chimera_sdk.Base.{
  ==-ne, ==-eq, ◌==◌, if◌then◌else◌, length, ℕ, zero, suc, ◌+◌, ◌-◌, ◌*◌, ◌%◌, ◌^◌, ◌≤◌, ◌<◌, ◌≡◌,
  inl, inr, ap, arith, List, [], ◌∷◌, some, get_elem?, Bool-cases, u8,
}
use chimera_sdk.Mmio.{Regs, write32_self}
use chimera_sdk.Padframe.{Field, Bitfield, drv_strength_addr, hyper_fields, drv_set, drv_get}
use chimera_sdk.Padframe.Laws.{IsField, IsBitfield}

-- The width of the field at place `n`: the last one is the reserved nibble.
abbrev pub width_at : ℕ → ℕ
width_at n = if n == 14 then 4 else 2

abbrev pub IsPacked : ℕ → List Field → Type 0
IsPacked n [] = Unit {0}
IsPacked n (f ∷ fs) =
    (f.mask ≡ 2 ^ width_at n - 1)
    × (f.index ≡ 2 * n)
    × (2 * n + width_at n ≤ 32)
    × IsPacked (suc n) fs

hyper_fields-IsPacked : IsPacked 0 hyper_fields
hyper_fields-IsPacked = ground arith

packed_at :
    (n i : ℕ) (fs : List Field) (f : Field)
    → IsPacked n fs
    → get_elem? fs i ≡ some f
    → IsField f (width_at (n + i)) × (f.index ≡ 2 * (n + i))
packed_at n i [] f h at = absurd (cc at)
packed_at n zero (f' ∷ fs) f (m, x, fit, rest) at =
    let e : f' ≡ f = cc at in
    let z : n + 0 ≡ n = omega arith in
    let here : IsField f' (width_at (n + 0)) × (f'.index ≡ 2 * (n + 0)) =
      rw z (record { is_mask = m; in_word = omega (arith, x, fit) }, x) in
    rw e at here
packed_at n (suc i) (f' ∷ fs) f (m, x, fit, rest) at =
    let z : n + suc i ≡ suc n + i = omega arith in rw z (packed_at (suc n) i fs f rest at)

hyper_at :
    (i : ℕ) (f : Field)
    → get_elem? hyper_fields i ≡ some f
    → IsField f (width_at i) × (f.index ≡ 2 * i)
hyper_at i f at =
    let z : 0 + i ≡ i = omega arith in
    rw z at (packed_at 0 i hyper_fields f hyper_fields-IsPacked at)

below_last : (n : ℕ) (fs : List Field) (i : ℕ) (f : Field) → get_elem? fs i ≡ some f → i < length fs
below_last n [] i f at = absurd (cc at)
below_last n (g ∷ fs) zero f at = omega arith
below_last n (g ∷ fs) (suc i) f at = omega (arith, below_last n fs i f at)

module _ (bits : Bitfield) (laws : IsBitfield bits) where
  -- A drive strength that is set reads back by the field's bits, and those of the other pads stay.
  pub drv_get-drv_set :
      (i j : ℕ) (f g : Field) (value : ℕ) (regs : Regs)
      → get_elem? hyper_fields i ≡ some f
      → get_elem? hyper_fields j ≡ some g
      → drv_get bits g (drv_set bits f value regs)
        ≡ (if i == j then value % 2 ^ width_at i else drv_get bits g regs)
  unfolding drv_set drv_get
  drv_get-drv_set i j f g value regs at_i at_j =
      let (is_f, f_at) = hyper_at i f at_i in
      let (is_g, g_at) = hyper_at j g at_j in
      let i_lt : i < 15 = below_last 0 hyper_fields i f at_i in
      let j_lt : j < 15 = below_last 0 hyper_fields j g at_j in
      rw (write32_self drv_strength_addr (bits.field32_write (regs drv_strength_addr) f value) regs)
        (elim (ℕ_discrete i j) [
          | yes e ↦
              let is_same : g ≡ f = cc (at_i, at_j, e) in
              let narrow : value % 2 ^ width_at i < 2 ^ 8 = elim (Bool-cases (i == 14)) [
                | inl h ↦ rw h (omega arith)
                | inr h ↦ rw h (omega arith)
              ] in
              rw
                (
                  is_same,
                  ==-eq i j e,
                  laws.field-field_self (regs drv_strength_addr) (width_at i) value f is_f,
                )
                (mod-eq_of_lt narrow)
          | no ne ↦ rw (==-ne i j ne) (
              ap u8 (
                laws.field-field_ne (regs drv_strength_addr) (width_at i) (width_at j) value f g
                  is_f is_g (ground (arith, f_at, g_at))))
        ])
