-- ===== src/Padframe/Laws.antt =====
-- What the pads' drivers rely on in `bitfield.h`: a part that is written reads back, and the parts
-- apart from it keep their value.
use chimera_sdk.Base.{ℕ, ◌+◌, ◌-◌, ◌%◌, ◌^◌, ◌≤◌, ◌<◌, ◌≡◌, ◌≢◌, ◌⊎◌, Bool}
use chimera_sdk.Padframe.{Field, Bitfield}

-- The field is `w` bits wide and lies in the word.
pub record IsField (f : Field) (w : ℕ) : Type 0 where
  pub is_mask : f.mask ≡ 2 ^ w - 1
  pub in_word : f.index + w ≤ 32

pub record IsBitfield (bits : Bitfield) : Type 0 where
  pub bit-bit_self :
      (reg i : ℕ) (b : Bool) → i < 32 → bits.bit32_read (bits.bit32_write reg i b) i ≡ b
  pub bit-bit_ne :
      (reg i j : ℕ) (b : Bool)
      → i < 32
      → j < 32
      → i ≢ j
      → bits.bit32_read (bits.bit32_write reg i b) j ≡ bits.bit32_read reg j
  pub field-field_self :
      (reg w v : ℕ) (f : Field)
      → IsField f w
      → bits.field32_read (bits.field32_write reg f v) f ≡ v % 2 ^ w
  pub field-field_ne :
      (reg w u v : ℕ) (f g : Field)
      → IsField f w
      → IsField g u
      → (f.index + w ≤ g.index) ⊎ (g.index + u ≤ f.index)
      → bits.field32_read (bits.field32_write reg f v) g ≡ bits.field32_read reg g
  pub bit-field :
      (reg w v j : ℕ) (f : Field)
      → IsField f w
      → j < 32
      → (f.index + w ≤ j) ⊎ (j < f.index)
      → bits.bit32_read (bits.field32_write reg f v) j ≡ bits.bit32_read reg j
  pub field-bit :
      (reg w i : ℕ) (b : Bool) (f : Field)
      → IsField f w
      → i < 32
      → (f.index + w ≤ i) ⊎ (i < f.index)
      → bits.field32_read (bits.bit32_write reg i b) f ≡ bits.field32_read reg f
