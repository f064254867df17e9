-- ===== src/Padframe/Digits.antt =====
-- Bit fields by digits of base two: a concrete `Bitfield` for which the laws hold.
use native.Mathlib.Nat.{
  pow-suc, one-le-pow, mod-lt, div-add-mod', mul-add-mod_self_right, mod-eq_of_lt,
}
use chimera_sdk.Base.{
  ℕ, zero, suc, ◌+◌, ◌-◌, ◌*◌, ◌/◌, ◌%◌, ◌^◌, ◌≤◌, ◌<◌, ◌≡◌, ◌⊎◌, ◌∙◌, inl, inr, refl, sym, ap,
  arith, false, ◌==◌, if◌then◌else◌, Bool-cases,
}
use chimera_sdk.Padframe.{Field, Bitfield, of_bool}
use chimera_sdk.Padframe.Laws.{IsField, IsBitfield}

-- The `k` digits from digit `i` on, written and read.
put : ℕ → ℕ → ℕ → ℕ → ℕ
put zero zero w v = w
put zero (suc k) w v = put zero k (w / 2) (v / 2) * 2 + v % 2
put (suc i) k w v = put i k (w / 2) v * 2 + w % 2

get : ℕ → ℕ → ℕ → ℕ
get zero zero w = 0
get zero (suc k) w = get zero k (w / 2) * 2 + w % 2
get (suc i) k w = get i k (w / 2)

upper : (n d : ℕ) → d < 2 → (n * 2 + d) / 2 ≡ n
upper n d h = omega arith

lower : (n d : ℕ) → d < 2 → (n * 2 + d) % 2 ≡ d
lower n d h = omega arith

get-put_self : (i k w v : ℕ) → get i k (put i k w v) ≡ get 0 k v
unfolding put get
get-put_self zero zero w v = refl
get-put_self zero (suc k) w v =
    rw
      (
        upper (put zero k (w / 2) (v / 2)) (v % 2) (omega arith),
        lower (put zero k (w / 2) (v / 2)) (v % 2) (omega arith),
        get-put_self zero k (w / 2) (v / 2),
      )
      refl
get-put_self (suc i) k w v =
    rw (upper (put i k (w / 2) v) (w % 2) (omega arith)) (get-put_self i k (w / 2) v)

get-put_above : (i k j l w v : ℕ) → i + k ≤ j → get j l (put i k w v) ≡ get j l w
unfolding put get
get-put_above zero zero j l w v h = refl
get-put_above zero (suc k) zero l w v h = absurd (omega arith)
get-put_above zero (suc k) (suc j) l w v h =
    rw (upper (put zero k (w / 2) (v / 2)) (v % 2) (omega arith))
      (get-put_above zero k j l (w / 2) (v / 2) (omega arith))
get-put_above (suc i) k zero l w v h = absurd (omega arith)
get-put_above (suc i) k (suc j) l w v h =
    rw (upper (put i k (w / 2) v) (w % 2) (omega arith))
      (get-put_above i k j l (w / 2) v (omega arith))

get-put_below : (i k j l w v : ℕ) → j + l ≤ i → get j l (put i k w v) ≡ get j l w
unfolding put get
get-put_below i k zero zero w v h = refl
get-put_below zero k zero (suc l) w v h = absurd (omega arith)
get-put_below (suc i) k zero (suc l) w v h =
    rw
      (
        upper (put i k (w / 2) v) (w % 2) (omega arith),
        lower (put i k (w / 2) v) (w % 2) (omega arith),
        get-put_below i k zero l (w / 2) v (omega arith),
      )
      refl
get-put_below zero k (suc j) l w v h = absurd (omega arith)
get-put_below (suc i) k (suc j) l w v h =
    rw (upper (put i k (w / 2) v) (w % 2) (omega arith))
      (get-put_below i k j l (w / 2) v (omega arith))

get-put_apart : (i k j l w v : ℕ) → (i + k ≤ j) ⊎ (j + l ≤ i) → get j l (put i k w v) ≡ get j l w
get-put_apart i k j l w v (inl h) = get-put_above i k j l w v h
get-put_apart i k j l w v (inr h) = get-put_below i k j l w v h

split_mod : (h p v : ℕ) → h ≡ v / 2 → 0 < p → h % p * 2 + v % 2 ≡ v % (2 * p)
split_mod h p v is_h pos =
    let r_lt : h % p < p = mod-lt h pos in
    let cut : v ≡ h / p * (2 * p) + (h % p * 2 + v % 2) = omega (arith, div-add-mod' h p) in
    sym (
      ap (λ (n : ℕ). n % (2 * p)) cut
      ∙ mul-add-mod_self_right (h / p) (2 * p) (h % p * 2 + v % 2)
      ∙ mod-eq_of_lt (omega arith))

get_low : (k v : ℕ) → get 0 k v ≡ v % 2 ^ k
unfolding get
get_low zero v = omega arith
get_low (suc k) v =
    let s : 2 ^ suc k ≡ 2 * 2 ^ k = omega (arith, pow-suc 2 k) in
    rw (get_low k (v / 2), s)
      (split_mod (v / 2) (2 ^ k) v (omega arith) (one-le-pow k 2 (omega arith)))

-- The width of a mask.
width : ℕ → ℕ → ℕ
width zero m = 0
width (suc n) m = if m == 0 then 0 else suc (width n (m / 2))

width_lem : (n w : ℕ) → w ≤ n → width n (2 ^ w - 1) ≡ w
unfolding width
width_lem zero zero h = refl
width_lem zero (suc w) h = absurd (omega arith)
width_lem (suc n) zero h = refl
width_lem (suc n) (suc w) h =
    let pos : 1 ≤ 2 ^ w = one-le-pow w 2 (omega arith) in
    let half : (2 ^ suc w - 1) / 2 ≡ 2 ^ w - 1 = omega (arith, pow-suc 2 w) in
    let ne : (2 ^ suc w - 1 == 0) ≡ false = ground (arith, pow-suc 2 w) in
    rw (ne, half, width_lem n w (omega arith)) refl

pub digits : Bitfield
digits = record {
  bit32_write = λ reg i b. put i 1 reg (of_bool b);
  bit32_read = λ reg i. get i 1 reg == 1;
  field32_write = λ reg f v. put f.index (width 32 f.mask) reg v;
  field32_read = λ reg f. get f.index (width 32 f.mask) reg;
}

width_of : (f : Field) (w : ℕ) → IsField f w → width 32 f.mask ≡ w
width_of f w h = rw h.is_mask (width_lem 32 w (omega (arith, h.in_word)))

pub digits-IsBitfield : IsBitfield digits
unfolding digits
digits-IsBitfield = record {
  bit-bit_self = λ reg i b h.
      rw (get-put_self i 1 reg (of_bool b), get_low 1 (of_bool b))
        (elim (Bool-cases b) [ inl e ↦ rw e refl | inr e ↦ rw e refl ]);
  bit-bit_ne = λ reg i j b hi hj ne. rw (get-put_apart i 1 j 1 reg (of_bool b) (ground arith)) refl;
  field-field_self = λ reg w v f h. rw (width_of f w h, get-put_self f.index w reg v) (get_low w v);
  field-field_ne = λ reg w u v f g hf hg apart.
      rw (width_of f w hf, width_of g u hg) (get-put_apart f.index w g.index u reg v apart);
  bit-field = λ reg w v j f hf hj apart.
      rw (width_of f w hf, get-put_apart f.index w j 1 reg v (ground arith)) refl;
  field-bit = λ reg w i b f hf hi apart.
      rw (width_of f w hf) (get-put_apart i 1 f.index w reg (of_bool b) (ground arith));
}
