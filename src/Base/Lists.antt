-- ===== src/Base/Lists.antt =====
-- Lists measured and indexed by native numbers, and lists of numbers read as sets.
use Prim.Native.Nat.{ℕ, zero, suc}
use mathlib.Core.Path.{◌≡◌, refl}
use mathlib.Core.Logic.{◌≢◌}
use mathlib.Core.Bool.{Bool, false, ◌||◌}
use mathlib.Core.List.{List, [], ◌∷◌}
use mathlib.Core.Option.{Option, none, some}
use native.Mathlib.Omega.{arith}
use chimera_sdk.Base.Tests.{◌==◌, if◌then◌else◌}

module _ {ℓ} {A : Type ℓ} where
  abbrev pub length : List A → ℕ
  length [] = 0
  length (x ∷ xs) = suc (length xs)

  abbrev pub get_elem? : List A → ℕ → Option A
  get_elem? [] i = none
  get_elem? (x ∷ xs) zero = some x
  get_elem? (x ∷ xs) (suc i) = get_elem? xs i

-- Is `a` an element of `xs`?
abbrev pub has : ℕ → List ℕ → Bool
has a [] = false
has a (x ∷ xs) = (a == x) || has a xs

-- The first occurrence of `a` is taken out.
abbrev pub remove : ℕ → List ℕ → List ℕ
remove a [] = []
remove a (x ∷ xs) = if a == x then xs else x ∷ remove a xs

-- No element occurs twice.
abbrev pub IsDistinct : List ℕ → Type 0
IsDistinct [] = Unit {0}
IsDistinct (x ∷ xs) = (has x xs ≡ false) × IsDistinct xs

pub has-remove_ne : (a b : ℕ) (xs : List ℕ) → a ≢ b → has a (remove b xs) ≡ has a xs
has-remove_ne a b [] ne = refl
has-remove_ne a b (x ∷ xs) ne = ground (arith, has-remove_ne a b xs ne)

pub has-remove_self : (a : ℕ) (xs : List ℕ) → IsDistinct xs → has a (remove a xs) ≡ false
has-remove_self a [] d = refl
has-remove_self a (x ∷ xs) d = ground (arith, has-remove_self a xs d.1)

pub not-has-remove : (a b : ℕ) (xs : List ℕ) → has a xs ≡ false → has a (remove b xs) ≡ false
not-has-remove a b [] h = refl
not-has-remove a b (x ∷ xs) h = ground (arith, not-has-remove a b xs)

pub remove-IsDistinct : (a : ℕ) (xs : List ℕ) → IsDistinct xs → IsDistinct (remove a xs)
remove-IsDistinct a [] d = tt
remove-IsDistinct a (x ∷ xs) d =
    ground (arith, not-has-remove x a xs d.0, remove-IsDistinct a xs d.1)
