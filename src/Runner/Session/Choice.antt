-- ===== src/Runner/Session/Choice.antt =====
-- The choices of a turn of `test_cluster` by its mode, and the repetitions that it stores.
use native.Mathlib.Decide.{ℕ_discrete}
use native.Mathlib.Nat.{add-zero}
use chimera_sdk.Base.{
  zero, suc, ◌+◌, ◌*◌, ◌≤◌, ◌<◌, arith, none, Bool-cases, ltb, ℕ, ◌≡◌, ◌≢◌, ◌⊎◌, refl, inl, inr,
  Option, some,
}
use chimera_sdk.Offload.{put_at}
use chimera_sdk.Runner.{
  Mode, automatic, dutctl, interactive, choose_freq, skip, out_of_range, configure, plan,
}
use chimera_sdk.Runner.Session.{Entry, choose_repetitions, set_repetitions}

-- The repetitions and the target frequency of a turn: the default without a console in the automatic
-- mode, a scratch register under dutctl, and the number on the input line in the interactive mode.
abbrev pub IsRepetitions : Mode → (default : ℕ) → Entry → ℕ → Type 0
IsRepetitions automatic default e n = n ≡ default
IsRepetitions dutctl default e n = n ≡ e.scratch_1
IsRepetitions interactive default e n = e.repetitions_line ≡ some n

abbrev pub IsTarget : Mode → (default : ℕ) → Entry → ℕ → Type 0
IsTarget automatic default e mhz = mhz ≡ default
IsTarget dutctl default e mhz = mhz ≡ e.scratch_3
IsTarget interactive default e mhz = e.frequency_line ≡ some mhz

-- A line that the interactive mode waits for does not come.
abbrev pub HasNone : Mode → Option ℕ → Type 0
HasNone mode line = (mode ≡ interactive) × (line ≡ none)

pub choose_repetitions-IsRepetitions :
    (mode : Mode) (default : ℕ) (e : Entry) (n : ℕ)
    → choose_repetitions mode default e ≡ some n
    → IsRepetitions mode default e n
choose_repetitions-IsRepetitions automatic default e n is = cc is
choose_repetitions-IsRepetitions dutctl default e n is = cc is
choose_repetitions-IsRepetitions interactive default e n is = is

pub choose_repetitions-HasNone :
    (mode : Mode) (default : ℕ) (e : Entry)
    → choose_repetitions mode default e ≡ none
    → HasNone mode e.repetitions_line
choose_repetitions-HasNone automatic default e is = cc is
choose_repetitions-HasNone dutctl default e is = cc is
choose_repetitions-HasNone interactive default e is = (refl, is)

pub choose_freq-IsTarget :
    (mode : Mode) (default : ℕ) (e : Entry) (mhz : ℕ)
    → choose_freq mode default e.scratch_3 e.frequency_line ≡ some mhz
    → IsTarget mode default e mhz
choose_freq-IsTarget automatic default e mhz is = cc is
choose_freq-IsTarget dutctl default e mhz is = cc is
choose_freq-IsTarget interactive default e mhz is = is

pub choose_freq-HasNone :
    (mode : Mode) (default : ℕ) (e : Entry)
    → choose_freq mode default e.scratch_3 e.frequency_line ≡ none
    → HasNone mode e.frequency_line
choose_freq-HasNone automatic default e is = cc is
choose_freq-HasNone dutctl default e is = cc is
choose_freq-HasNone interactive default e is = (refl, is)

set_repetitions_kept :
    (count id : ℕ) (args : ℕ → ℕ) (n : ℕ) (store : ℕ → ℕ) (a : ℕ)
    → store a ≡ n
    → set_repetitions count id args n store a ≡ n
unfolding set_repetitions
set_repetitions_kept zero id args n store a e = e
set_repetitions_kept (suc count) id args n store a e =
    set_repetitions_kept count (suc id) args n (put_at store (args id) n) a (ground (arith, e))

pub set_repetitions_lem :
    (count id : ℕ) (args : ℕ → ℕ) (n : ℕ) (store : ℕ → ℕ) (i : ℕ)
    → i < count
    → set_repetitions count id args n store (args (id + i)) ≡ n
unfolding set_repetitions
set_repetitions_lem zero id args n store i lt = absurd (omega (arith, lt))
set_repetitions_lem (suc count) id args n store zero lt =
    set_repetitions_kept count (suc id) args n (put_at store (args id) n) (args (id + 0))
      (rw add-zero (ground arith))
set_repetitions_lem (suc count) id args n store (suc i) lt =
    let next : suc id + i ≡ id + suc i = omega arith in
    rw next at
      (set_repetitions_lem count (suc id) args n (put_at store (args id) n) i (omega (arith, lt)))

-- The three uses of the target frequency.
pub target-cases :
    (mhz : ℕ)
    → ((mhz ≡ 0xFFFFFFFF) × (plan mhz ≡ skip))
      ⊎ (((mhz ≢ 0xFFFFFFFF) × ((mhz < 10) ⊎ (1000 < mhz)) × (plan mhz ≡ out_of_range))
          ⊎ ((10 ≤ mhz) × (mhz ≤ 1000) × (plan mhz ≡ configure (mhz * 1000000))))
target-cases mhz = elim (ℕ_discrete mhz 0xFFFFFFFF) [
  | yes e ↦ inl (e, ground (arith, e))
  | no ne ↦ elim (Bool-cases (ltb mhz 10)) [
    | inl low ↦
        let lt : mhz < 10 = ground (arith, low) in inr (inl (ne, inl lt, ground (arith, ne, lt)))
    | inr ten ↦ elim (Bool-cases (ltb 1000 mhz)) [
      | inl high ↦
          let gt : 1000 < mhz = ground (arith, high) in
          inr (inl (ne, inr gt, ground (arith, ne, gt)))
      | inr thousand ↦
          let above : 10 ≤ mhz = ground (arith, ten) in
          let below : mhz ≤ 1000 = ground (arith, thousand) in
          inr (inr (above, below, ground (arith, ne, above, below)))
    ]
  ]
]
