-- ===== src/Start/Dma.antt =====
-- What the start of a cluster relies on in the DMA of the Snitch library: independent transfers end
-- as if made one after the other.
use chimera_sdk.Base.{
  ℕ, ◌+◌, ◌-◌, ◌≤◌, ◌<◌, ◌≡◌, ◌⊎◌, ◌∙◌, refl, inl, inr, arith, true, false, Bool-cases, List, [],
  ◌∷◌, leb, ltb, ◌&&◌, ◌==◌,
}
use chimera_sdk.Trampoline.Tls.{copy}
use chimera_sdk.Start.{Transfer, start_1d}

-- Two ranges of bytes with no byte in common.
abbrev pub IsDisjoint : (a m b n : ℕ) → Type 0
IsDisjoint a m b n = (a + m ≤ b) ⊎ (b + n ≤ a)

-- Neither transfer writes what the other reads or writes.
pub record IsIndependent (t u : Transfer) : Type 0 where
  pub writes : IsDisjoint t.target t.size u.target u.size
  pub reads : IsDisjoint t.source t.size u.target u.size
  pub read_by : IsDisjoint t.target t.size u.source u.size

abbrev pub IsIndependentOf : Transfer → List Transfer → Type 0
IsIndependentOf t [] = Unit {0}
IsIndependentOf t (u ∷ us) = IsIndependent t u × IsIndependentOf t us

abbrev pub AreIndependent : List Transfer → Type 0
AreIndependent [] = Unit {0}
AreIndependent (t ∷ ts) = IsIndependentOf t ts × AreIndependent ts

-- The transfers one after the other, the first one last in the list.
unfoldable pub in_turn : List Transfer → (ℕ → ℕ) → ℕ → ℕ
in_turn [] mem = mem
in_turn (t ∷ ts) mem = copy t.target t.source t.size (in_turn ts mem)

-- The DMA's promise.
abbrev pub IsDma : (List Transfer → (ℕ → ℕ) → ℕ → ℕ) → Type 0
IsDma finish =
    (ts : List Transfer) (mem : ℕ → ℕ) (a : ℕ)
    → AreIndependent ts
    → finish ts mem a ≡ in_turn ts mem a

-- An empty transfer is not started, which makes no difference.
in_turn-start_1d :
    (t : Transfer) (ts : List Transfer) (mem : ℕ → ℕ) (a : ℕ)
    → in_turn (start_1d t ts) mem a ≡ copy t.target t.source t.size (in_turn ts mem) a
unfolding start_1d in_turn
in_turn-start_1d t ts mem a = elim (Bool-cases (t.size == 0)) [
  | inr some_bytes ↦ rw some_bytes refl
  | inl empty ↦
      let outside : (leb t.target a && ltb a (t.target + t.size)) ≡ false = ground arith in
      rw (empty, outside) refl
]

copy_same :
    (target source size : ℕ) (m n : ℕ → ℕ) (a : ℕ)
    → ((b : ℕ) → m b ≡ n b)
    → copy target source size m a ≡ copy target source size n a
copy_same target source size m n a same =
    elim (Bool-cases (leb target a && ltb a (target + size))) [
      | inl inside ↦ rw inside (same (source + (a - target)))
      | inr outside ↦ rw outside (same a)
    ]

-- Started behind transfers with the effect of `us`.
pub in_turn_started :
    (t : Transfer) (ts us : List Transfer) (mem : ℕ → ℕ) (a : ℕ)
    → ((b : ℕ) → in_turn ts mem b ≡ in_turn us mem b)
    → in_turn (start_1d t ts) mem a ≡ in_turn (t ∷ us) mem a
unfolding in_turn
in_turn_started t ts us mem a same =
    in_turn-start_1d t ts mem a
    ∙ copy_same t.target t.source t.size (in_turn ts mem) (in_turn us mem) a same

pub start_1d-AreIndependent :
    (t : Transfer) (ts : List Transfer)
    → IsIndependentOf t ts
    → AreIndependent ts
    → AreIndependent (start_1d t ts)
unfolding start_1d
start_1d-AreIndependent t ts off all = elim (Bool-cases (t.size == 0)) [
  | inr some_bytes ↦ rw some_bytes (off, all)
  | inl empty ↦ rw empty all
]

pub start_1d-IsIndependentOf :
    (t u : Transfer) (ts : List Transfer)
    → IsIndependent t u
    → IsIndependentOf t ts
    → IsIndependentOf t (start_1d u ts)
unfolding start_1d
start_1d-IsIndependentOf t u ts off all = elim (Bool-cases (u.size == 0)) [
  | inr some_bytes ↦ rw some_bytes (off, all)
  | inl empty ↦ rw empty all
]

pub copied :
    (t : Transfer) (mem : ℕ → ℕ) (i : ℕ)
    → i < t.size
    → copy t.target t.source t.size mem (t.target + i) ≡ mem (t.source + i)
copied t mem i lt =
    let at : t.source + (t.target + i - t.target) ≡ t.source + i = omega arith in
    let inside : (leb t.target (t.target + i) && ltb (t.target + i) (t.target + t.size)) ≡ true =
      ground arith in
    rw (inside, at) refl

-- A byte outside of the target.
pub kept :
    (t : Transfer) (mem : ℕ → ℕ) (a : ℕ)
    → (a < t.target) ⊎ (t.target + t.size ≤ a)
    → copy t.target t.source t.size mem a ≡ mem a
kept t mem a out =
    let outside : (leb t.target a && ltb a (t.target + t.size)) ≡ false = ground arith in
    rw outside refl

pub IsDisjoint-out : (a m b n i : ℕ) → IsDisjoint a m b n → i < m → (a + i < b) ⊎ (b + n ≤ a + i)
IsDisjoint-out a m b n i apart lt = elim apart [
  | inl before ↦ inl (omega arith)
  | inr after ↦ inr (omega arith)
]

pub IsDisjoint-sym : (a m b n : ℕ) → IsDisjoint a m b n → IsDisjoint b n a m
IsDisjoint-sym a m b n apart = elim apart [ inl before ↦ inr before | inr after ↦ inl after ]
