-- ===== src/Runner/Supervise.antt =====
-- The supervision loop ends, and its verdict is right.
use native.Mathlib.Nat.{add-zero}
use native.Mathlib.Decide.{ℕ_discrete}
use chimera_sdk.Base.{
  ℕ, zero, suc, ◌+◌, ◌≤◌, ◌<◌, ◌≡◌, ◌≢◌, ◌∙◌, refl, arith, Bool, true, false, Bool-cases, inl, inr,
  some, ==-eq, ==-ne,
}
use chimera_sdk.Clint.{Mtime, less_than}
use chimera_sdk.Runner.{Turn, count_done, supervise}

-- A verdict of the rounds from `k` on: the limit passed in a round, or all clusters were found done in
-- a round before which it had not.
abbrev pub IsVerdict : ℕ → Mtime → Turn → ℕ → Bool → Type 0
IsVerdict clusters limit t k true = (i : ℕ) × (k ≤ i) × (less_than limit (t.now i) ≡ true)
IsVerdict clusters limit t k false =
    (i : ℕ) × (k ≤ i)
    × (count_done (t.busy i) clusters ≡ clusters)
    × (less_than limit (t.now i) ≡ false)

supervise_round :
    (fuel clusters : ℕ) (limit : Mtime) (t : Turn) (k done : ℕ)
    → done ≢ clusters
    → less_than limit (t.now k) ≡ false
    → supervise (suc fuel) clusters limit t k done
      ≡ supervise fuel clusters limit t (suc k) (count_done (t.busy k) clusters)
unfolding supervise
supervise_round fuel clusters limit t k done ne early =
    rw (==-ne done clusters ne, early, supervise) refl

supervise_late :
    (fuel clusters : ℕ) (limit : Mtime) (t : Turn) (k done : ℕ)
    → done ≢ clusters
    → less_than limit (t.now k) ≡ true
    → supervise (suc fuel) clusters limit t k done ≡ some true
unfolding supervise
supervise_late fuel clusters limit t k done ne late =
    rw (==-ne done clusters ne, late, supervise) refl

supervise_all :
    (fuel clusters : ℕ) (limit : Mtime) (t : Turn) (k done : ℕ)
    → done ≡ clusters
    → supervise (suc fuel) clusters limit t k done ≡ some false
unfolding supervise
supervise_all fuel clusters limit t k done e = rw (==-eq done clusters e, supervise) refl

later-IsVerdict :
    (clusters : ℕ) (limit : Mtime) (t : Turn) (k : ℕ) (b : Bool)
    → IsVerdict clusters limit t (suc k) b
    → IsVerdict clusters limit t k b
later-IsVerdict clusters limit t k true (i, le, late) = (i, omega (arith, le), late)
later-IsVerdict clusters limit t k false (i, le, done, early) = (i, omega (arith, le), done, early)

-- For a loop that enters round `k` without all clusters done: if the time limit has passed in
-- round `k + late`, the loop ends within `late + 2` rounds. Its verdict is that of a round: that
-- the limit had passed in it, or that all clusters were found done in it and the limit had not
-- passed.
pub supervise-ends :
    (late clusters : ℕ) (limit : Mtime) (t : Turn) (k done : ℕ)
    → done ≢ clusters
    → less_than limit (t.now (k + late)) ≡ true
    → (b : Bool) × (supervise (suc (suc late)) clusters limit t k done ≡ some b)
      × IsVerdict clusters limit t k b
supervise-ends zero clusters limit t k done ne passed =
    let now : less_than limit (t.now k) ≡ true = rw add-zero at passed in
    (true, supervise_late 1 clusters limit t k done ne now, (k, omega arith, now))
supervise-ends (suc late) clusters limit t k done ne passed =
    elim (Bool-cases (less_than limit (t.now k))) [
      | inl now ↦ (
        true,
        supervise_late (suc (suc late)) clusters limit t k done ne now,
        (k, omega arith, now),
      )
      | inr early ↦
          let next = supervise_round (suc (suc late)) clusters limit t k done ne early in
          elim (ℕ_discrete (count_done (t.busy k) clusters) clusters) [
            | yes all ↦ (
              false,
              next
                  ∙ supervise_all (suc late) clusters limit t (suc k)
                      (count_done (t.busy k) clusters) all,
              (k, omega arith, all, early),
            )
            | no some_busy ↦
                let shift : k + suc late ≡ suc k + late = omega arith in
                let (b, ends, right) =
                  supervise-ends late clusters limit t (suc k) (count_done (t.busy k) clusters)
                    some_busy (rw shift at passed) in
                (b, next ∙ ends, later-IsVerdict clusters limit t k b right)
          ]
    ]

-- If all clusters are found done in round `k + quick`, and the limit has not passed in that round or
-- before it, the loop ends with the verdict that they were in time.
pub supervise-in_time :
    (quick clusters : ℕ) (limit : Mtime) (t : Turn) (k done : ℕ)
    → count_done (t.busy (k + quick)) clusters ≡ clusters
    → ((i : ℕ) → i ≤ quick → less_than limit (t.now (k + i)) ≡ false)
    → supervise (suc (suc quick)) clusters limit t k done ≡ some false
supervise-in_time zero clusters limit t k done all early = elim (ℕ_discrete done clusters) [
  | yes e ↦ supervise_all 1 clusters limit t k done e
  | no ne ↦
      let now : less_than limit (t.now k) ≡ false = rw add-zero at (early 0 (omega arith)) in
      let here : count_done (t.busy k) clusters ≡ clusters = rw add-zero at all in
      supervise_round 1 clusters limit t k done ne now
      ∙ supervise_all 0 clusters limit t (suc k) (count_done (t.busy k) clusters) here
]
supervise-in_time (suc quick) clusters limit t k done all early = elim (ℕ_discrete done clusters) [
  | yes e ↦ supervise_all (suc (suc quick)) clusters limit t k done e
  | no ne ↦
      let shift : (i : ℕ) → k + suc i ≡ suc k + i = λ i. omega arith in
      let now : less_than limit (t.now k) ≡ false = rw add-zero at (early 0 (omega arith)) in
      supervise_round (suc (suc quick)) clusters limit t k done ne now
      ∙ supervise-in_time quick clusters limit t (suc k) (count_done (t.busy k) clusters)
          (rw (shift quick) at all) (λ i le. rw (shift i) at (early (suc i) (omega (arith, le))))
]

-- If the limit has passed in round `k + late`, and in no round before it had it passed or were all
-- clusters found done, the loop ends with the verdict that they were too late.
pub supervise-too_late :
    (late clusters : ℕ) (limit : Mtime) (t : Turn) (k done : ℕ)
    → done ≢ clusters
    → less_than limit (t.now (k + late)) ≡ true
    → ((i : ℕ) → i < late → less_than limit (t.now (k + i)) ≡ false)
    → ((i : ℕ) → i < late → count_done (t.busy (k + i)) clusters ≢ clusters)
    → supervise (suc late) clusters limit t k done ≡ some true
supervise-too_late zero clusters limit t k done ne passed early busy =
    let now : less_than limit (t.now k) ≡ true = rw add-zero at passed in
    supervise_late 0 clusters limit t k done ne now
supervise-too_late (suc late) clusters limit t k done ne passed early busy =
    let shift : (i : ℕ) → k + suc i ≡ suc k + i = λ i. omega arith in
    let now : less_than limit (t.now k) ≡ false = rw add-zero at (early 0 (omega arith)) in
    let some_busy : count_done (t.busy k) clusters ≢ clusters =
      rw add-zero at (busy 0 (omega arith)) in
    supervise_round (suc late) clusters limit t k done ne now
    ∙ supervise-too_late late clusters limit t (suc k) (count_done (t.busy k) clusters) some_busy
        (rw (shift late) at passed) (λ i lt. rw (shift i) at (early (suc i) (omega (arith, lt))))
        (λ i lt. rw (shift i) at (busy (suc i) (omega (arith, lt))))
