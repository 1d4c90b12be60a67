-- ===== src/Base/Assoc.antt =====
-- std::unordered_map with integer keys as an association list: `find`, `m[k] = v` and `erase`. The
-- order of the list stands for the order of iteration, which C++ leaves open.
use Prim.Native.Nat.{ℕ}
use mathlib.Core.Path.{◌≡◌, refl, ap}
use mathlib.Core.Logic.{inl, inr}
use mathlib.Core.List.{List, [], ◌∷◌}
use mathlib.Core.Option.{Option, none, some}
use native.Mathlib.Omega.{arith}
use gs_dbengine.Base.Tests.{◌==◌, ==_refl, Bool-cases, if◌then◌else◌}
use gs_dbengine.Base.Lists.{All}

module _ {ℓ} {V : Type ℓ} where
  unfoldable pub find : ℕ → List (ℕ × V) → Option V
  find k [] = none
  find k ((j, v) ∷ m) = if j == k then some v else find k m

  unfoldable pub insert : ℕ → V → List (ℕ × V) → List (ℕ × V)
  insert k v [] = (k, v) ∷ []
  insert k v ((j, w) ∷ m) = if j == k then (k, v) ∷ m else (j, w) ∷ insert k v m

  unfoldable pub erase : ℕ → List (ℕ × V) → List (ℕ × V)
  erase k [] = []
  erase k ((j, w) ∷ m) = let rest = erase k m in if j == k then rest else (j, w) ∷ rest

  -- Each key stands once.
  abbrev pub Distinct : List (ℕ × V) → Type ℓ
  Distinct [] = Unit {ℓ}
  Distinct ((k, _) ∷ m) = (find k m ≡ none) × Distinct m

  pub find-insert :
      (k : ℕ) (v : V) (j : ℕ) (m : List (ℕ × V))
      → find j (insert k v m) ≡ (if k == j then some v else find j m)
  unfolding find insert
  find-insert k v j [] = refl
  find-insert k v j ((i, w) ∷ m) = ground (arith, find-insert k v j m)

  pub find-erase :
      (k j : ℕ) (m : List (ℕ × V)) → find j (erase k m) ≡ (if k == j then none else find j m)
  unfolding find erase
  find-erase k j [] = ground arith
  find-erase k j ((i, w) ∷ m) = ground (arith, find-erase k j m)

  pub Distinct-insert : (k : ℕ) (v : V) (m : List (ℕ × V)) → Distinct m → Distinct (insert k v m)
  unfolding insert
  Distinct-insert k v [] h = (unfold find in refl, tt)
  Distinct-insert k v ((i, w) ∷ m) h = elim (Bool-cases (i == k)) [
    | inl e ↦ rw e (ground (arith, h.0), h.1)
    | inr e ↦ rw e (ground (arith, find-insert k v i m), Distinct-insert k v m h.1)
  ]

  pub Distinct-erase : (k : ℕ) (m : List (ℕ × V)) → Distinct m → Distinct (erase k m)
  unfolding erase
  Distinct-erase k [] h = tt
  Distinct-erase k ((i, w) ∷ m) h = elim (Bool-cases (i == k)) [
    | inl e ↦ rw e (Distinct-erase k m h.1)
    | inr e ↦ rw e (ground (arith, find-erase k i m), Distinct-erase k m h.1)
  ]

  -- Every entry is the one that `find` finds.
  abbrev pub AllFound : List (ℕ × V) → List (ℕ × V) → Type ℓ
  AllFound m = All (λ (e : ℕ × V). find e.0 m ≡ some e.1)

  AllFound-cons :
      (k : ℕ) (v : V) (m entries : List (ℕ × V))
      → find k m ≡ none
      → AllFound m entries
      → AllFound ((k, v) ∷ m) entries
  AllFound-cons k v m [] h a = tt
  AllFound-cons k v m ((i, w) ∷ entries) h a = (
    unfold find in
        elim (Bool-cases (k == i)) [
          | inl e ↦ cc (a.0, h, ap (λ (n : ℕ). find n m) {x = k} {y = i} (ground arith))
          | inr e ↦ rw e a.0
        ],
    AllFound-cons k v m entries h a.1,
  )

  pub Distinct-AllFound : (m : List (ℕ × V)) → Distinct m → AllFound m m
  Distinct-AllFound [] h = tt
  Distinct-AllFound ((k, v) ∷ m) h =
      (unfold find in rw (==_refl k), AllFound-cons k v m m h.0 (Distinct-AllFound m h.1))
