-- ===== src/Base/Maps.antt =====
-- The standard maps from 64-bit keys, as association lists: `emplace` inserts only where the key is
-- absent, so that a key stands at most once.
use Prim.Native.Nat.{ℕ, suc, ◌≤◌}
use mathlib.Core.Path.{◌≡◌, refl}
use mathlib.Core.Logic.{◌≢◌}
use mathlib.Core.Bool.{Bool, true, false}
use mathlib.Core.Option.{Option, none, some}
use mathlib.Core.List.{List, [], ◌∷◌}
use native.Mathlib.Omega.{arith}
use pulse_core.Base.Tests.{◌==◌, if◌then◌else◌}
use pulse_core.Base.Lists.{length}

module _ {ℓ} {V : Type ℓ} where
  unfoldable pub find : ℕ → List (ℕ × V) → Option V
  find k [] = none
  find k ((j, v) ∷ m) = if j == k then some v else find k m

  unfoldable pub contains : ℕ → List (ℕ × V) → Bool
  contains k [] = false
  contains k ((j, v) ∷ m) = if j == k then true else contains k m

  unfoldable pub emplace : ℕ → V → List (ℕ × V) → List (ℕ × V)
  unfolding contains
  emplace k v m = if contains k m then m else (k, v) ∷ m

  unfoldable pub erase : ℕ → List (ℕ × V) → List (ℕ × V)
  erase k [] = []
  erase k ((j, v) ∷ m) = if j == k then erase k m else (j, v) ∷ erase k m

  -- A write through a reference to the value at a key.
  unfoldable pub assign : ℕ → V → List (ℕ × V) → List (ℕ × V)
  assign k v [] = []
  assign k v ((j, w) ∷ m) = if j == k then (k, v) ∷ assign k v m else (j, w) ∷ assign k v m

  pub contains-find : (k : ℕ) (m : List (ℕ × V)) → contains k m ≡ false → find k m ≡ none
  unfolding find contains
  contains-find k [] h = refl
  contains-find k ((j, v) ∷ m) h = ground (arith, contains-find k m)

  pub find-contains : (k : ℕ) (m : List (ℕ × V)) {v : V} → find k m ≡ some v → contains k m ≡ true
  unfolding find contains
  find-contains k [] h = cc
  find-contains k ((j, w) ∷ m) {v} h = ground (arith, find-contains k m {v = v})

  pub find-none-contains : (k : ℕ) (m : List (ℕ × V)) → find k m ≡ none → contains k m ≡ false
  unfolding find contains
  find-none-contains k [] h = refl
  find-none-contains k ((j, w) ∷ m) h = ground (arith, find-none-contains k m)

  pub find-emplace :
      (k j : ℕ) (v : V) (m : List (ℕ × V))
      → find k m ≡ none
      → find j (emplace k v m) ≡ (if k == j then some v else find j m)
  unfolding find emplace
  find-emplace k j v m h = rw (find-none-contains k m h) refl

  pub find-erase :
      (k j : ℕ) (m : List (ℕ × V)) → find j (erase k m) ≡ (if k == j then none else find j m)
  unfolding find erase
  find-erase k j [] = ground arith
  find-erase k j ((i, w) ∷ m) = ground (arith, find-erase k j m)

  pub find-assign_self :
      (k : ℕ) (v : V) (m : List (ℕ × V)) {w : V}
      → find k m ≡ some w
      → find k (assign k v m) ≡ some v
  unfolding find assign
  find-assign_self k v [] h = cc
  find-assign_self k v ((i, u) ∷ m) {w} h = ground (arith, find-assign_self k v m {w = w})

  pub find-assign_ne :
      (k j : ℕ) (v : V) (m : List (ℕ × V)) → k ≢ j → find j (assign k v m) ≡ find j m
  unfolding find assign
  find-assign_ne k j v [] h = refl
  find-assign_ne k j v ((i, u) ∷ m) h = ground (arith, find-assign_ne k j v m h)

  pub length-erase : (k : ℕ) (m : List (ℕ × V)) → length (erase k m) ≤ length m
  unfolding erase
  length-erase k [] = omega arith
  length-erase k ((j, v) ∷ m) = ground (arith, length-erase k m)

  pub length-erase-first :
      (k : ℕ) (v : V) (m : List (ℕ × V)) → length (erase k ((k, v) ∷ m)) ≤ length m
  unfolding erase
  length-erase-first k v m = ground (arith, length-erase k m)

  pub length-assign : (k : ℕ) (v : V) (m : List (ℕ × V)) → length (assign k v m) ≡ length m
  unfolding assign
  length-assign k v [] = refl
  length-assign k v ((j, w) ∷ m) = ground (arith, length-assign k v m)

  pub length-emplace : (k : ℕ) (v : V) (m : List (ℕ × V)) → length (emplace k v m) ≤ suc (length m)
  unfolding emplace
  length-emplace k v m = ground arith
