-- ===== src/Map.antt =====
-- `std::unordered_map<OrderID, Order*>` as an association list: what the engine uses of it.
use cpp_orderbook_engine.Prelude.{
  ℕ, ◌≡◌, refl, Distinct, has, Bool-cases, inl, inr, ◌||◌, false, Option, none, some, List, [], ◌∷◌,
  ◌==◌, if◌then◌else◌, arith,
}

module _ {ℓ} {V : Type ℓ} where
  -- find(id)
  unfoldable pub find : ℕ → List (ℕ × V) → Option V
  find k [] = none
  find k ((j, v) ∷ m) = if j == k then some v else find k m

  -- map[id] = v
  unfoldable pub assign : ℕ → V → List (ℕ × V) → List (ℕ × V)
  assign k v [] = (k, v) ∷ []
  assign k v ((j, w) ∷ m) = if j == k then (k, v) ∷ m else (j, w) ∷ assign k v m

  unfoldable pub erase : ℕ → List (ℕ × V) → List (ℕ × V)
  erase k [] = []
  erase k ((j, w) ∷ m) = let rest = erase k m in if j == k then rest else (j, w) ∷ rest

  -- The keys, in the order of the list.
  abbrev pub keys : List (ℕ × V) → List ℕ
  keys [] = []
  keys ((k, _) ∷ m) = k ∷ keys m

  pub find-assign :
      (k j : ℕ) (v : V) (m : List (ℕ × V))
      → find j (assign k v m) ≡ (if j == k then some v else find j m)
  unfolding find assign
  find-assign k j v [] = ground arith
  find-assign k j v ((i, w) ∷ m) = ground (arith, find-assign k j v m)

  pub find-erase :
      (k j : ℕ) (m : List (ℕ × V)) → find j (erase k m) ≡ (if j == k then none else find j m)
  unfolding find erase
  find-erase k j [] = ground arith
  find-erase k j ((i, w) ∷ m) = ground (arith, find-erase k j m)

  has-keys-assign :
      (a k : ℕ) (v : V) (m : List (ℕ × V))
      → has a (keys (assign k v m)) ≡ ((a == k) || has a (keys m))
  unfolding assign
  has-keys-assign a k v [] = refl
  has-keys-assign a k v ((j, w) ∷ m) = ground (arith, has-keys-assign a k v m)

  pub assign-Distinct :
      (k : ℕ) (v : V) (m : List (ℕ × V)) → Distinct (keys m) → Distinct (keys (assign k v m))
  unfolding assign
  assign-Distinct k v [] d = (refl, tt)
  assign-Distinct k v ((j, w) ∷ m) d = elim (Bool-cases (j == k)) [
    | inl e ↦ let same : j ≡ k = ground arith in rw (e, ← same) d
    | inr e ↦ rw e (ground (arith, has-keys-assign j k v m, d.0), assign-Distinct k v m d.1)
  ]

  has-keys-erase :
      (a k : ℕ) (m : List (ℕ × V)) → has a (keys m) ≡ false → has a (keys (erase k m)) ≡ false
  unfolding erase
  has-keys-erase a k [] h = refl
  has-keys-erase a k ((j, w) ∷ m) h = ground (arith, has-keys-erase a k m)

  pub erase-Distinct : (k : ℕ) (m : List (ℕ × V)) → Distinct (keys m) → Distinct (keys (erase k m))
  unfolding erase
  erase-Distinct k [] d = tt
  erase-Distinct k ((j, w) ∷ m) d = elim (Bool-cases (j == k)) [
    | inl e ↦ rw e (erase-Distinct k m d.1)
    | inr e ↦ rw e (has-keys-erase j k m d.0, erase-Distinct k m d.1)
  ]
