-- ===== src/Bitset/Scan.antt =====
-- The scans over the words, from the top for `find_highest` and from the bottom for `find_lowest`
-- and `empty`.
use cpp_orderbook_engine.Prelude.{
  ℕ, zero, suc, ◌+◌, ◌-◌, ◌*◌, ◌/◌, ◌%◌, ◌^◌, ◌≤◌, ◌<◌, ◌≡◌, refl, ℤ, pos, negsuc, Bool, true,
  false, ◌==◌, arith, ◌⊎◌, inl, inr, Bool-cases, ==_iff, ap, ◌∙◌,
}
use cpp_orderbook_engine.Bits.{bit_at, clz, ctz, eq-zero_of_clear, bit_at-zero_word}
use cpp_orderbook_engine.Bits.Count.{IsTop, IsLow, clz_lem, ctz_lem}
use cpp_orderbook_engine.Bitset.{highest_from, lowest_from, empty_from}

-- The bit of index `j` in a vector of words.
abbrev pub at : (ℕ → ℕ) → ℕ → Bool
at words j = bit_at (words (j / 64)) (j % 64)

module _ (words : ℕ → ℕ) where
  at-split : (i k : ℕ) → k < 64 → at words (i * 64 + k) ≡ bit_at (words i) k
  at-split i k h = ground (arith, word, place)
    where
      word : (i * 64 + k) / 64 ≡ i
      word = omega arith

      place : (i * 64 + k) % 64 ≡ k
      place = omega arith

  -- No index of word `i` is in the set if the word is zero.
  at_zero : (i j : ℕ) → words i ≡ 0 → j / 64 ≡ i → at words j ≡ false
  at_zero i j h e = ground (arith, bit_at-zero_word (j % 64))

  IsTop-of_word :
      (i : ℕ)
      → words i < 2 ^ 64
      → (words i == 0) ≡ false
      → (k : ℕ) × (63 - clz 64 (words i) ≡ k) × IsTop 64 (words i) k
  IsTop-of_word i fits ne = elim (clz_lem 64 (words i)) [
    | inl clear ↦ absurd (ground (arith, eq-zero_of_clear 64 (words i) fits clear))
    | inr (k, c, top) ↦ (k, omega (arith, c), top)
  ]

  IsLow-of_word :
      (i : ℕ)
      → words i < 2 ^ 64
      → (words i == 0) ≡ false
      → (b : ℕ) × (ctz 64 0 (words i) ≡ b) × (b < 64) × IsLow 0 (words i) b
  IsLow-of_word i fits ne = elim (ctz_lem 64 0 (words i)) [
    | inl clear ↦ absurd (
        ground
          (arith, eq-zero_of_clear 64 (words i) fits (λ k l. clear k (omega arith) (omega arith))))
    | inr (b, c, l, low) ↦ (b, omega (arith, c), omega (arith, l), low)
  ]

  -- What a scan of the first `n` words from the top returns.
  abbrev pub Highest : ℕ → ℤ → Type 0
  Highest n r =
      ((r ≡ negsuc 0) × ((j : ℕ) → j / 64 < n → at words j ≡ false))
      ⊎ ((m : ℕ) × (r ≡ pos m)
          × (at words m ≡ true)
          × (m / 64 < n)
          × ((j : ℕ) → m < j → j / 64 < n → at words j ≡ false))

  pub highest_from_lem : ((i : ℕ) → words i < 2 ^ 64) → (n : ℕ) → Highest n (highest_from n words)
  unfolding highest_from
  highest_from_lem fits zero = inl (refl, λ j h. absurd (omega arith))
  highest_from_lem fits (suc i) = elim (Bool-cases (words i == 0)) [
    | inl e ↦ rw e (elim (highest_from_lem fits i) [
      | inl (r, clear) ↦ inl (r, λ j h. skip j e h (clear j))
      | inr (m, r, set, l, above) ↦
          inr (m, r, set, omega (arith, l), λ j g h. skip j e h (above j g))
    ])
    | inr e ↦ rw e (
        let (k, c, top) = IsTop-of_word i (fits i) e in
        inr (
          i * 64 + k,
          ap (λ v. pos (i * 64 + v)) c,
          at-split i k top.0 ∙ top.1,
          omega (arith, top.0),
          λ j g h. beyond k j top g h,
        ))
  ]
    where
      skip :
          (j : ℕ)
          → (words i == 0) ≡ true
          → j / 64 < suc i
          → (j / 64 < i → at words j ≡ false)
          → at words j ≡ false
      skip j e h rest = elim (Bool-cases (j / 64 == i)) [
        | inl here ↦ at_zero i j ((==_iff _ _).0 e) ((==_iff _ _).0 here)
        | inr there ↦ rest (ground arith)
      ]

      beyond :
          (k j : ℕ) → IsTop 64 (words i) k → i * 64 + k < j → j / 64 < suc i → at words j ≡ false
      beyond k j top g h =
          let e : j / 64 ≡ i = omega arith in rw e (top.2 (j % 64) (omega arith) (omega arith))

  -- What a scan of `n` words from word `i` on returns.
  abbrev pub Lowest : ℕ → ℕ → ℤ → Type 0
  Lowest n i r =
      ((r ≡ negsuc 0) × ((j : ℕ) → i ≤ j / 64 → j / 64 < i + n → at words j ≡ false))
      ⊎ ((m : ℕ) × (r ≡ pos m)
          × (at words m ≡ true)
          × (m / 64 < i + n)
          × ((j : ℕ) → i ≤ j / 64 → j < m → at words j ≡ false))

  pub lowest_from_lem :
      ((i : ℕ) → words i < 2 ^ 64) → (n i : ℕ) → Lowest n i (lowest_from n i words)
  unfolding lowest_from
  lowest_from_lem fits zero i = inl (refl, λ j g h. absurd (omega arith))
  lowest_from_lem fits (suc n) i = elim (Bool-cases (words i == 0)) [
    | inl e ↦ rw e (elim (lowest_from_lem fits n (suc i)) [
      | inl (r, clear) ↦ inl (r, λ j g h. skip j e g (λ p. clear j p (omega arith)))
      | inr (m, r, set, l, below) ↦
          inr (m, r, set, omega (arith, l), λ j g h. skip j e g (λ p. below j p h))
    ])
    | inr e ↦ rw e (
        let (k, c, l, low) = IsLow-of_word i (fits i) e in
        inr (
          i * 64 + k,
          ap (λ v. pos (i * 64 + v)) c,
          at-split i k l ∙ low.1,
          omega (arith, l),
          λ j g h. before k j l low g h,
        ))
  ]
    where
      skip :
          (j : ℕ)
          → (words i == 0) ≡ true
          → i ≤ j / 64
          → (suc i ≤ j / 64 → at words j ≡ false)
          → at words j ≡ false
      skip j e h rest = elim (Bool-cases (j / 64 == i)) [
        | inl here ↦ at_zero i j ((==_iff _ _).0 e) ((==_iff _ _).0 here)
        | inr there ↦ rest (ground arith)
      ]

      before :
          (k j : ℕ)
          → k < 64
          → IsLow 0 (words i) k
          → i ≤ j / 64
          → j < i * 64 + k
          → at words j ≡ false
      before k j l low g h =
          let e : j / 64 ≡ i = omega arith in rw e (low.2 (j % 64) (omega arith) (omega arith))

  -- The scan for an empty set and the scan for the lowest index stop at the same word.
  pub empty_from_lem :
      (n i : ℕ)
      → ((empty_from n i words ≡ true) × (lowest_from n i words ≡ negsuc 0))
        ⊎ ((empty_from n i words ≡ false) × (m : ℕ) × (lowest_from n i words ≡ pos m))
  unfolding empty_from lowest_from
  empty_from_lem zero i = inl (refl, refl)
  empty_from_lem (suc n) i = elim (Bool-cases (words i == 0)) [
    | inl e ↦ rw e (empty_from_lem n (suc i))
    | inr e ↦ rw e (inr (refl, i * 64 + ctz 64 0 (words i), refl))
  ]
