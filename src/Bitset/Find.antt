-- ===== src/Bitset/Find.antt =====
-- `find_highest` and `find_lowest` return the greatest and the least index of the set, and `empty`
-- tells whether there is none.
use cpp_orderbook_engine.Prelude.{
  ℕ, ◌/◌, ◌<◌, ◌≡◌, ◌↔◌, ℤ, pos, negsuc, true, false, arith, ◌⊎◌, inl, inr, Bool-cases, ◌∙◌,
}
use cpp_orderbook_engine.Bitset.{DynamicBitset, test, find_highest, find_lowest, empty}
use cpp_orderbook_engine.Bitset.Laws.{bit, IsValid}
use cpp_orderbook_engine.Bitset.Scan.{highest_from_lem, lowest_from_lem, empty_from_lem}

module _ {b : DynamicBitset} (v : IsValid b) where
  test-eq-bit : (j : ℕ) → test b (pos j) ≡ bit b j
  unfolding test
  test-eq-bit j = ground (arith, v.inside j)

  word_in_range : (j : ℕ) → test b (pos j) ≡ true → j / 64 < b.num_words
  unfolding test
  word_in_range j e = ground (arith, v.sized)

  clear_of : (j : ℕ) → (j / 64 < b.num_words → bit b j ≡ false) → test b (pos j) ≡ false
  clear_of j h = elim (Bool-cases (test b (pos j))) [
    | inl e ↦ test-eq-bit j ∙ h (word_in_range j e)
    | inr e ↦ e
  ]

-- `r` is the greatest index of the set, or -1 if the set is empty.
abbrev pub IsHighest : DynamicBitset → ℤ → Type 0
IsHighest b r =
    ((r ≡ negsuc 0) × ((j : ℕ) → test b (pos j) ≡ false))
    ⊎ ((m : ℕ) × (r ≡ pos m) × (test b (pos m) ≡ true) × ((j : ℕ) → m < j → test b (pos j) ≡ false))

-- `r` is the least index of the set, or -1 if the set is empty.
abbrev pub IsLowest : DynamicBitset → ℤ → Type 0
IsLowest b r =
    ((r ≡ negsuc 0) × ((j : ℕ) → test b (pos j) ≡ false))
    ⊎ ((m : ℕ) × (r ≡ pos m) × (test b (pos m) ≡ true) × ((j : ℕ) → j < m → test b (pos j) ≡ false))

-- For a valid bitset `find_highest` gives the greatest index of the set, and -1 if the set is
-- empty.
pub find_highest-IsHighest : (b : DynamicBitset) → IsValid b → IsHighest b (find_highest b)
unfolding find_highest
find_highest-IsHighest b v = elim (highest_from_lem b.words v.fits b.num_words) [
  | inl (r, clear) ↦ inl (r, λ j. clear_of v j (clear j))
  | inr (m, r, set, l, above) ↦ inr (m, r, test-eq-bit v m ∙ set, λ j h. clear_of v j (above j h))
]

-- For a valid bitset `find_lowest` gives the least index of the set, and -1 if the set is empty.
pub find_lowest-IsLowest : (b : DynamicBitset) → IsValid b → IsLowest b (find_lowest b)
unfolding find_lowest
find_lowest-IsLowest b v = elim (lowest_from_lem b.words v.fits b.num_words 0) [
  | inl (r, clear) ↦ inl (r, λ j. clear_of v j (λ h. clear j (omega arith) (omega arith)))
  | inr (m, r, set, l, below) ↦
      inr (m, r, test-eq-bit v m ∙ set, λ j h. clear_of v j (λ _. below j (omega arith) h))
]

-- For a valid bitset `empty` says true exactly if no index is in the set.
pub empty_iff :
    (b : DynamicBitset) → IsValid b → (empty b ≡ true) ↔ ((j : ℕ) → test b (pos j) ≡ false)
unfolding empty find_lowest
empty_iff b v = elim (empty_from_lem b.words b.num_words 0) [
  | inl (e, r) ↦ elim (find_lowest-IsLowest b v) [
    | inl (_, clear) ↦ (λ _. clear, λ _. e)
    | inr (m, r', _, _) ↦ absurd (ground arith)
  ]
  | inr (e, m, r) ↦ elim (find_lowest-IsLowest b v) [
    | inl (r', _) ↦ absurd (ground arith)
    | inr (k, _, set, _) ↦ (λ e'. absurd (ground arith), λ clear. absurd (ground (arith, clear k)))
  ]
]
