-- ===== src/Ladder/Bounds.antt =====
-- The number of levels of a ladder and its limit: src/types/bid_ladder.cpp.
use boost_connector.Base.{
  ℕ, zero, suc, ◌+◌, ◌-◌, ◌≤◌, Bool, ◌≡◌, refl, inl, inr, List, [], ◌∷◌, ◌++◌, length,
  length-append, Bool-cases, arith,
}
use boost_connector.Ladder.{Level, BidLadder, pop_back, trim, lower_bound, update_at, set}

module _ {P Q : Type 0} where
  pub length-pop_back : (ls : List (Level P Q)) → length (pop_back ls) ≡ length ls - 1
  length-pop_back [] = omega arith
  length-pop_back (x ∷ []) = omega arith
  length-pop_back (x ∷ y ∷ ls) = omega (arith, length-pop_back (y ∷ ls))

  -- With fuel for every level the loop ends by its test.
  pub length-trim :
      (f max : ℕ) (ls : List (Level P Q)) → length ls ≤ f → length (trim f max ls) ≤ max
  unfolding trim
  length-trim zero max ls h = omega arith
  length-trim (suc f) max ls h = ground (arith, length-pop_back ls, length-trim f max (pop_back ls))

  trim_within : (max : ℕ) (ls : List (Level P Q)) → length (trim (length ls) max ls) ≤ max
  trim_within max ls = length-trim (length ls) max ls (omega arith)

  -- A list within the limit is not touched.
  pub trim_short : (f max : ℕ) (ls : List (Level P Q)) → length ls ≤ max → trim f max ls ≡ ls
  unfolding trim
  trim_short zero max ls h = refl
  trim_short (suc f) max ls h = ground arith

module _ {P Q : Type 0} (gt eq : P → P → Bool) (is_zero : Q → Bool) where
  length-lower_bound :
      (p : P) (ls : List (Level P Q))
      → length (lower_bound gt eq is_zero p ls).0 + length (lower_bound gt eq is_zero p ls).1
        ≡ length ls
  unfolding lower_bound
  length-lower_bound p [] = omega arith
  length-lower_bound p (x ∷ ls) = ground (arith, length-lower_bound p ls)

  length-update_at :
      (p : P) (d : Q) (max : ℕ) (before after : List (Level P Q))
      → length before + length after ≤ max
      → length (update_at gt eq is_zero p d max before after) ≤ max
  unfolding update_at
  length-update_at p d max before [] h =
      trim_within max (before ++ record { price = p; depth = d } ∷ [])
  length-update_at p d max before (x ∷ after) h = elim (Bool-cases (eq x.price p)) [
    | inl same ↦ rw same (
        ground (
          arith,
          length-append before after,
          length-append before (record x { depth = d } ∷ after),
        ))
    | inr other ↦ rw other (trim_within max (before ++ record { price = p; depth = d } ∷ x ∷ after))
  ]

  -- A ladder within its limit is within it after any `set`.
  pub set-within :
      (p : P) (d : Q) (l : BidLadder P Q)
      → length l.levels ≤ l.max_levels
      → length (set gt eq is_zero p d l).levels ≤ (set gt eq is_zero p d l).max_levels
  unfolding set
  set-within p d l h =
      length-update_at p d l.max_levels (lower_bound gt eq is_zero p l.levels).0
        (lower_bound gt eq is_zero p l.levels).1 (omega (arith, length-lower_bound p l.levels))
