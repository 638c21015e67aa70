-- ===== src/Ladder/Reference.antt =====
-- `bid_ladder::set` against a reference: one pass over the levels, and a prefix of the result.
use boost_connector.Base.{
  ℕ, zero, suc, ◌≤◌, ◌<◌, Bool, ◌≡◌, refl, sym, ap, subst, ◌∙◌, inl, inr, List, [], ◌∷◌, length,
  take, ltb, Bool-cases, arith,
}
use boost_connector.Ladder.{Level, BidLadder, pop_back, trim, set}
use boost_connector.Ladder.Place.{place, set-place}
use boost_connector.Ladder.Bounds.{length-pop_back, set-within}

module _ {P Q : Type 0} where
  take_all : (n : ℕ) (ls : List (Level P Q)) → length ls ≤ n → take n ls ≡ ls
  take_all zero [] h = refl
  take_all zero (x ∷ ls) h = absurd (omega arith)
  take_all (suc n) [] h = refl
  take_all (suc n) (x ∷ ls) h = ap (◌∷◌ x) (take_all n ls (omega arith))

  take-pop_back : (n : ℕ) (ls : List (Level P Q)) → n < length ls → take n (pop_back ls) ≡ take n ls
  take-pop_back zero ls h = refl
  take-pop_back (suc n) [] h = refl
  take-pop_back (suc n) (x ∷ []) h = absurd (omega arith)
  take-pop_back (suc n) (x ∷ y ∷ ls) h = ap (◌∷◌ x) (take-pop_back n (y ∷ ls) (omega arith))

  trim-take : (f max : ℕ) (ls : List (Level P Q)) → length ls ≤ f → trim f max ls ≡ take max ls
  unfolding trim
  trim-take zero max ls h = sym (take_all max ls (omega arith))
  trim-take (suc f) max ls h = elim (Bool-cases (ltb max (length ls))) [
    | inl long ↦ rw long (
        trim-take f max (pop_back ls) (omega (arith, length-pop_back ls))
        ∙ take-pop_back max ls (ground arith))
    | inr short ↦ rw short (sym (take_all max ls (ground arith)))
  ]

module _ {P Q : Type 0} (gt eq : P → P → Bool) (is_zero : Q → Bool) where
  set_max_levels :
      (p : P) (d : Q) (l : BidLadder P Q) → (set gt eq is_zero p d l).max_levels ≡ l.max_levels
  unfolding set
  set_max_levels p d l = refl

  -- In a ladder within its limit, `set` gives the levels of the ladder in which one pass has placed the
  -- level, cut off at the limit: an insertion into a full ladder drops the last level, and no other call
  -- drops any.
  pub set-take :
      (p : P) (d : Q) (l : BidLadder P Q)
      → length l.levels ≤ l.max_levels
      → (set gt eq is_zero p d l).levels ≡ take l.max_levels (place gt eq is_zero p d l.levels)
  set-take p d l h =
      let placed = place gt eq is_zero p d l.levels in
      let within : length (set gt eq is_zero p d l).levels ≤ l.max_levels =
        omega (arith, set-within gt eq is_zero p d l h, set_max_levels p d l) in
      elim (set-place gt eq is_zero p d l) [
        | inl plain ↦
            plain
            ∙ sym
                (take_all l.max_levels placed (subst (λ ls. length ls ≤ l.max_levels) plain within))
        | inr trimmed ↦ trimmed ∙ trim-take (length placed) l.max_levels placed (omega arith)
      ]
