-- ===== src/Ladder/Sorted.antt =====
-- The order of the levels of a ladder: src/types/bid_ladder.cpp.
use boost_connector.Base.{
  ℕ, zero, suc, Bool, true, ◌≡◌, inl, inr, List, [], ◌∷◌, All, length, Bool-cases, arith, ltb,
}
use boost_connector.Ladder.{Level, BidLadder, pop_back, trim, set}
use boost_connector.Ladder.Place.{place, set-place}
use boost_connector.Ladder.Order.{IsOrder}

module _ {P Q : Type 0} (gt eq : P → P → Bool) (is_zero : Q → Bool) where
  -- All the levels lie below a price.
  abbrev pub Below : P → List (Level P Q) → Type 0
  Below p = All (λ x. gt p x.price ≡ true)

  abbrev pub IsSorted : List (Level P Q) → Type 0
  IsSorted [] = Unit
  IsSorted (x ∷ ls) = Below x.price ls × IsSorted ls

  module _ (o : IsOrder gt eq) where
    Below-trans : (a b : P) (ls : List (Level P Q)) → gt a b ≡ true → Below b ls → Below a ls
    Below-trans a b [] h bs = tt
    Below-trans a b (x ∷ ls) h bs = (o.transitive a b x.price h bs.0, Below-trans a b ls h bs.1)

    Below-pop_back : (a : P) (ls : List (Level P Q)) → Below a ls → Below a (pop_back ls)
    Below-pop_back a [] h = tt
    Below-pop_back a (x ∷ []) h = tt
    Below-pop_back a (x ∷ y ∷ ls) h = (h.0, Below-pop_back a (y ∷ ls) h.1)

    IsSorted-pop_back : (ls : List (Level P Q)) → IsSorted ls → IsSorted (pop_back ls)
    IsSorted-pop_back [] h = tt
    IsSorted-pop_back (x ∷ []) h = tt
    IsSorted-pop_back (x ∷ y ∷ ls) h =
        (Below-pop_back x.price (y ∷ ls) h.0, IsSorted-pop_back (y ∷ ls) h.1)

    IsSorted-trim : (f max : ℕ) (ls : List (Level P Q)) → IsSorted ls → IsSorted (trim f max ls)
    unfolding trim
    IsSorted-trim zero max ls h = h
    IsSorted-trim (suc f) max ls h = elim (Bool-cases (ltb max (length ls))) [
      | inl long ↦ rw long (IsSorted-trim f max (pop_back ls) (IsSorted-pop_back ls h))
      | inr short ↦ rw short h
    ]

    place-Below :
        (a p : P) (d : Q) (ls : List (Level P Q))
        → gt a p ≡ true
        → Below a ls
        → Below a (place gt eq is_zero p d ls)
    unfolding place
    place-Below a p d [] h b = (h, tt)
    place-Below a p d (x ∷ ls) h b = ground (arith, place-Below a p d ls h b.1)

    place-IsSorted :
        (p : P) (d : Q) (ls : List (Level P Q))
        → IsSorted ls
        → IsSorted (place gt eq is_zero p d ls)
    unfolding place
    place-IsSorted p d [] h = (tt, tt)
    place-IsSorted p d (x ∷ ls) h = ground (
      arith,
      place-IsSorted p d ls h.1,
      place-Below x.price p d ls,
      o.equal x.price p,
      Below-trans p x.price ls,
    )

    -- Whatever price and depth are set, a ladder whose levels are in strictly decreasing order of price
    -- stays so.
    pub set-IsSorted :
        (p : P) (d : Q) (l : BidLadder P Q)
        → IsSorted l.levels
        → IsSorted (set gt eq is_zero p d l).levels
    set-IsSorted p d l h = elim (set-place gt eq is_zero p d l) [
      | inl plain ↦ rw plain (place-IsSorted p d l.levels h)
      | inr trimmed ↦ rw trimmed (IsSorted-trim _ _ _ (place-IsSorted p d l.levels h))
    ]
