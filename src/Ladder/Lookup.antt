-- ===== src/Ladder/Lookup.antt =====
-- A ladder as a map from prices to depths: src/types/bid_ladder.cpp.
use boost_connector.Base.{
  ◌+◌, ◌≤◌, ◌<◌, Bool, true, false, ◌&&◌, Option, none, some, ◌≡◌, refl, inl, inr, List, [], ◌∷◌,
  length, arith, if◌then◌else◌, ◌∙◌, ap,
}
use boost_connector.Ladder.{Level, BidLadder, set}
use boost_connector.Ladder.Order.{IsOrder}
use boost_connector.Ladder.Place.{place, set-place}
use boost_connector.Ladder.Sorted.{IsSorted, Below}
use boost_connector.Ladder.Bounds.{trim_short}

module _ {P Q : Type 0} (gt eq : P → P → Bool) (is_zero : Q → Bool) where
  -- The depth at a price, if there is a level.
  unfoldable pub depth_at : P → List (Level P Q) → Option Q
  depth_at p [] = none
  depth_at p (x ∷ ls) = if eq x.price p then some x.depth else depth_at p ls

  abbrev is_some : Option Q → Bool
  is_some none = false
  is_some (some d) = true

  -- What is found at the price that was set: nothing where a level was removed.
  abbrev pub new_depth : P → Q → List (Level P Q) → Option Q
  new_depth p d ls = if is_zero d && is_some (depth_at p ls) then none else some d

  module _ (o : IsOrder gt eq) where
    Below-depth_at :
        (p q : P) (ls : List (Level P Q))
        → Below gt eq is_zero p ls
        → gt p q ≡ false
        → depth_at q ls ≡ none
    unfolding depth_at
    Below-depth_at p q [] h n = refl
    Below-depth_at p q (x ∷ ls) h n =
        ground (arith, Below-depth_at p q ls h.1 n, o.equal x.price q, o.comparable p x.price q h.0)

    depth_at-place :
        (p q : P) (d : Q) (ls : List (Level P Q))
        → IsSorted gt eq is_zero ls
        → depth_at q (place gt eq is_zero p d ls)
          ≡ (if eq p q then new_depth p d ls else depth_at q ls)
    unfolding place depth_at
    depth_at-place p q d [] h = ground arith
    depth_at-place p q d (x ∷ ls) h = ground (
      arith,
      depth_at-place p q d ls h.1,
      o.equal x.price p,
      o.equal x.price q,
      o.equal p q,
      o.comparable x.price p q,
      o.comparable p x.price q,
      o.comparable q x.price p,
      o.comparable x.price q p,
      o.comparable q p x.price,
      o.comparable p q x.price,
      Below-depth_at x.price p ls h.0,
      Below-depth_at x.price q ls h.0,
    )

    length-place :
        (p : P) (d : Q) (ls : List (Level P Q))
        → length (place gt eq is_zero p d ls) ≤ length ls + 1
    unfolding place
    length-place p d [] = omega arith
    length-place p d (x ∷ ls) = ground (arith, length-place p d ls)

    set-place_short :
        (p : P) (d : Q) (l : BidLadder P Q)
        → length l.levels < l.max_levels
        → (set gt eq is_zero p d l).levels ≡ place gt eq is_zero p d l.levels
    set-place_short p d l h = elim (set-place gt eq is_zero p d l) [
      | inl plain ↦ plain
      | inr trimmed ↦
          trimmed
          ∙ trim_short _ l.max_levels (place gt eq is_zero p d l.levels)
              (omega (arith, length-place p d l.levels))
    ]

    -- In a ladder in order with room for one more level, setting a price replaces what is found at that
    -- price alone: the new depth, or nothing where a zero depth meets a level. A zero depth at a price
    -- without a level leaves a level of that depth behind.
    pub depth_at-set :
        (p q : P) (d : Q) (l : BidLadder P Q)
        → IsSorted gt eq is_zero l.levels
        → length l.levels < l.max_levels
        → depth_at q (set gt eq is_zero p d l).levels
          ≡ (if eq p q then new_depth p d l.levels else depth_at q l.levels)
    depth_at-set p q d l h room =
        ap (depth_at q) (set-place_short p d l room) ∙ depth_at-place p q d l.levels h
