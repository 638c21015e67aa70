-- ===== src/Examples/Ladders.antt =====
-- Runs of src/types/bid_ladder.cpp on whole numbers.
use boost_connector.Base.{
  ℕ, ◌≤◌, Bool, true, ◌==◌, ltb, ◌≡◌, ◌⊎◌, refl, [], ◌∷◌, length, arith, if◌then◌else◌,
}
use boost_connector.Ladder
use boost_connector.Ladder.{Level, BidLadder}
use boost_connector.Ladder.Order.{IsOrder}
use boost_connector.Ladder.Sorted.{IsSorted, set-IsSorted}
use boost_connector.Ladder.Lookup.{depth_at, new_depth, depth_at-set}
use boost_connector.Ladder.Place.{place}
use boost_connector.Ladder.Reference.{set-take}
use boost_connector.Base.{take}
use boost_connector.Ladder.Bounds.{set-within}

abbrev above : ℕ → ℕ → Bool
above a b = ltb b a

abbrev same : ℕ → ℕ → Bool
same a b = a == b

abbrev is_zero : ℕ → Bool
is_zero d = d == 0

above-comparable : (a b c : ℕ) → above a b ≡ true → (above a c ≡ true) ⊎ (above c b ≡ true)
above-comparable a b c h = ground arith

above-IsOrder : IsOrder above same
above-IsOrder = record {
  irreflexive = λ a. ground arith;
  transitive = λ a b c h k. ground arith;
  comparable = above-comparable;
  equal = λ a b. ground arith;
}

abbrev level : ℕ → ℕ → Level ℕ ℕ
level p d = record { price = p; depth = d }

abbrev bids : BidLadder ℕ ℕ
bids = record { levels = level 30 1 ∷ level 20 2 ∷ level 10 3 ∷ []; max_levels = 4 }

bids-IsSorted : IsSorted above same is_zero bids.levels
bids-IsSorted = ((refl, (refl, tt)), ((refl, tt), (tt, tt)))

set-IsSorted_example : IsSorted above same is_zero (Ladder.set above same is_zero 25 4 bids).levels
set-IsSorted_example = set-IsSorted above same is_zero above-IsOrder 25 4 bids bids-IsSorted

depth_at-set_example :
    depth_at above same is_zero 20 (Ladder.set above same is_zero 20 0 bids).levels ≡ (
      if same 20 20
      then new_depth above same is_zero 20 0 bids.levels
      else depth_at above same is_zero 20 bids.levels)
depth_at-set_example =
    depth_at-set above same is_zero above-IsOrder 20 20 0 bids bids-IsSorted (omega arith)

set-within_example :
    length (Ladder.set above same is_zero 25 4 bids).levels
    ≤ (Ladder.set above same is_zero 25 4 bids).max_levels
set-within_example = set-within above same is_zero 25 4 bids (omega arith)

abbrev full : BidLadder ℕ ℕ
full = record { levels = level 30 1 ∷ level 20 2 ∷ []; max_levels = 2 }

set-take_example :
    (Ladder.set above same is_zero 25 4 full).levels
    ≡ take 2 (place above same is_zero 25 4 full.levels)
set-take_example = set-take above same is_zero 25 4 full (omega arith)

-- A full ladder loses its worst level to a better one.
full-set : (Ladder.set above same is_zero 25 4 full).levels ≡ level 30 1 ∷ level 25 4 ∷ []
unfolding Ladder.set
full-set = refl

full-set_worst : (Ladder.set above same is_zero 10 4 full).levels ≡ full.levels
unfolding Ladder.set
full-set_worst = refl

-- A zero depth where there is no level is stored.
bids-set_zero :
    (Ladder.set above same is_zero 15 0 bids).levels
    ≡ level 30 1 ∷ level 20 2 ∷ level 15 0 ∷ level 10 3 ∷ []
unfolding Ladder.set
bids-set_zero = refl
