-- ===== src/Ladder/Place.antt =====
-- The search and the update of `bid_ladder::set` as one pass over the levels, without the trimming.
use boost_connector.Base.{
  ℕ, Bool, ◌≡◌, refl, ap, ◌⊎◌, inl, inr, ◌∙◌, List, [], ◌∷◌, ◌++◌, length, arith, Bool-cases,
  if◌then◌else◌,
}
use boost_connector.Ladder.{Level, BidLadder, trim, lower_bound, update_at, set}

module _ {P Q : Type 0} (gt eq : P → P → Bool) (is_zero : Q → Bool) where
  unfoldable pub place : P → Q → List (Level P Q) → List (Level P Q)
  place p d [] = record { price = p; depth = d } ∷ []
  place p d (x ∷ ls) =
      if gt x.price p
      then x ∷ place p d ls
      else if eq x.price p
      then (if is_zero d then ls else record x { depth = d } ∷ ls)
      else record { price = p; depth = d } ∷ x ∷ ls

  -- `update_at` without its trimming.
  raw : P → Q → List (Level P Q) → List (Level P Q) → List (Level P Q)
  raw p d before [] = before ++ record { price = p; depth = d } ∷ []
  raw p d before (x ∷ after) =
      if eq x.price p
      then (if is_zero d then before ++ after else before ++ record x { depth = d } ∷ after)
      else before ++ record { price = p; depth = d } ∷ x ∷ after

  raw-cons :
      (p : P) (d : Q) (x : Level P Q) (before after : List (Level P Q))
      → raw p d (x ∷ before) after ≡ x ∷ raw p d before after
  unfolding raw
  raw-cons p d x before [] = refl
  raw-cons p d x before (y ∷ after) = ground arith

  raw-place :
      (p : P) (d : Q) (ls : List (Level P Q))
      → raw p d (lower_bound gt eq is_zero p ls).0 (lower_bound gt eq is_zero p ls).1 ≡ place p d ls
  unfolding lower_bound place raw
  raw-place p d [] = refl
  raw-place p d (x ∷ ls) = elim (Bool-cases (gt x.price p)) [
    | inl above ↦ rw above (
        raw-cons p d x (lower_bound gt eq is_zero p ls).0 (lower_bound gt eq is_zero p ls).1
        ∙ ap (◌∷◌ x) (raw-place p d ls))
    | inr here ↦ rw here
  ]

  update_at-raw :
      (p : P) (d : Q) (max : ℕ) (before after : List (Level P Q))
      → (update_at gt eq is_zero p d max before after ≡ raw p d before after)
        ⊎ (update_at gt eq is_zero p d max before after
            ≡ trim (length (raw p d before after)) max (raw p d before after))
  unfolding update_at raw
  update_at-raw p d max before [] = inr refl
  update_at-raw p d max before (x ∷ after) = elim (Bool-cases (eq x.price p)) [
    | inl same ↦ inl (rw same)
    | inr other ↦ inr (rw other)
  ]

  -- `set` places the level, and drops levels at the end where it has inserted one.
  pub set-place :
      (p : P) (d : Q) (l : BidLadder P Q)
      → ((set gt eq is_zero p d l).levels ≡ place p d l.levels)
        ⊎ ((set gt eq is_zero p d l).levels
            ≡ trim (length (place p d l.levels)) l.max_levels (place p d l.levels))
  unfolding set
  set-place p d l = ground (
    arith,
    raw-place p d l.levels,
    update_at-raw p d l.max_levels (lower_bound gt eq is_zero p l.levels).0
        (lower_bound gt eq is_zero p l.levels).1,
  )
