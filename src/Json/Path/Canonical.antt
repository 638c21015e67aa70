-- ===== src/Json/Path/Canonical.antt =====
-- Paths in normal form: `dissect_path` and `to_path` of src/jsonext.cpp together.
use mathlib.Core.List.{append-nil}
use boost_connector.Base.{
  ℕ, zero, suc, ◌≤◌, Text, Bool, false, not, ◌≡◌, ◌≢◌, refl, ap, List, [], ◌∷◌, ◌++◌, All, Within,
  span, span-append, span-all, span-Within, length, length-append, arith, Bool-cases, inl, inr,
}
use boost_connector.Json.Path.{is_sep, not_sep, dissect, dissect_path, join, to_path}

-- A segment is not empty and holds no separator.
abbrev pub IsSegment : Text → Type 0
IsSegment s = (s ≢ []) × Within not_sep s

span-join :
    (s : Text) (segments : List Text)
    → Within not_sep s
    → span not_sep (s ++ join segments) ≡ (s, join segments)
span-join s [] h = rw (append-nil s) (span-all not_sep s h)
span-join s (t ∷ segments) h = span-append not_sep s (join (t ∷ segments)) h refl

-- The separator costs one round, and each segment one more.
dissect-join :
    (f : ℕ) (segments : List Text)
    → All IsSegment segments
    → length (join segments) ≤ f
    → dissect f (join segments) ≡ segments
unfolding dissect
dissect-join zero [] h e = refl
dissect-join zero (s ∷ segments) h e = absurd (omega arith)
dissect-join (suc f) [] h e = refl
dissect-join (suc f) ([] ∷ segments) h e = absurd (h.0.0 refl)
dissect-join (suc zero) ((c ∷ s) ∷ segments) h e = absurd (omega arith)
dissect-join (suc (suc f)) ((c ∷ s) ∷ segments) h e = ground (
  arith,
  span-join s segments h.0.1.1,
  dissect-join f segments h.1,
  length-append s (join segments),
)

other_segment : (c : ℕ) (s : Text) → is_sep c ≡ false → Within not_sep s → Within not_sep (c ∷ s)
other_segment c s h w = (ap not h, w)

dissect-IsSegment : (f : ℕ) (s : Text) → All IsSegment (dissect f s)
unfolding dissect
dissect-IsSegment zero s = tt
dissect-IsSegment (suc f) [] = tt
dissect-IsSegment (suc f) (c ∷ s) = elim (Bool-cases (is_sep c)) [
  | inl sep ↦ rw sep (dissect-IsSegment f s)
  | inr other ↦ rw other (
    ((λ e. cc), other_segment c (span not_sep s).0 other (span-Within not_sep s)),
    dissect-IsSegment f (span not_sep s).1,
  )
]

-- Dissecting gives segments that are not empty and hold no separator.
pub dissect_path-IsSegment : (s : Text) → All IsSegment (dissect_path s)
unfolding dissect_path
dissect_path-IsSegment s = dissect-IsSegment (length s) s

to_path-join : (s : Text) (segments : List Text) → to_path (s ∷ segments) ≡ join (s ∷ segments)
unfolding to_path
to_path-join s segments = refl

-- The path of a list of segments is dissected into that list.
pub dissect_path-to_path :
    (segments : List Text) → All IsSegment segments → dissect_path (to_path segments) ≡ segments
unfolding dissect_path to_path
dissect_path-to_path [] h = unfold dissect in refl
dissect_path-to_path (s ∷ segments) h =
    dissect-join (length (join (s ∷ segments))) (s ∷ segments) h (omega arith)

-- Normalising a path is idempotent, and keeps its segments.
pub normalise_idempotent :
    (s : Text)
    → (dissect_path (to_path (dissect_path s)) ≡ dissect_path s)
      × (to_path (dissect_path (to_path (dissect_path s))) ≡ to_path (dissect_path s))
normalise_idempotent s =
    let same = dissect_path-to_path (dissect_path s) (dissect_path-IsSegment s) in
    (same, ap to_path same)

span-length : (p : ℕ → Bool) (s : Text) → length (span p s).1 ≤ length s
unfolding span
span-length p [] = omega arith
span-length p (c ∷ s) = ground (arith, span-length p s)

-- Any fuel from the length on gives the same segments, so the loop of `dissect_path` ends by its test.
pub dissect_fuel : (f : ℕ) (s : Text) → length s ≤ f → dissect f s ≡ dissect (suc f) s
unfolding dissect
dissect_fuel zero [] h = refl
dissect_fuel zero (c ∷ s) h = absurd (omega arith)
dissect_fuel (suc f) [] h = refl
dissect_fuel (suc f) (c ∷ s) h = elim (Bool-cases (is_sep c)) [
  | inl sep ↦ rw sep (dissect_fuel f s (omega arith))
  | inr other ↦ rw other (
      ap (◌∷◌ (c ∷ (span not_sep s).0))
        (dissect_fuel f (span not_sep s).1 (omega (arith, span-length not_sep s))))
]
