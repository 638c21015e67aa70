-- ===== src/Keys/Equality.antt =====
-- Equality of immutable keys: src/entity/immutable_key.cpp.
use mathlib.Core.Option.{some-injective}
use boost_connector.Base.{
  Text, text_eq, text_eq_sound, text_eq_refl, Bool, true, some, >>=-eq-some, ◌≡◌, refl, sym, ap,
  ◌∙◌, inl, inr, List, [], ◌∷◌, All, length, Bool-cases, ◌==◌, arith,
}
use boost_connector.Json.{Value}
use boost_connector.Json.Find.{find_path}
use boost_connector.Keys.{ImmutableKey, MutableKey, equal_from, key_eq, fix, hashed}

module _ (sha256 : Text → Text) (json_eq : Value → Value → Bool) where
  -- Both documents have values at the path, and they are equal.
  abbrev pub Agrees : Value → Value → Text → Type 0
  Agrees v w p =
      (a : Value) × (b : Value) × (find_path p v ≡ some a)
      × (find_path p w ≡ some b)
      × (json_eq a b ≡ true)

  equal_from-Agrees :
      (ls rs : List Text) (v w : Value)
      → length ls ≡ length rs
      → equal_from json_eq ls rs v w ≡ some true
      → (ls ≡ rs) × All (Agrees v w) ls
  unfolding equal_from
  equal_from-Agrees [] [] v w n h = (refl, tt)
  equal_from-Agrees [] (r ∷ rs) v w n h = absurd (omega arith)
  equal_from-Agrees (l ∷ ls) [] v w n h = cc
  equal_from-Agrees (l ∷ ls) (r ∷ rs) v w n h = elim (Bool-cases (text_eq l r)) [
    | inr other ↦ ground arith
    | inl same ↦
        let (a, left, h1) = >>=-eq-some (find_path l v) _ (rw same at h) in
        let (b, right, h2) = >>=-eq-some (find_path r w) _ h1 in
        elim (Bool-cases (json_eq a b)) [
          | inr differ ↦ ground arith
          | inl equal ↦
              let (ih, rest) = equal_from-Agrees ls rs v w (omega arith) (rw equal at h2) in
              let e = text_eq_sound l r same in
              (ground arith, ((a, b, left, ap (λ p. find_path p w) e ∙ right, equal), rest))
        ]
  ]

  -- Two keys that compare equal without an exception have one digest and one index, and on each path of
  -- it both documents hold values that are equal.
  pub key_eq_sound :
      (l r : ImmutableKey)
      → key_eq sha256 json_eq l r ≡ some true
      → (l.digest ≡ r.digest) × (l.index ≡ r.index) × All (Agrees l.value r.value) l.index
  unfolding key_eq
  key_eq_sound l r h = elim (Bool-cases (text_eq l.digest r.digest)) [
    | inr other ↦ ground arith
    | inl same ↦ elim (Bool-cases (length l.index == length r.index)) [
      | inr longer ↦ ground arith
      | inl long ↦
          let (index, agree) =
            equal_from-Agrees l.index r.index l.value r.value (ground arith)
              (rw (same, long) at h) in
          (text_eq_sound l.digest r.digest same, index, agree)
    ]
  ]

  module _ (json_eq_refl : (v : Value) → json_eq v v ≡ true) where
    equal_from_refl :
        (ls : List Text) (v : Value) {t : Text}
        → hashed ls v ≡ some t
        → equal_from json_eq ls ls v v ≡ some true
    unfolding equal_from hashed
    equal_from_refl [] v h = refl
    equal_from_refl (l ∷ ls) v h =
        let (a, found, h1) = >>=-eq-some (find_path l v) _ h in
        let (rest, hashed_rest, _) = >>=-eq-some (hashed ls v) _ h1 in
        rw (text_eq_refl l, found, json_eq_refl a) (equal_from_refl ls v hashed_rest)

    -- Fixing one mutable key twice gives equal keys.
    pub fix-key_eq :
        (k : MutableKey) (f g : ImmutableKey)
        → fix sha256 json_eq k ≡ some f
        → fix sha256 json_eq k ≡ some g
        → key_eq sha256 json_eq f g ≡ some true
    unfolding fix key_eq
    fix-key_eq k f g hf hg =
        let (t, eh, er) = >>=-eq-some (hashed k.index k.value) _ hf in
        let same : f ≡ g = some-injective _ _ (sym hf ∙ hg) in
        rw (← same) (
          rw (← some-injective _ _ er)
            (ground (arith, text_eq_refl (sha256 t), equal_from_refl k.index k.value eh)))
