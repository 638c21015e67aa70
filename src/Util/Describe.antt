-- ===== src/Util/Describe.antt =====
-- The operators of described types: include/boost/connector/util/describe_operators.hpp, equals.hpp and
-- hash_value.hpp. An object of a described type is the list of its bases and the list of its members, in
-- the order of the description, so that the objects of one type have lists of one length. A base or a member
-- is an element of `P`, with its own operators as parameters, and so is the combination of hashes.
use boost_connector.Base.{
  ℕ, Text, codes, Bool, true, ◌&&◌, not, ◌≡◌, refl, sym, ap, ◌∙◌, List, [], ◌∷◌, ◌++◌, arith,
  length,
}
use mathlib.Core.List.{append_assoc, append-nil}

pub record Described (P : Type 0) : Type 0 where
  pub bases : List P
  pub members : List P

-- Two objects of one type.
pub record SameShape {P : Type 0} (t u : Described P) : Type 0 where
  pub bases_len : length t.bases ≡ length u.bases
  pub members_len : length t.members ≡ length u.members

module _ {P : Type 0} (print : P → Text) where
  unfoldable pub out_bases : List P → Text → Text
  out_bases [] os = os
  out_bases (b ∷ bs) os = out_bases bs (os ++ print b)

  -- The separator is empty before the first member.
  unfoldable pub out_members : List P → Text → Text → Text
  out_members [] sep os = os
  out_members (m ∷ ms) sep os = out_members ms (codes ", ") (os ++ sep ++ print m)

  unfoldable pub stream_out : Described P → Text → Text → Text
  unfolding out_bases out_members
  stream_out t sep os = out_members t.members sep (out_bases t.bases os)

  -- `operator<<`
  unfoldable pub output : Described P → Text → Text
  unfolding stream_out
  output t os = stream_out t [] os

  -- The texts with a comma between each two.
  abbrev pub listed : List P → Text
  listed [] = []
  listed (m ∷ []) = print m
  listed (m ∷ n ∷ ms) = print m ++ codes ", " ++ listed (n ∷ ms)

  abbrev pub joined : List P → Text
  joined [] = []
  joined (b ∷ bs) = print b ++ joined bs

  out_bases-joined : (bs : List P) (os : Text) → out_bases bs os ≡ os ++ joined bs
  unfolding out_bases
  out_bases-joined [] os = sym (append-nil os)
  out_bases-joined (b ∷ bs) os =
      out_bases-joined bs (os ++ print b) ∙ append_assoc os (print b) (joined bs)

  out_members-listed :
      (m : P) (ms : List P) (sep os : Text)
      → out_members (m ∷ ms) sep os ≡ os ++ sep ++ listed (m ∷ ms)
  unfolding out_members
  out_members-listed m [] sep os = refl
  out_members-listed m (n ∷ ms) sep os =
      out_members-listed n ms (codes ", ") (os ++ sep ++ print m) ∙ simp (append_assoc)

  -- An object is printed as its bases, one directly after another, and then its members, with a comma and a
  -- space between each two, and nothing between the bases and the members.
  pub output-listed :
      (t : Described P) (os : Text) → output t os ≡ os ++ joined t.bases ++ listed t.members
  unfolding output stream_out out_members
  output-listed t os = go t.members
    where
      go :
          (ms : List P)
          → out_members ms [] (out_bases t.bases os) ≡ os ++ joined t.bases ++ listed ms
      go [] = out_bases-joined t.bases os ∙ sym (append-nil (os ++ joined t.bases))
      go (m ∷ ms) =
          out_members-listed m ms [] (out_bases t.bases os)
          ∙ ap (λ l. l ++ listed (m ∷ ms))
              (append-nil (out_bases t.bases os) ∙ out_bases-joined t.bases os)

module _ {P : Type 0} (equal : P → P → Bool) (hash : P → ℕ) (hash_combine : ℕ → ℕ → ℕ) where
  -- `r = r && t1.*D.pointer == t2.*D.pointer` for each part.
  unfoldable pub equal_parts : Bool → List P → List P → Bool
  equal_parts r (x ∷ xs) (y ∷ ys) = equal_parts (r && equal x y) xs ys
  equal_parts r _ _ = r

  -- `operator==`
  unfoldable pub equal_to : Described P → Described P → Bool
  unfolding equal_parts
  equal_to t u = equal_parts (equal_parts true t.bases u.bases) t.members u.members

  unfoldable pub not_equal_to : Described P → Described P → Bool
  unfolding equal_to
  not_equal_to t u = not (equal_to t u)

  unfoldable pub combine_parts : ℕ → List P → ℕ
  combine_parts r [] = r
  combine_parts r (x ∷ xs) = combine_parts (hash_combine r (hash x)) xs

  unfoldable pub hash_value : Described P → ℕ
  unfolding combine_parts
  hash_value t = combine_parts (combine_parts 0 t.bases) t.members

  equal_parts-true : (r : Bool) (xs ys : List P) → equal_parts r xs ys ≡ true → r ≡ true
  unfolding equal_parts
  equal_parts-true r [] ys h = h
  equal_parts-true r (x ∷ xs) [] h = h
  equal_parts-true r (x ∷ xs) (y ∷ ys) h = ground (arith, equal_parts-true (r && equal x y) xs ys h)

  module _ (hash_equal : (x y : P) → equal x y ≡ true → hash x ≡ hash y) where
    equal_here :
        (b : Bool) (x y : P) (xs ys : List P)
        → equal_parts (b && equal x y) xs ys ≡ true
        → equal x y ≡ true
    equal_here b x y xs ys h = ground (arith, equal_parts-true (b && equal x y) xs ys h)

    combine_parts-equal :
        (r : ℕ) (b : Bool) (xs ys : List P)
        → length xs ≡ length ys
        → equal_parts b xs ys ≡ true
        → combine_parts r xs ≡ combine_parts r ys
    unfolding combine_parts equal_parts
    combine_parts-equal r b [] [] n h = refl
    combine_parts-equal r b [] (y ∷ ys) n h = absurd (omega arith)
    combine_parts-equal r b (x ∷ xs) [] n h = absurd (omega arith)
    combine_parts-equal r b (x ∷ xs) (y ∷ ys) n h =
        let same = hash_equal x y (equal_here b x y xs ys h) in
        ap (λ k. combine_parts (hash_combine r k) xs) same
        ∙ combine_parts-equal (hash_combine r (hash y)) (b && equal x y) xs ys (ground arith) h

    -- Objects of one type that compare equal have one hash value, if that holds of their parts.
    pub equal_to-hash_value :
        (t u : Described P) → SameShape t u → equal_to t u ≡ true → hash_value t ≡ hash_value u
    unfolding equal_to hash_value
    equal_to-hash_value t u s h =
        ap (λ r. combine_parts r t.members)
          (combine_parts-equal 0 true t.bases u.bases s.bases_len
            (equal_parts-true (equal_parts true t.bases u.bases) t.members u.members h))
        ∙ combine_parts-equal (combine_parts 0 u.bases) (equal_parts true t.bases u.bases) t.members
            u.members s.members_len h
