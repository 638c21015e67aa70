-- ===== src/Entity/Snapshot.antt =====
-- include/boost/connector/snapshot/snapshot.hpp, condition.hpp and src/snapshot/snapshot.cpp. The dynamic type of a
-- snapshot is a number; `contents` is what its override of `check_equivalent` compares.
use boost_connector.Util.Enumerators
use boost_connector.Util.Enumerators.{Enumerators}
use boost_connector.Util.Timestamp
use boost_connector.Util.Timestamp.{TimestampType}
use boost_connector.Base.{
  ℕ, Text, codes, [], ◌∷◌, ◌++◌, text_eq, text_eq_sound, text_eq_refl, Bool, true, false, ◌≡◌,
  if◌then◌else◌, not, ◌==◌, arith,
}

pub data StatusCode : Type 0 where
  good not_ready error : StatusCode

abbrev pub status_eq : StatusCode → StatusCode → Bool
status_eq good good = true
status_eq not_ready not_ready = true
status_eq error error = true
status_eq _ _ = false

abbrev pub is_good : StatusCode → Bool
is_good good = true
is_good _ = false

pub record Snapshot (D : Type 0) : Type 0 where
  pub type : ℕ
  pub status : StatusCode
  pub source : Text
  pub timestamp : TimestampType
  pub contents : D

abbrev pub statuses : Enumerators
statuses = (0, codes "good") ∷ (1, codes "not_ready") ∷ (2, codes "error") ∷ []

abbrev pub status_value : StatusCode → ℕ
status_value good = 0
status_value not_ready = 1
status_value error = 2

-- The members as they are initialised, with the time that the clock gives.
unfoldable pub make : {D : Type 0} → ℕ → D → TimestampType → Snapshot D
make type contents now = record {
  type = type;
  status = error;
  source = [];
  timestamp = now;
  contents = contents;
}

-- The virtual function of the base class.
unfoldable pub print : {D : Type 0} → Bool → Snapshot D → Text → Text
unfolding Enumerators.output Timestamp.print
print structured s os =
    let line =
      Enumerators.output statuses (status_value s.status) (os ++ codes "status: ")
      ++ codes " "
      ++ codes "timestamp: "
      ++ Timestamp.print s.timestamp
      ++ codes "source: "
      ++ s.source in
    if structured then line ++ codes "\n" else line

-- `check_equivalent` of the class of the snapshots; that of the base class is always true.
module _ {D : Type 0} (check_equivalent : ℕ → D → D → Bool) where
  unfoldable pub is_equivalent : Snapshot D → Snapshot D → Bool
  is_equivalent l r =
      if not (l.type == r.type)
      then false
      else if not (status_eq l.status r.status)
      then false
      else if not (text_eq l.source r.source)
      then false
      else if is_good l.status
      then check_equivalent l.type l.contents r.contents
      else true

  -- `equivalent`
  unfoldable pub equivalent : Snapshot D → Snapshot D → Bool
  unfolding is_equivalent
  equivalent l r = is_equivalent l r

  pub record IsEquivalence : Type 0 where
    pub reflexive : (t : ℕ) (x : D) → check_equivalent t x x ≡ true
    pub symmetric :
        (t : ℕ) (x y : D) → check_equivalent t x y ≡ true → check_equivalent t y x ≡ true
    pub transitive :
        (t : ℕ) (x y z : D)
        → check_equivalent t x y ≡ true
        → check_equivalent t y z ≡ true
        → check_equivalent t x z ≡ true

  module _ (e : IsEquivalence) where
    -- A snapshot is equivalent to itself, and equivalence does not depend on the side, whatever the times
    -- are, if the comparison of contents is an equivalence for each type.
    pub equivalent_symmetric :
        (l r : Snapshot D) → (equivalent l l ≡ true) × (equivalent l r ≡ equivalent r l)
    unfolding equivalent
    equivalent_symmetric l r = (
      ground (arith, text_eq_refl l.source, e.reflexive l.type l.contents),
      ground (
        arith,
        text_eq_sound l.source r.source,
        text_eq_sound r.source l.source,
        text_eq_refl r.source,
        text_eq_refl l.source,
        e.symmetric l.type l.contents r.contents,
        e.symmetric r.type r.contents l.contents,
      ),
    )

    -- Under the same condition, snapshots that are equivalent to one snapshot are equivalent.
    pub equivalent_transitive :
        (a b c : Snapshot D) → equivalent a b ≡ true → equivalent b c ≡ true → equivalent a c ≡ true
    unfolding equivalent
    equivalent_transitive a b c h k = ground (
      arith,
      text_eq_sound a.source b.source,
      text_eq_sound b.source c.source,
      text_eq_refl c.source,
      e.transitive a.type a.contents b.contents c.contents,
    )
