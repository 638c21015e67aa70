-- ===== src/Examples/Documents.antt =====
-- Runs of src/jsonext.cpp and of the keys of src/entity.
use boost_connector.Base.{◌++◌}
use boost_connector.Json.Find.{subvalue}
use boost_connector.Json.Find.{subvalue}
use boost_connector.Json.Find.{subvalue}
use boost_connector.Base.{set_insert}
use boost_connector.Json.Find.{subvalue}
use boost_connector.Base.{
  Text, codes, text_eq, text_eq_refl, Bool, true, ◌||◌, some, ◌≡◌, refl, List, [], ◌∷◌, All,
  set_member, arith,
}
use boost_connector.Json.{Value, string, object, array, field, end, item, nil}
use boost_connector.Json.Path.{dissect, dissect_path, to_path}
use boost_connector.Json.Path.Canonical.{
  IsSegment, dissect_path-to_path, normalise_idempotent, dissect_fuel,
}
use boost_connector.Json.Find.{find_path, find_segments}
use boost_connector.Json.Digest.{update_sha256}
use boost_connector.Json.Digest.Reorder.{swap, update_sha256-Reordered}
use boost_connector.Keys
use boost_connector.Keys.{MutableKey, ImmutableKey, use_path, fix, mutate, key_eq, normalise}
use boost_connector.Base.{◌++◌}
use boost_connector.Keys.Printing
use boost_connector.Keys.Printing.{entries, print_entry, print-IsResolved}
use boost_connector.Util.Describe.{listed}
use boost_connector.Keys.Resolved.{IsResolved, use_path-IsResolved, fix-mutate}
use boost_connector.Keys.Equality.{Agrees, key_eq_sound, fix-key_eq}

abbrev two_segments : List Text
two_segments = codes "markets" ∷ codes "0" ∷ []

two_segments-IsSegment : All IsSegment two_segments
two_segments-IsSegment = (
  ((λ e. cc), (refl, (refl, (refl, (refl, (refl, (refl, (refl, tt)))))))),
  (((λ e. cc), (refl, tt)), tt),
)

dissect_slashes : dissect_path (codes "//markets///0/") ≡ two_segments
unfolding dissect_path
dissect_slashes = refl

dissect_path-to_path_example : dissect_path (to_path two_segments) ≡ two_segments
dissect_path-to_path_example = dissect_path-to_path two_segments two_segments-IsSegment

normalises_once :
    (dissect_path (to_path (dissect_path (codes "a//b"))) ≡ dissect_path (codes "a//b"))
    × (to_path (dissect_path (to_path (dissect_path (codes "a//b"))))
        ≡ to_path (dissect_path (codes "a//b")))
normalises_once = normalise_idempotent (codes "a//b")

dissect_more_fuel : dissect 9 (codes "/a/b") ≡ dissect 10 (codes "/a/b")
dissect_more_fuel = dissect_fuel 9 (codes "/a/b") (omega arith)

update_sha256-Reordered_example :
    update_sha256
      (object (field (codes "b") (string (codes "2")) (field (codes "a") (string (codes "1")) end)))
    ≡ update_sha256 (
        object
          (field (codes "a") (string (codes "1")) (field (codes "b") (string (codes "2")) end)))
unfolding text_eq
update_sha256-Reordered_example =
    update_sha256-Reordered
      (swap (codes "b") (codes "a") (string (codes "2")) (string (codes "1")) end refl)

abbrev document : Value
document = object (field (codes "markets") (array (item (string (codes "BTC/USD")) nil)) end)

abbrev fresh : MutableKey
fresh = record { value = document; index = [] }

abbrev used : MutableKey
used = record { value = document; index = codes "/markets/0" ∷ [] }

use_market : use_path (codes "markets//0") fresh ≡ some (string (codes "BTC/USD"), used)
unfolding use_path find_segments dissect_path subvalue text_eq set_insert to_path
use_market = refl

use_path-IsResolved_example :
    (find_path (normalise (codes "markets//0")) used.value ≡ some (string (codes "BTC/USD")))
    × (used.value ≡ fresh.value)
    × ((q : Text)
        → set_member q used.index
          ≡ (text_eq (normalise (codes "markets//0")) q || set_member q fresh.index))
    × IsResolved used.value used.index
use_path-IsResolved_example =
    use_path-IsResolved (codes "markets//0") fresh (string (codes "BTC/USD")) used use_market
      (record { ordered = tt; leads = tt })

-- Stand-ins for SHA-256 and for the equality of values.
abbrev same_text : Text → Text
same_text t = t

abbrev by_digest : Value → Value → Bool
by_digest v w = text_eq (update_sha256 v) (update_sha256 w)

used-leads : find_path (codes "/markets/0") document ≡ some (string (codes "BTC/USD"))
unfolding find_path find_segments dissect_path subvalue text_eq
used-leads = refl

used-IsResolved : IsResolved document (codes "/markets/0" ∷ [])
used-IsResolved = record {
  ordered = (tt, tt);
  leads = ((string (codes "BTC/USD"), used-leads), tt);
}

fix-mutate_example :
    (f : ImmutableKey) × (fix same_text by_digest used ≡ some f) × (mutate f ≡ used)
fix-mutate_example = fix-mutate same_text by_digest used used-IsResolved

abbrev fixed : ImmutableKey
fixed = record {
  value = document;
  index = codes "/markets/0" ∷ [];
  digest = codes "/markets/0BTC/USD";
}

fixed-key_eq : key_eq same_text by_digest fixed fixed ≡ some true
unfolding key_eq update_sha256 text_eq Keys.equal_from find_segments dissect_path subvalue
fixed-key_eq = refl

key_eq_sound_example :
    (fixed.digest ≡ fixed.digest)
    × (fixed.index ≡ fixed.index)
    × All (Agrees same_text by_digest fixed.value fixed.value) fixed.index
key_eq_sound_example = key_eq_sound same_text by_digest fixed fixed fixed-key_eq

used-fix : fix same_text by_digest used ≡ some fixed
unfolding fix update_sha256 Keys.hashed find_segments dissect_path subvalue text_eq
used-fix = refl

by_digest_refl : (v : Value) → by_digest v v ≡ true
by_digest_refl v = text_eq_refl (update_sha256 v)

fixed_twice : key_eq same_text by_digest fixed fixed ≡ some true
fixed_twice = fix-key_eq same_text by_digest by_digest_refl used fixed fixed used-fix used-fix

abbrev print_value : Value → Text
print_value v = codes "value"

printed-IsResolved :
    Printing.print print_value document (codes "/markets/0" ∷ []) []
    ≡ some (
        []
        ++ listed
            (print_entry print_value)
            (entries print_value document (codes "/markets/0" ∷ []) used-IsResolved.leads))
printed-IsResolved = print-IsResolved print_value used [] used-IsResolved
