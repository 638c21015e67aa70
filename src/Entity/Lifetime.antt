-- ===== src/Entity/Lifetime.antt =====
-- include/boost/connector/entity/lifetime_ptr.hpp: handles whose last one stops the object. The control block
-- of the proxy is its flag and the number of handles; the object counts its calls of `start` and `stop`.
use boost_connector.Base.{
  ℕ, ◌+◌, ◌-◌, ◌≡◌, Bool, true, false, Option, none, some, ◌==◌, List, [], ◌∷◌, if◌then◌else◌,
  arith,
}

pub record Implementation : Type 0 where
  pub started : ℕ
  pub stopped : ℕ

-- `proxy` is the flag while a handle lives, and `none` after the deleter has run.
pub record Lifetime : Type 0 where
  pub implementation : Implementation
  pub proxy : Option Bool
  pub handles : ℕ

-- The deleter.
unfoldable pub delete : Bool → Lifetime → Lifetime
delete flag l = record {
  implementation =
      if flag
      then record (l.implementation) { stopped = l.implementation.stopped + 1 }
      else l.implementation;
  proxy = none;
  handles = 0;
}

abbrev delete_proxy : Option Bool → Lifetime → Lifetime
delete_proxy none l = l
delete_proxy (some flag) l = delete flag l

-- A handle is copied, if there is one.
unfoldable pub copy : Lifetime → Lifetime
copy l = if l.handles == 0 then l else record l { handles = l.handles + 1 }

-- A handle is destroyed or reset; the last one runs the deleter.
unfoldable pub reset : Lifetime → Lifetime
unfolding delete
reset l =
    if l.handles == 0
    then l
    else if l.handles == 1
    then delete_proxy l.proxy l
    else record l { handles = l.handles - 1 }

-- `make_lifetime_ptr`: the proxy exists before `start` is called, and its flag is set after. Where `start`
-- throws, the proxy goes out of scope.
unfoldable pub make_lifetime_ptr : Bool → Implementation → Lifetime
unfolding reset
make_lifetime_ptr start_throws impl =
    let l : Lifetime = record { implementation = impl; proxy = some false; handles = 1 } in
    if start_throws then reset l else record {
      implementation = record impl { started = impl.started + 1 };
      proxy = some true;
      handles = 1;
    }

pub data Use : Type 0 where
  copies resets : Use

unfoldable pub run : List Use → Lifetime → Lifetime
unfolding copy reset
run [] l = l
run (copies ∷ us) l = run us (copy l)
run (resets ∷ us) l = run us (reset l)

-- The object is stopped once it has started and no handle is left, and not before.
pub record IsBalanced (started stopped : ℕ) (l : Lifetime) : Type 0 where
  pub started_once : l.implementation.started ≡ started + 1
  pub flagged : l.proxy ≡ (if l.handles == 0 then none else some true)
  pub stopped_once : l.implementation.stopped ≡ (if l.handles == 0 then stopped + 1 else stopped)

copy-IsBalanced : (s t : ℕ) (l : Lifetime) → IsBalanced s t l → IsBalanced s t (copy l)
unfolding copy
copy-IsBalanced s t l b = ground arith

reset-IsBalanced : (s t : ℕ) (l : Lifetime) → IsBalanced s t l → IsBalanced s t (reset l)
unfolding reset
reset-IsBalanced s t l b = ground arith

run-IsBalanced :
    (us : List Use) (s t : ℕ) (l : Lifetime) → IsBalanced s t l → IsBalanced s t (run us l)
unfolding run
run-IsBalanced [] s t l b = b
run-IsBalanced (copies ∷ us) s t l b = run-IsBalanced us s t (copy l) (copy-IsBalanced s t l b)
run-IsBalanced (resets ∷ us) s t l b = run-IsBalanced us s t (reset l) (reset-IsBalanced s t l b)

-- However the handles of a lifetime pointer are copied and reset, `start` was called once, and `stop` has
-- been called once if no handle is left and not at all while one is.
pub make_lifetime_ptr-IsBalanced :
    (us : List Use) (impl : Implementation)
    → IsBalanced impl.started impl.stopped (run us (make_lifetime_ptr false impl))
unfolding make_lifetime_ptr
make_lifetime_ptr-IsBalanced us impl =
    run-IsBalanced us impl.started impl.stopped
      (record {
        implementation = record impl { started = impl.started + 1 };
        proxy = some true;
        handles = 1;
      })
      (ground arith)
