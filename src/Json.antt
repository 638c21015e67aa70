-- ===== src/Json.antt =====
-- JSON values as boost::json hands them over, and its accessors that the program calls. An object keeps
-- its fields in insertion order, and `if_contains` and `at` find the first of that name.
pub mod Path
pub mod Find
pub mod Digest
use boost_connector.Base.{ℕ, Text, text_eq, Bool, Option, none, some, if◌then◌else◌}

mutual
  -- An int64 and a double are their 64 bits, read as a number.
  pub data Value : Type 0 where
    null : Value
    bool_ : Bool → Value
    int64 uint64 double_ : ℕ → Value
    string : Text → Value
    array : Items → Value
    object : Fields → Value

  pub data Items : Type 0 where
    nil : Items
    item : Value → Items → Items

  pub data Fields : Type 0 where
    end : Fields
    field : Text → Value → Fields → Fields

unfoldable pub if_contains : Text → Fields → Option Value
if_contains k end = none
if_contains k (field j v fs) = if text_eq j k then some v else if_contains k fs

unfoldable pub if_object : Value → Option Fields
if_object (object o) = some o
if_object _ = none

unfoldable pub if_string : Value → Option Text
if_string (string s) = some s
if_string _ = none

unfoldable pub if_int64 : Value → Option ℕ
if_int64 (int64 n) = some n
if_int64 _ = none

unfoldable pub if_array : Value → Option Items
if_array (array a) = some a
if_array _ = none
