-- ===== src/Ftx/Credentials.antt =====
-- include/boost/connector/vendor/ftx/ftx_config.hpp, and the login frame that
-- src/vendor/ftx/ftx_websocket_connector_concept.cpp builds from it.
use boost_connector.Base.{
  ℕ, zero, suc, ◌+◌, ◌/◌, ◌%◌, Text, codes, Bool, not, ◌&&◌, [], ◌∷◌, ◌++◌, ltb, if◌then◌else◌,
}
use boost_connector.Json.{Value, object, string, int64, field, end}
use boost_connector.Url.{is_empty}

pub record Credentials : Type 0 where
  pub subaccount : Text
  pub api_key : Text
  pub api_secret : Text

pub record WebsocketKey : Type 0 where
  pub url : Text
  pub auth : Credentials

unfoldable pub has_auth : Credentials → Bool
has_auth c = not (is_empty c.api_key) && not (is_empty c.api_secret)

unfoldable pub has_subaccount : Credentials → Bool
has_subaccount c = not (is_empty c.subaccount)

-- `std::to_string`, with as much fuel as there can be digits.
unfoldable pub digits : ℕ → ℕ → Text → Text
digits zero n rest = rest
digits (suc f) n rest =
    let longer = digits f (n / 10) ((48 + n % 10) ∷ rest) in
    if ltb n 10 then (48 + n) ∷ rest else longer

unfoldable pub to_string : ℕ → Text
unfolding digits
to_string n = digits (suc n) n []

-- OpenSSL's HMAC-SHA256 of a key and a message, in small hexadecimal digits, and the serialiser.
module _ (hmac_hex : Text → Text → Text) (serialize : Value → Text) where
  unfoldable pub ftx_signature : Text → ℕ → Text → Text
  unfolding to_string
  ftx_signature secret time path = hmac_hex secret (to_string time ++ path)

  unfoldable pub ftx_auth_frame : Credentials → ℕ → Text
  unfolding ftx_signature has_subaccount
  ftx_auth_frame auth now_ms =
      let rest =
        if has_subaccount auth
        then field (codes "subaccount") (string auth.subaccount) end
        else end in
      serialize (
        object (
          field (codes "key") (string auth.api_key) (
            field (codes "time") (int64 now_ms) (
              field (codes "sign")
                (string (ftx_signature auth.api_secret now_ms (codes "websocket_login"))) rest))))
