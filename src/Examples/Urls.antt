-- ===== src/Examples/Urls.antt =====
-- Runs of src/util/url.cpp.
use boost_connector.Base.{span}
use boost_connector.Base.{codes, none, some, ◌≡◌, refl}
use boost_connector.Url.{tls, decode_url}
use boost_connector.Url.RoundTrip.{IsWritable, write_url, wss, decode_url-write}

parts-IsWritable : IsWritable (codes "a.b") (codes "8080") (codes "ws") (codes "q=1") (codes "f")
parts-IsWritable = record {
  host_some = λ e. cc;
  host_in = (refl, (refl, (refl, tt)));
  port_in = (refl, (refl, (refl, (refl, tt))));
  path_in = (refl, (refl, tt));
  query_in = (refl, (refl, (refl, tt)));
  fragment_in = (refl, tt);
}

decode_url-write_example :
    decode_url (write_url wss (codes "a.b") (codes "8080") (codes "ws") (codes "q=1") (codes "f"))
    ≡ some (record {
      hostname = codes "a.b";
      service = codes "8080";
      path_etc = codes "/ws?q=1#f";
      transport = tls;
    })
decode_url-write_example =
    decode_url-write wss (codes "a.b") (codes "8080") (codes "ws") (codes "q=1") (codes "f")
      parts-IsWritable refl refl refl

decode_ftx :
    decode_url (codes "wss://ftx.com/ws")
    ≡ some (record {
      hostname = codes "ftx.com";
      service = codes "https";
      path_etc = codes "/ws";
      transport = tls;
    })
unfolding decode_url span
decode_ftx = refl

decode_mail : decode_url (codes "mailto:someone") ≡ none
unfolding decode_url
decode_mail = refl
