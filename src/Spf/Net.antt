-- ===== src/Spf/Net.antt =====
-- What email/spf.js asks of Node's dns, of ipaddr.js, of haraka-net-utils and of RegExp.
use companyly_microservices.Base.{Bool, Option, Text, List}

pub data Version : Type 0 where
  ipv4 ipv6 : Version

-- A reply: an answer, NOTFOUND, NODATA or NXDOMAIN, or any other error.
pub data Answer (A : Type 0) : Type 0 where
  found : A → Answer A
  absent failed : Answer A

-- `kind` and `matches` give nothing where ipaddr.js throws, and `matches ip range bits` is
-- `parse(ip).match(parse(range), bits)`. `regexp` gives nothing where RegExp throws. `arrival` is the
-- order in which the replies to lookups made together arrive.
pub record Net : Type 0 where
  pub resolve_txt : Text → Answer (List (List Text))
  pub resolve : Text → Answer (List Text)
  pub resolve_ip : Version → Text → Answer (List Text)
  pub reverse_lookup : Text → Answer (List Text)
  pub get_mx : Text → Answer (List Text)
  pub is_valid : Text → Bool
  pub kind : Text → Option Version
  pub print : Text → Text
  pub matches : Text → Text → Text → Option Bool
  pub regexp : Text → Option (Text → Bool)
  pub arrival : List Text → List Text
