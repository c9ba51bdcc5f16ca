-- ===== src/Outbound/Qfile/Tests.antt =====
-- File names of email/outbound/qfile.js at concrete values.
use companyly_microservices.Base.{◌≡◌, refl, some, codes}
use companyly_microservices.Rfc1869.{all}
use companyly_microservices.Outbound.Qfile.{
  Parts, name, good, parts, hostname, replace_char, next_counter,
}
use companyly_microservices.Outbound.Qfile.Names.{parts-name}

abbrev fields : Parts
fields = record {
  arrival = 5;
  next_attempt = 17;
  attempts = 2;
  pid = 0;
  uid = codes "x7";
  counter = 3;
  host = codes "mx_1";
}

-- The host of a name that is written again grows.
hostname_grows : hostname (hostname (codes "mx_1")) ≡ codes "mx\\0571371"
unfolding hostname replace_char
hostname_grows = refl

parts-name_example :
    parts 90 (codes "zz") 4 (name 80 12 (codes "yy") 3 (codes "other") fields)
    ≡ good (record {
      arrival = some 5;
      next_attempt = some 17;
      attempts = some 2;
      pid = some 12;
      uid = codes "x7";
      counter = some 4;
      host = codes "mx\\1371";
    })
unfolding hostname replace_char next_counter all
parts-name_example = parts-name 80 12 3 (codes "yy") (codes "other") fields 90 4 (codes "zz") refl
