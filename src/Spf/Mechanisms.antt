-- ===== src/Spf/Mechanisms.antt =====
-- The mechanisms of email/spf.js that look up what they are about: `mech_all`, `mech_exists`,
-- `mech_a`, `mech_mx`, `mech_ptr`, `mech_ip`, and the results of `return_const`.
use companyly_microservices.Base.{
  ℕ, ◌+◌, Bool, true, false, Option, none, some, List, [], ◌∷◌, ◌++◌, Text, ◌==◌, ◌&&◌, not,
  if◌then◌else◌, is_empty, text_eq, to_lower, map, codes, drop, length, ltb,
}
use companyly_microservices.Rfc1869.{all}
use companyly_microservices.Outbound.Delivery.Reply.{is_digit}
use companyly_microservices.Spf.Net.{Version, ipv4, ipv6, found, absent, failed, Net}
use companyly_microservices.Spf.Run.{Run, done, threw, ◌>>=◌}
use companyly_microservices.Spf.Record.{masks, span_host}
use companyly_microservices.Spf.{
  SpfResult, spf_none, spf_pass, spf_fail, spf_softfail, spf_neutral, spf_temperror, spf_permerror,
  Spf,
}

unfoldable pub return_const : ℕ → SpfResult
return_const q =
    if q == 43
    then spf_pass
    else if q == 45
    then spf_fail
    else if q == 126
    then spf_softfail
    else if q == 63
    then spf_neutral
    else spf_permerror

-- `this.count++`
abbrev pub counted : Spf → Spf
counted spf = record spf { count = spf.count + 1 }

-- `/\/(\d+)(?:\/\/(\d+))?$/`, at the first place where it matches.
unfoldable find_masks : Text → Option (Text × Option Text)
unfolding masks
find_masks [] = none
find_masks (c ∷ s) = elim (masks (c ∷ s)) [ some m ↦ some m | none ↦ find_masks s ]

-- `/^:([^/ ]+)/`
unfoldable host_of : Text → Option Text
unfolding span_host
host_of [] = none
host_of (c ∷ s) =
    let (host, rest) = span_host s in if c == 58 && not (is_empty host) then some host else none

-- The domain that a mechanism is about.
unfoldable pub target : Option Text → Spf → Text
unfolding host_of
target args spf = elim args [
  | none ↦ spf.domain
  | some s ↦ elim (host_of s) [ none ↦ spf.domain | some host ↦ host ]
]

unfoldable masks_of : Option Text → Option (Text × Option Text)
unfolding find_masks
masks_of args = elim args [ none ↦ none | some s ↦ find_masks s ]

-- The mask for the version of the address.
unfoldable pub cidr_of : Version → Option Text → Option Text
unfolding masks_of
cidr_of v args = elim (masks_of args) [
  | none ↦ none
  | some (four, six) ↦ elim v [ ipv4 ↦ some four | ipv6 ↦ six ]
]

-- In `mech_mx` the second group holds the two slashes with the mask.
unfoldable pub mx_cidr_of : Version → Option Text → Option Text
unfolding masks_of
mx_cidr_of v args = elim (masks_of args) [
  | none ↦ none
  | some (four, six) ↦ elim v [
    | ipv4 ↦ some four
    | ipv6 ↦ elim six [ none ↦ none | some n ↦ some (47 ∷ 47 ∷ n) ]
  ]
]

-- `ipaddr.parse(address)` and `match`.
unfoldable pub in_range : Net → Spf → Text → Text → Run Bool
in_range net spf cidr address = elim (net.kind address) [
  | none ↦ threw
  | some v ↦ elim (net.matches spf.ipaddr address cidr) [ none ↦ threw | some b ↦ done b ]
]

-- Whether an address is the client's.
unfoldable pub is_client : Net → Spf → Option Text → Text → Run Bool
unfolding in_range
is_client net spf cidr address = elim cidr [
  | none ↦ done (text_eq address spf.ip)
  | some c ↦ in_range net spf c address
]

unfoldable pub any_client : Net → Spf → Option Text → List Text → Run Bool
unfolding is_client
any_client net spf cidr [] = done false
any_client net spf cidr (address ∷ rest) =
    let later = any_client net spf cidr rest in
    is_client net spf cidr address >>= λ b. if b then done true else later

unfoldable pub verdict : ℕ → Bool → SpfResult
unfolding return_const
verdict q b = if b then return_const q else spf_none

unfoldable pub mech_all : ℕ → Option Text → Spf → Run (SpfResult × Spf)
unfolding return_const
mech_all q args spf = done (return_const q, spf)

-- `substr` of no argument throws.
unfoldable pub mech_exists : Net → ℕ → Option Text → Spf → Run (SpfResult × Spf)
unfolding return_const
mech_exists net q args spf = elim args [
  | none ↦ threw
  | some s ↦ elim (net.resolve (drop 1 s)) [
    | found addrs ↦ done (return_const q, counted spf)
    | absent ↦ done (spf_none, counted spf)
    | failed ↦ done (spf_temperror, counted spf)
  ]
]

unfoldable pub mech_a : Net → ℕ → Option Text → Spf → Run (SpfResult × Spf)
unfolding target cidr_of any_client verdict
mech_a net q args spf = elim (net.resolve_ip spf.ip_ver (target args spf)) [
  | found addrs ↦
      any_client net spf (cidr_of spf.ip_ver args) addrs >>= λ b. done (verdict q b, counted spf)
  | absent ↦ done (spf_none, counted spf)
  | failed ↦ done (spf_temperror, counted spf)
]

-- The names of the client that its own address confirms, once for each address that is the client's.
unfoldable confirmed : Spf → Text → List Text → List Text
confirmed spf name [] = []
confirmed spf name (address ∷ rest) =
    let later = confirmed spf name rest in
    if text_eq address spf.ip then map to_lower name ∷ later else later

unfoldable ptr_names : Net → Spf → List Text → List Text
unfolding confirmed
ptr_names net spf [] = []
ptr_names net spf (name ∷ names) =
    let later = ptr_names net spf names in
    elim (net.resolve_ip spf.ip_ver name) [
      | found addrs ↦ confirmed spf name addrs ++ later
      | absent ↦ later
      | failed ↦ later
    ]

-- `replace('.', '\\.')`, once
unfoldable escape_dot : Text → Text
escape_dot [] = []
escape_dot (c ∷ s) = if c == 46 then 92 ∷ 46 ∷ s else c ∷ escape_dot s

unfoldable pub any_name : (Text → Bool) → List Text → Bool
any_name test [] = false
any_name test (name ∷ names) = if test name then true else any_name test names

unfoldable ptr_verdict : Net → ℕ → Text → List Text → SpfResult
unfolding escape_dot any_name verdict
ptr_verdict net q domain names = elim (net.regexp (escape_dot domain ++ codes "$")) [
  | none ↦ spf_permerror
  | some test ↦ verdict q (any_name test names)
]

unfoldable pub mech_ptr : Net → ℕ → Option Text → Spf → Run (SpfResult × Spf)
unfolding target ptr_names ptr_verdict
mech_ptr net q args spf = elim (net.reverse_lookup spf.ip) [
  | found ptrs ↦
      if ltb 10 (length ptrs)
      then done (spf_permerror, counted spf)
      else if is_empty ptrs
      then done (spf_none, counted spf)
      else done
          (ptr_verdict net q (target args spf) (ptr_names net spf (net.arrival ptrs)), counted spf)
  | absent ↦ done (spf_none, counted spf)
  | failed ↦ done (spf_none, counted spf)
]

-- `/^([^/ ]+)(?:\/(\d+))?$/`: the address and the mask.
unfoldable pub read_range : Text → Option (Text × Option Text)
unfolding span_host
read_range s =
    let (host, rest) = span_host s in
    if is_empty host then none else elim rest [
      | [] ↦ some (host, none)
      | d ∷ t ↦
          if d == 47 && (not (is_empty t) && all is_digit t) then some (host, some t) else none
    ]

unfoldable default_mask : Version → Text
default_mask ipv4 = codes "32"
default_mask ipv6 = codes "128"

unfoldable same_version : Version → Version → Bool
same_version ipv4 ipv4 = true
same_version ipv6 ipv6 = true
same_version _ _ = false

-- The `try` of `mech_ip`: what ipaddr.js throws is a permanent error.
unfoldable ip_verdict : Net → ℕ → Spf → Text → Option Text → SpfResult
unfolding same_version default_mask verdict
ip_verdict net q spf range mask =
    let bits : Text = elim mask [ none ↦ default_mask spf.ip_ver | some n ↦ n ] in
    elim (net.kind range) [
      | none ↦ spf_permerror
      | some v ↦
          if not (same_version spf.ip_ver v)
          then spf_none
          else elim (net.matches spf.ipaddr range bits) [
            | none ↦ spf_permerror
            | some b ↦ verdict q b
          ]
    ]

unfoldable pub mech_ip : Net → ℕ → Option Text → Spf → Run (SpfResult × Spf)
unfolding read_range ip_verdict
mech_ip net q args spf = elim args [
  | none ↦ threw
  | some s ↦ elim (read_range (drop 1 s)) [
    | none ↦ done (spf_none, spf)
    | some (range, mask) ↦ done (ip_verdict net q spf range mask, spf)
  ]
]
