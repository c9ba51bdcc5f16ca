-- ===== src/Outbound/Item/Hosts.antt =====
-- The choice of the host in email/outbound/hmail.js: the hook `get_mx`, the MX records, the addresses
-- of each, and the connection.
use companyly_microservices.Base.{
  ℕ, ◌*◌, Bool, false, Option, none, some, List, [], ◌∷◌, ◌++◌, Text, ◌&&◌, ◌||◌, not, ◌==◌,
  if◌then◌else◌, is_empty, codes, length,
}
use companyly_microservices.Rfc1869.{all}
use companyly_microservices.Outbound.Delivery.Reply.{is_digit, until_eol}
use companyly_microservices.Outbound.Mx.{MxRecord, sort_mx, with_families}
use companyly_microservices.Outbound.Item.State.{
  Verdict, ok, deny, denysoft, delay, Dsn, addr_bad_dest_system, addr_unspecified, lookup_mx,
  hook_get_mx, note_dsn, resolve, get_client, deliver_on_socket, later, next_cb, no_match,
  HMailItem, Config,
}
use companyly_microservices.Outbound.Item.{emit, bounce, temp_fail}

-- The errors of the MX lookup.
pub data DnsError : Type 0 where
  not_found no_mx : DnsError
  transient : Text → DnsError

-- A null MX record.
unfoldable is_null_mx : {B : Type 0} → List (MxRecord B) → Bool
is_null_mx (m ∷ []) = m.priority == 0 && is_empty m.exchange
is_null_mx _ = false

-- What a plugin gives for `get_mx`: objects, or a text with a host and perhaps a port.
pub data Given (B : Type 0) : Type 0 where
  objects : List (MxRecord B) → Given B
  host_name : Text → Given B

-- `/^(.*?)(:(\d+))?$/` on a text of one line: the host ends at the first colon behind which all is
-- digits.
unfoldable host_port : Text → Text × Option Text
host_port [] = ([], none)
host_port (c ∷ s) =
    let (host, port) = host_port s in
    if c == 58 && (not (is_empty s) && all is_digit s) then ([], some s) else (c ∷ host, port)

unfoldable given_list : {B : Type 0} → Given B → Option (List (MxRecord B))
unfolding host_port
given_list (objects ms) = some ms
given_list (host_name s) =
    let (host, port) = host_port s in
    if length (until_eol s) == length s
    then some (
        record {
          priority = 0;
          exchange = host;
          port = port;
          path = none;
          using_lmtp = false;
          family = none;
          settings = none;
        }
        ∷ [])
    else none

module _ {A B : Type 0} (cfg : Config B) where
  abbrev pub domain : HMailItem A B → Text
  domain h = elim h.todo [ none ↦ [] | some t ↦ t.domain ]

  -- A DSN on every recipient, and the bounce or the deferral.
  unfoldable bounce_with : Text → HMailItem A B → HMailItem A B
  bounce_with text h = bounce text (emit (note_dsn (addr_bad_dest_system text none)) h)

  unfoldable pub defer_with : Text → Dsn → HMailItem A B → HMailItem A B
  defer_with text dsn h = temp_fail cfg text (emit (note_dsn dsn) h)

  -- The next host, whose connection is asked for.
  unfoldable pub connect_to : MxRecord B → Text → List Text → HMailItem A B → HMailItem A B
  connect_to mx host hosts h =
      emit (get_client (cfg.fill mx) (elim mx.path [ none ↦ host | some path ↦ path ]))
        (record h { hostlist = hosts })

  unfoldable pub try_deliver : HMailItem A B → HMailItem A B
  unfolding defer_with connect_to
  try_deliver h = elim h.mxlist [
    | [] ↦
        defer_with (codes "Tried all MXs")
          (addr_bad_dest_system (codes "Tried all MXs " ++ domain h) none) h
    | mx ∷ rest ↦
        let asked : Bool = elim h.todo [ none ↦ false | some t ↦ t.force_tls ] in
        let force = asked || (cfg.forced_host mx.exchange || cfg.forced_host (domain h)) in
        let h' = record h { mxlist = rest; force_tls = force } in
        if not asked && cfg.is_ip mx.exchange
        then connect_to mx mx.exchange [] h'
        else emit (resolve mx) h'
  ]

  unfoldable pub try_deliver_host : MxRecord B → HMailItem A B → HMailItem A B
  unfolding try_deliver connect_to
  try_deliver_host mx h = elim h.hostlist [
    | [] ↦ try_deliver h
    | host ∷ hosts ↦ connect_to mx host hosts h
  ]

  -- The callbacks of the address lookup, which may fail, and of the pool of connections.
  unfoldable pub resolved : MxRecord B → Option (List Text) → HMailItem A B → HMailItem A B
  unfolding try_deliver try_deliver_host
  resolved mx none h = try_deliver h
  resolved mx (some []) h = try_deliver h
  resolved mx (some (host ∷ hosts)) h = try_deliver_host mx (record h { hostlist = host ∷ hosts })

  unfoldable pub got_client : MxRecord B → Text → Bool → HMailItem A B → HMailItem A B
  unfolding try_deliver_host
  got_client mx host connected h =
      if connected then emit (deliver_on_socket mx host) h else try_deliver_host mx h

  -- The callback of the MX lookup, with the records or an error.
  unfoldable mx_failed : DnsError → HMailItem A B → HMailItem A B
  unfolding bounce_with defer_with
  mx_failed not_found h = bounce_with (codes "No Such Domain: " ++ domain h) h
  mx_failed no_mx h = bounce_with (codes "Nowhere to deliver mail to for domain: " ++ domain h) h
  mx_failed (transient err) h =
      defer_with (codes "DNS lookup failure: " ++ err)
        (addr_unspecified (codes "DNS lookup failure: " ++ domain h)) h

  unfoldable pub found_mx : (ℕ → Bool) → List (MxRecord B) → HMailItem A B → HMailItem A B
  unfolding is_null_mx bounce_with try_deliver
  found_mx coin mxs h =
      let sorted = sort_mx coin mxs in
      if is_null_mx sorted
      then bounce_with
          (codes "Domain " ++ (domain h ++ codes " sends and receives no email (NULL MX)")) h
      else try_deliver (record h { mxlist = with_families cfg.ipv6_enabled sorted })

  unfoldable pub get_mx : HMailItem A B → HMailItem A B
  get_mx h = emit hook_get_mx h

  unfoldable pub get_mx_respond : Verdict → (ℕ → Bool) → Given B → HMailItem A B → HMailItem A B
  unfolding given_list found_mx bounce_with defer_with
  get_mx_respond ok coin mx h = elim (given_list mx) [
    | none ↦ emit no_match h
    | some mxs ↦ found_mx coin mxs h
  ]
  get_mx_respond deny coin mx h = bounce_with (codes "No MX for " ++ domain h) h
  get_mx_respond denysoft coin mx h =
      let text = codes "Temporary MX lookup error for " ++ domain h in
      defer_with text (addr_bad_dest_system text (some 450)) h
  get_mx_respond v coin mx h = emit lookup_mx h

  unfoldable send_email_respond : Verdict → ℕ → HMailItem A B → HMailItem A B
  unfolding get_mx
  send_email_respond delay seconds h = emit (later (seconds * 1000)) (emit next_cb h)
  send_email_respond v seconds h = get_mx h
