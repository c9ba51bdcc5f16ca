-- ===== src/HostPool.antt =====
-- email/host_pool.js: a pool of backend hosts that skips the hosts marked dead. The shuffle of the
-- hosts and the outcome of a probe come from outside; a timer that waits is an entry of `probes`.
pub mod Choice
pub mod Probe
pub mod Tests
use companyly_microservices.Base.{
  ℕ, zero, suc, ◌+◌, ◌-◌, Bool, true, false, Option, none, some, List, [], ◌∷◌, ◌++◌, Text, ◌||◌,
  leb, if◌then◌else◌, length, get_elem?, text_eq, codes, any,
}

pub record Host : Type 0 where
  pub host : Text
  pub port : Text

-- `dead_hosts` holds the keys that are set; `probes` the hosts with a probe to come.
pub record HostPool : Type 0 where
  pub hosts : List Host
  pub dead_hosts : List Text
  pub last_i : ℕ
  pub probes : List Host

-- `${host}:${port}`
unfoldable pub key : Host → Text
key h = h.host ++ codes ":" ++ h.port

unfoldable pub is_dead : HostPool → Host → Bool
is_dead p h = any (text_eq (key h)) p.dead_hosts

-- The constructor, on the shuffled hosts.
unfoldable pub new_pool : List Host → HostPool
new_pool hosts = record { hosts = hosts; dead_hosts = []; last_i = 0; probes = [] }

-- `delete self.dead_hosts[key]`
unfoldable pub remove_key : Text → List Text → List Text
remove_key k [] = []
remove_key k (j ∷ ks) = if text_eq k j then remove_key k ks else j ∷ remove_key k ks

unfoldable pub failed : Host → HostPool → HostPool
failed h p = record p { dead_hosts = key h ∷ p.dead_hosts; probes = h ∷ p.probes }

-- `cb_if_still_dead`
unfoldable pub still_dead : Host → HostPool → HostPool
still_dead h p = record p { dead_hosts = key h ∷ p.dead_hosts; probes = h ∷ p.probes }

-- `cb_if_alive`
unfoldable pub alive : Host → HostPool → HostPool
unfolding remove_key
alive h p = record p { dead_hosts = remove_key (key h) p.dead_hosts }

-- The timer of a host has fired, and its entry is gone: the probe connects, or fails.
unfoldable pub probe_dead_host : Bool → Host → HostPool → HostPool
probe_dead_host true h p = alive h p
probe_dead_host false h p = still_dead h p

unfoldable pub first_index : HostPool → ℕ
first_index p = if leb (length p.hosts) (p.last_i + 1) then 0 else p.last_i + 1

-- `j`, from the round and the first index.
unfoldable pub wrap : HostPool → ℕ → ℕ
unfolding first_index
wrap p i = let j = i + first_index p in if leb (length p.hosts) j then j - length p.hosts else j

-- The loop: `left` rounds are left, the next is round `i`; the index of the first host not dead.
unfoldable pub search_live : HostPool → ℕ → ℕ → Option ℕ
search_live p zero i = none
search_live p (suc left) i =
    let rest = search_live p left (i + 1) in
    elim (get_elem? p.hosts (wrap p i)) [
      | none ↦ none
      | some h ↦ if is_dead p h then rest else some (wrap p i)
    ]

unfoldable pub get_host : HostPool → Option Host × HostPool
get_host p = elim (search_live p (length p.hosts) 0) [
  | some j ↦ (get_elem? p.hosts j, record p { last_i = j })
  | none ↦ (get_elem? p.hosts (first_index p), record p { last_i = first_index p })
]
