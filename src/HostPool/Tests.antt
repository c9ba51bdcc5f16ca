-- ===== src/HostPool/Tests.antt =====
-- The host pool of email/host_pool.js at concrete inputs.
use companyly_microservices.Base.{ℕ, ◌≡◌, ◌⊎◌, false, true, [], ◌∷◌, codes, if◌then◌else◌, text_eq}
use companyly_microservices.HostPool.{
  Host, HostPool, key, is_dead, new_pool, failed, probe_dead_host,
}
use companyly_microservices.HostPool.Choice.{Given, Retried, get_host-Given}
use companyly_microservices.HostPool.Probe.{probe-failed}

abbrev first : Host
first = record { host = codes "1.1.1.1"; port = codes "11" }

abbrev second : Host
second = record { host = codes "2.2.2.2"; port = codes "22" }

abbrev pool : HostPool
pool = failed second (new_pool (first ∷ second ∷ []))

get_host-Given_example : Retried pool ⊎ ((n : ℕ) × Given pool n)
get_host-Given_example = get_host-Given pool

probe-failed_example :
    is_dead (probe_dead_host true first (failed first pool)) second
    ≡ (if text_eq (key second) (key first) then false else is_dead pool second)
probe-failed_example = probe-failed first second pool
