-- ===== src/HostPool/Probe.antt =====
-- The marks of email/host_pool.js: set by a failure, taken back by a probe that connects.
use companyly_microservices.Base.{
  true, false, ◌≡◌, refl, List, [], ◌∷◌, Text, arith, if◌then◌else◌, any, text_eq,
}
use companyly_microservices.HostPool.{
  Host, HostPool, key, is_dead, remove_key, failed, alive, still_dead, probe_dead_host,
}

text_eq_sound : (s t : Text) → text_eq s t ≡ true → s ≡ t
unfolding text_eq
text_eq_sound [] [] h = refl
text_eq_sound [] (b ∷ t) h = cc
text_eq_sound (a ∷ s) [] h = cc
text_eq_sound (a ∷ s) (b ∷ t) h = ground (arith, text_eq_sound s t)

text_eq_refl : (s : Text) → text_eq s s ≡ true
unfolding text_eq
text_eq_refl [] = refl
text_eq_refl (a ∷ s) = ground (arith, text_eq_refl s)

any-remove_key :
    (g k : Text) (ks : List Text)
    → any (text_eq g) (remove_key k ks) ≡ (if text_eq g k then false else any (text_eq g) ks)
unfolding any remove_key
any-remove_key g k [] = ground arith
any-remove_key g k (j ∷ ks) = ground (
  arith,
  any-remove_key g k ks,
  text_eq_sound k j,
  text_eq_sound g k,
  text_eq_sound g j,
  text_eq_refl k,
  text_eq_refl g,
)

-- After a failure and a probe that connects, the host and all that share its key are not marked
-- dead, even if they were before; every other host is marked as before the failure.
pub probe-failed :
    (h g : Host) (p : HostPool)
    → is_dead (probe_dead_host true h (failed h p)) g
      ≡ (if text_eq (key g) (key h) then false else is_dead p g)
unfolding probe_dead_host alive failed is_dead any
probe-failed h g p = ground (arith, any-remove_key (key g) (key h) (key h ∷ p.dead_hosts))

-- A probe that does not connect leaves the host marked dead and has it probed again.
probe-dead :
    (h : Host) (p : HostPool)
    → (is_dead (probe_dead_host false h p) h ≡ true)
      × ((probe_dead_host false h p).probes ≡ h ∷ p.probes)
unfolding probe_dead_host still_dead is_dead any
probe-dead h p = (ground (arith, text_eq_refl (key h)), refl)
