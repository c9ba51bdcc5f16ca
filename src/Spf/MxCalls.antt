-- ===== src/Spf/MxCalls.antt =====
-- `mech_mx` of email/spf.js, reply by reply.
use companyly_microservices.Base.{
  ℕ, ◌-◌, Option, List, [], ◌∷◌, ◌++◌, Text, ◌==◌, not, if◌then◌else◌, is_empty, map, length, ltb,
}
use companyly_microservices.Spf.Net.{Answer, found, absent, failed, Net}
use companyly_microservices.Spf.Run.{Run, done, silent, ◌>>=◌}
use companyly_microservices.Spf.{SpfResult, spf_none, spf_temperror, spf_permerror, Spf}
use companyly_microservices.Spf.Mechanisms.{counted, target, mx_cidr_of, any_client, verdict}

-- What `mech_mx` keeps while the replies arrive, and how it has called back so far.
pub record MxWait : Type 0 where
  pub pending : ℕ
  pub addresses : List Text
  pub calls : List (Run SpfResult)

-- The end of the last reply.
unfoldable pub mx_verdict : Net → Spf → ℕ → Option Text → List Text → Run SpfResult
unfolding any_client verdict
mx_verdict net spf q cidr addresses = any_client net spf cidr addresses >>= λ b. done (verdict q b)

unfoldable pub mx_finish : Net → Spf → ℕ → Option Text → MxWait → MxWait
unfolding mx_verdict
mx_finish net spf q cidr w =
    if not (w.pending == 0)
    then w
    else record w { calls = w.calls ++ mx_verdict net spf q cidr w.addresses ∷ [] }

-- A reply to the lookup of one exchange: an error that is not an absence returns at once.
unfoldable pub mx_reply : Net → Spf → ℕ → Option Text → Answer (List Text) → MxWait → MxWait
unfolding mx_finish
mx_reply net spf q cidr (found addrs) w =
    mx_finish net spf q cidr
      (record w { pending = w.pending - 1; addresses = addrs ++ w.addresses })
mx_reply net spf q cidr absent w = mx_finish net spf q cidr (record w { pending = w.pending - 1 })
mx_reply net spf q cidr failed w = record w {
  pending = w.pending - 1;
  calls = w.calls ++ done spf_temperror ∷ [];
}

unfoldable pub mx_replies :
    Net → Spf → ℕ → Option Text → List (Answer (List Text)) → MxWait → MxWait
unfolding mx_reply
mx_replies net spf q cidr [] w = w
mx_replies net spf q cidr (r ∷ rs) w = mx_replies net spf q cidr rs (mx_reply net spf q cidr r w)

-- Every call of the callback, in order, once the exchanges are known.
unfoldable pub mx_calls : Net → ℕ → Option Text → Spf → List Text → List (Run SpfResult)
unfolding mx_replies mx_cidr_of
mx_calls net q args spf mxes =
    if ltb 10 (length mxes)
    then done spf_permerror ∷ []
    else if is_empty mxes
    then done spf_none ∷ []
    else (mx_replies net spf q (mx_cidr_of spf.ip_ver args)
        (map (net.resolve_ip spf.ip_ver) (net.arrival mxes))
        (record { pending = length mxes; addresses = []; calls = [] })).calls

-- What the check goes on with.
unfoldable pub first_call : List (Run SpfResult) → Run SpfResult
first_call [] = silent
first_call (r ∷ rs) = r

unfoldable pub mech_mx : Net → ℕ → Option Text → Spf → Run (SpfResult × Spf)
unfolding target mx_calls first_call
mech_mx net q args spf = elim (net.get_mx (target args spf)) [
  | found mxes ↦ first_call (mx_calls net q args spf mxes) >>= λ r. done (r, counted spf)
  | absent ↦ done (spf_none, counted spf)
  | failed ↦ done (spf_temperror, counted spf)
]
