-- ===== src/Connection/Size.antt =====
-- The size limit of a message, in email/connection.js.
use companyly_microservices.Base.{
  ◌+◌, ◌<◌, false, ◌≡◌, some, ◌∷◌, Text, arith, if◌then◌else◌, length,
}
use companyly_microservices.Transaction.State.{Transaction}
use companyly_microservices.Connection.State.{Config, Connection, max_data_exceeded}
use companyly_microservices.Connection.Reset.{Env, closing, run_hooks, pause}
use companyly_microservices.Connection.Data.{
  is_end, is_bare_end, take_line, data_done, accumulate_data,
}
use companyly_microservices.Connection.Rest.{replies, hooks}

module _ {M : Type 0} (env : Env M) (cfg : Config) (again : Connection M → Connection M) where
  accumulate_data_lem :
      (line : Text) (c : Connection M) (t : Transaction M)
      → c.transaction ≡ some t
      → accumulate_data env cfg again line c
        ≡ take_line env cfg again line
            (record t { data_bytes = t.data_bytes + length line })
            (record c { transaction = some (record t { data_bytes = t.data_bytes + length line }) })
  unfolding accumulate_data
  accumulate_data_lem line c t at = ground arith

  -- On an open connection with a size limit, a line of DATA that takes the message past it changes
  -- the transaction in the count of bytes only, and sends nothing, unless it is a dot with a bare
  -- line feed. The line with the final dot starts the hook `max_data_exceeded`, and with it no
  -- queueing, and any other starts no hook.
  pub accumulate_data-too_big :
      (line : Text) (c : Connection M) (t : Transaction M)
      → c.transaction ≡ some t
      → closing c.state ≡ false
      → 0 < cfg.max_bytes
      → cfg.max_bytes < t.data_bytes + length line
      → is_bare_end line ≡ false
      → ((accumulate_data env cfg again line c).transaction
          ≡ some (record t { data_bytes = t.data_bytes + length line }))
        × (replies (accumulate_data env cfg again line c).events ≡ replies c.events)
        × (hooks (accumulate_data env cfg again line c).events
            ≡ (if is_end line then max_data_exceeded ∷ hooks c.events else hooks c.events))
  unfolding take_line data_done pause run_hooks
  accumulate_data-too_big line c t at h pos big bare =
      rw (accumulate_data_lem line c t at) ((ground arith), (ground arith), (ground arith))
