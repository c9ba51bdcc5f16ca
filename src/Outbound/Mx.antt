-- ===== src/Outbound/Mx.antt =====
-- The mail exchangers of a domain in email/outbound/hmail.js: their order and the address families.
pub mod Order
pub mod Tests
use companyly_microservices.Base.{
  ℕ, ◌+◌, Bool, true, false, Option, none, some, List, [], ◌∷◌, Text, ◌&&◌, ◌==◌, ltb,
  if◌then◌else◌,
}

pub data Family : Type 0 where
  a aaaa : Family

-- An MX record, or what a plugin gives in its place. `Bind` is what else a plugin may set: the
-- address to bind, the name for HELO and the credentials.
pub record MxRecord (Bind : Type 0) : Type 0 where
  pub priority : ℕ
  pub exchange : Text
  pub port : Option Text
  pub path : Option Text
  pub using_lmtp : Bool
  pub family : Option Family
  pub settings : Option Bind

module _ {B : Type 0} where
  -- `sort` by the priority, which is stable.
  unfoldable pub insert : MxRecord B → List (MxRecord B) → List (MxRecord B)
  insert m [] = m ∷ []
  insert m (n ∷ ns) = if ltb n.priority m.priority then n ∷ insert m ns else m ∷ n ∷ ns

  unfoldable pub sort : List (MxRecord B) → List (MxRecord B)
  unfolding insert
  sort [] = []
  sort (m ∷ ms) = insert m (sort ms)

  -- The loop from the element `m` on; `coin i` is the random choice of round `i`.
  unfoldable pub shuffle_from : (ℕ → Bool) → ℕ → MxRecord B → List (MxRecord B) → List (MxRecord B)
  shuffle_from coin i m [] = m ∷ []
  shuffle_from coin i m (n ∷ ns) =
      let swapped = m.priority == n.priority && coin i in
      (if swapped then n else m) ∷ shuffle_from coin (i + 1) (if swapped then m else n) ns

  unfoldable pub shuffle : (ℕ → Bool) → List (MxRecord B) → List (MxRecord B)
  unfolding shuffle_from
  shuffle coin [] = []
  shuffle coin (m ∷ ms) = shuffle_from coin 0 m ms

  unfoldable pub sort_mx : (ℕ → Bool) → List (MxRecord B) → List (MxRecord B)
  unfolding sort shuffle
  sort_mx coin ms = shuffle coin (sort ms)

  -- One entry of the list for each family that is asked for.
  unfoldable pub with_families : Bool → List (MxRecord B) → List (MxRecord B)
  with_families ipv6 [] = []
  with_families ipv6 (m ∷ ms) =
      let rest = with_families ipv6 ms in
      elim m.path [
        | some p ↦ m ∷ rest
        | none ↦
            if ipv6
            then record {
              priority = m.priority;
              exchange = m.exchange;
              port = m.port;
              path = none;
              using_lmtp = m.using_lmtp;
              family = some aaaa;
              settings = none;
            }
              ∷ record {
                priority = m.priority;
                exchange = m.exchange;
                port = m.port;
                path = none;
                using_lmtp = m.using_lmtp;
                family = some a;
                settings = none;
              }
              ∷ rest
            else record m { family = some a } ∷ rest
      ]
