-- ===== src/HostPool/Choice.antt =====
-- Which host `get_host` of email/host_pool.js gives out.
use companyly_microservices.Base.{
  ℕ, zero, suc, ◌+◌, ◌-◌, ◌≤◌, ◌<◌, Bool, true, false, ◌≡◌, refl, none, some, arith, if◌then◌else◌,
  length, get_elem?, get_elem?-lt, leb, inl, inr, ◌⊎◌, Bool-cases, ◌==◌, ==_iff, sym, ◌∙◌,
}
use mathlib.Core.Bool.{false≢true}
use companyly_microservices.HostPool.{
  Host, HostPool, is_dead, first_index, wrap, search_live, get_host,
}

-- Whether the host at an index is not dead.
abbrev live_at : HostPool → ℕ → Bool
live_at p j = elim (get_elem? p.hosts j) [
  | none ↦ false
  | some h ↦ if is_dead p h then false else true
]

wrap-lt : (p : HostPool) (i : ℕ) → i < length p.hosts → wrap p i < length p.hosts
unfolding wrap
wrap-lt p i h = ground arith

-- The rounds before round `n` meet dead hosts only.
abbrev AllDead : HostPool → ℕ → ℕ → Type 0
AllDead p from n = (k : ℕ) → from ≤ k → k < n → live_at p (wrap p k) ≡ false

AllDead-step :
    (p : HostPool) (i n : ℕ) → live_at p (wrap p i) ≡ false → AllDead p (i + 1) n → AllDead p i n
AllDead-step p i n d a k b c = elim (Bool-cases (k == i)) [
  | inl e ↦ rw ((==_iff k i).0 e) d
  | inr e ↦ a k (ground arith) c
]

search_live_lem :
    (p : HostPool) (left i : ℕ)
    → i + left ≡ length p.hosts
    → ((search_live p left i ≡ none) × AllDead p i (length p.hosts))
      ⊎ ((n : ℕ) × (i ≤ n)
          × (n < length p.hosts)
          × (search_live p left i ≡ some (wrap p n))
          × (live_at p (wrap p n) ≡ true)
          × AllDead p i n)
unfolding search_live
search_live_lem p zero i e = inl (refl, λ k a b. absurd (omega arith))
search_live_lem p (suc left) i e =
    let (h, g) = get_elem?-lt p.hosts (wrap p i) (wrap-lt p i (omega arith)) in
    elim (Bool-cases (is_dead p h)) [
      | inr l ↦
          inr
            (i, omega arith, omega arith, ground arith, ground arith, λ k a b. absurd (omega arith))
      | inl d ↦ elim (search_live_lem p left (i + 1) (omega arith)) [
        | inl r ↦ inl (ground arith, AllDead-step p i _ (ground arith) r.1)
        | inr r ↦
            inr (r.0, omega arith, r.2, ground arith, r.4, AllDead-step p i _ (ground arith) r.5)
      ]
    ]

-- The rounds reach every host.
wrap_onto :
    (p : HostPool) (j : ℕ) → j < length p.hosts → (k : ℕ) × (k < length p.hosts) × (wrap p k ≡ j)
unfolding wrap first_index
wrap_onto p j h =
    let k =
      if leb (first_index p) j then j - first_index p else j + length p.hosts - first_index p in
    (k, ground arith, ground arith)

-- What `get_host` gives, by the first round that meets a host which is not dead.
abbrev pub Given : HostPool → ℕ → Type 0
Given p n =
    (n < length p.hosts)
    × (live_at p (wrap p n) ≡ true)
    × AllDead p 0 n
    × ((get_host p).0 ≡ get_elem? p.hosts (wrap p n))
    × ((get_host p).1 ≡ record p { last_i = wrap p n })

-- Where all hosts are dead, the next one in turn is given all the same.
abbrev pub Retried : HostPool → Type 0
Retried p =
    ((j : ℕ) → j < length p.hosts → live_at p j ≡ false)
    × ((get_host p).0 ≡ get_elem? p.hosts (first_index p))
    × ((get_host p).1 ≡ record p { last_i = first_index p })

-- `get_host` gives the first host in turn, from behind the last one given and once round the pool,
-- that is not marked dead, and remembers it; if all are marked dead it gives the next one in turn
-- and remembers that. The marks stay as they are.
pub get_host-Given : (p : HostPool) → Retried p ⊎ ((n : ℕ) × Given p n)
unfolding get_host
get_host-Given p = elim (search_live_lem p (length p.hosts) 0 (omega arith)) [
  | inl r ↦ inl (
    λ j h. let (k, a, b) = wrap_onto p j h in rw b at (r.1 k (omega arith) a),
    ground arith,
    ground arith,
  )
  | inr r ↦ inr (r.0, (r.2, r.4, r.5, ground arith, ground arith))
]

-- A host that is not marked dead is given whenever there is one.
get_host-live :
    (p : HostPool) (j : ℕ)
    → j < length p.hosts
    → live_at p j ≡ true
    → (h : Host) × ((get_host p).0 ≡ some h) × (is_dead p h ≡ false)
get_host-live p j h l = elim (get_host-Given p) [
  | inl r ↦ absurd (false≢true (sym (r.0 j h) ∙ l))
  | inr (n, (a, b, d, e, f)) ↦
      let (x, g) = get_elem?-lt p.hosts (wrap p n) (wrap-lt p n a) in (x, e ∙ g, ground arith)
]
