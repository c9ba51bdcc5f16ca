-- ===== src/Outbound/Mx/Order.antt =====
-- The order in which email/outbound/hmail.js tries the mail exchangers of a domain.
use mathlib.Core.List.{Perm}
use mathlib.Core.List.Perm
use companyly_microservices.Base.{
  ℕ, ◌+◌, ◌≤◌, Bool, true, ◌≡◌, refl, inl, inr, none, List, [], ◌∷◌, arith, All, ltb, ◌==◌, ◌&&◌,
  Bool-cases,
}
use companyly_microservices.Outbound.Mx.{
  MxRecord, insert, sort, shuffle_from, shuffle, sort_mx, with_families,
}

module _ {B : Type 0} where
  -- No entry stands before one of a lower priority number.
  abbrev pub IsOrdered : List (MxRecord B) → Type 0
  IsOrdered [] = Unit
  IsOrdered (m ∷ ms) = All (λ n. m.priority ≤ n.priority) ms × IsOrdered ms

  All-insert :
      (k : ℕ) (m : MxRecord B) (ms : List (MxRecord B))
      → k ≤ m.priority
      → All (λ n. k ≤ n.priority) ms
      → All (λ n. k ≤ n.priority) (insert m ms)
  unfolding insert
  All-insert k m [] h all = (h, all)
  All-insert k m (n ∷ ns) h (h', all) = elim (Bool-cases (ltb n.priority m.priority)) [
    | inl e ↦ rw e (h', All-insert k m ns h all)
    | inr e ↦ rw e (h, (h', all))
  ]

  All-weaken :
      (k l : ℕ) (ms : List (MxRecord B))
      → k ≤ l
      → All (λ n. l ≤ n.priority) ms
      → All (λ n. k ≤ n.priority) ms
  All-weaken k l [] h all = all
  All-weaken k l (m ∷ ms) h (h', all) = (omega (arith, h, h'), All-weaken k l ms h all)

  insert-IsOrdered :
      (m : MxRecord B) (ms : List (MxRecord B)) → IsOrdered ms → IsOrdered (insert m ms)
  unfolding insert
  insert-IsOrdered m [] o = (tt, tt)
  insert-IsOrdered m (n ∷ ns) (first, o) = elim (Bool-cases (ltb n.priority m.priority)) [
    | inl e ↦
        let le : n.priority ≤ m.priority = ground arith in
        rw e (All-insert n.priority m ns le first, insert-IsOrdered m ns o)
    | inr e ↦
        let le : m.priority ≤ n.priority = ground arith in
        rw e ((le, All-weaken m.priority n.priority ns le first), (first, o))
  ]

  insert-perm : (m : MxRecord B) (ms : List (MxRecord B)) → Perm (insert m ms) (m ∷ ms)
  unfolding insert
  insert-perm m [] = Perm.refl _
  insert-perm m (n ∷ ns) = elim (Bool-cases (ltb n.priority m.priority)) [
    | inl e ↦ rw e (Perm.trans (Perm.cons n (insert-perm m ns)) (Perm.swap m n ns))
    | inr e ↦ rw e (Perm.refl _)
  ]

  sort-IsOrdered : (ms : List (MxRecord B)) → IsOrdered (sort ms)
  unfolding sort
  sort-IsOrdered [] = tt
  sort-IsOrdered (m ∷ ms) = insert-IsOrdered m (sort ms) (sort-IsOrdered ms)

  sort-perm : (ms : List (MxRecord B)) → Perm (sort ms) ms
  unfolding sort
  sort-perm [] = Perm.refl _
  sort-perm (m ∷ ms) = Perm.trans (insert-perm m (sort ms)) (Perm.cons m (sort-perm ms))

  All-shuffle_from :
      (k : ℕ) (coin : ℕ → Bool) (i : ℕ) (m : MxRecord B) (ms : List (MxRecord B))
      → k ≤ m.priority
      → All (λ n. k ≤ n.priority) ms
      → All (λ n. k ≤ n.priority) (shuffle_from coin i m ms)
  unfolding shuffle_from
  All-shuffle_from k coin i m [] h all = (h, all)
  All-shuffle_from k coin i m (n ∷ ns) h (h', all) =
      elim (Bool-cases (m.priority == n.priority && coin i)) [
        | inl e ↦ rw e (h', All-shuffle_from k coin (i + 1) m ns h all)
        | inr e ↦ rw e (h, All-shuffle_from k coin (i + 1) n ns h' all)
      ]

  shuffle_from-IsOrdered :
      (coin : ℕ → Bool) (i : ℕ) (m : MxRecord B) (ms : List (MxRecord B))
      → IsOrdered (m ∷ ms)
      → IsOrdered (shuffle_from coin i m ms)
  unfolding shuffle_from
  shuffle_from-IsOrdered coin i m [] o = o
  shuffle_from-IsOrdered coin i m (n ∷ ns) ((le, all), (all', o)) =
      elim (Bool-cases (m.priority == n.priority && coin i)) [
        | inl e ↦
            let ge : n.priority ≤ m.priority = ground arith in
            rw e (
              All-shuffle_from n.priority coin (i + 1) m ns ge all',
              shuffle_from-IsOrdered coin (i + 1) m ns (all, o),
            )
        | inr e ↦ rw e (
          All-shuffle_from m.priority coin (i + 1) n ns le all,
          shuffle_from-IsOrdered coin (i + 1) n ns (all', o),
        )
      ]

  shuffle_from-perm :
      (coin : ℕ → Bool) (i : ℕ) (m : MxRecord B) (ms : List (MxRecord B))
      → Perm (shuffle_from coin i m ms) (m ∷ ms)
  unfolding shuffle_from
  shuffle_from-perm coin i m [] = Perm.refl _
  shuffle_from-perm coin i m (n ∷ ns) = elim (Bool-cases (m.priority == n.priority && coin i)) [
    | inl e ↦
        rw e (Perm.trans (Perm.cons n (shuffle_from-perm coin (i + 1) m ns)) (Perm.swap m n ns))
    | inr e ↦ rw e (Perm.cons m (shuffle_from-perm coin (i + 1) n ns))
  ]

  shuffle-IsOrdered :
      (coin : ℕ → Bool) (ms : List (MxRecord B)) → IsOrdered ms → IsOrdered (shuffle coin ms)
  unfolding shuffle
  shuffle-IsOrdered coin [] o = o
  shuffle-IsOrdered coin (m ∷ ms) o = shuffle_from-IsOrdered coin 0 m ms o

  shuffle-perm : (coin : ℕ → Bool) (ms : List (MxRecord B)) → Perm (shuffle coin ms) ms
  unfolding shuffle
  shuffle-perm coin [] = Perm.refl _
  shuffle-perm coin (m ∷ ms) = shuffle_from-perm coin 0 m ms

  -- Whatever the random choices: the exchangers are tried by their priority, and each of them as
  -- often as it was given.
  pub sort_mx-IsOrdered :
      (coin : ℕ → Bool) (ms : List (MxRecord B))
      → IsOrdered (sort_mx coin ms) × Perm (sort_mx coin ms) ms
  unfolding sort_mx
  sort_mx-IsOrdered coin ms = (
    shuffle-IsOrdered coin (sort ms) (sort-IsOrdered ms),
    Perm.trans (shuffle-perm coin (sort ms)) (sort-perm ms),
  )

  -- With `ipv6_enabled`, the entries of hosts without a socket's path are tried without what a plugin
  -- has set of them: the address to bind, the name for HELO and the credentials.
  with_families-forgets :
      (ms : List (MxRecord B))
      → All (λ m. m.path ≡ none) ms
      → All (λ m. m.settings ≡ none) (with_families true ms)
  unfolding with_families
  with_families-forgets [] pathless = tt
  with_families-forgets (m ∷ ms) (p, pathless) =
      rw p (refl, (refl, with_families-forgets ms pathless))
