-- ===== src/Spf/Clients.antt =====
-- The lookups of the mechanisms in email/spf.js: where DNS and ipaddr.js do as documented, each calls
-- back.
use companyly_microservices.Base.{
  ℕ, suc, ◌-◌, ◌≡◌, ◌≢◌, refl, ap, Bool, false, inl, inr, Option, none, some, List, [], ◌∷◌, ◌++◌,
  Text, All, length, map, ◌==◌, ◌||◌, ltb, is_empty, arith, Bool-cases, Option-cases,
}
use companyly_microservices.Spf.Net.{Version, ipv6, Answer, found, absent, failed, Net}
use companyly_microservices.Spf.Run.{
  Run, Demand, may_fail, Ends, holds, Ends-bind, Ends-if, Ends-threw, Ends-silent,
}
use companyly_microservices.Spf.Record.{one_record, find_record}
use companyly_microservices.Spf.Mechanisms.{in_range, is_client, any_client, mx_cidr_of}
use companyly_microservices.Spf.MxCalls.{
  mx_verdict, mx_finish, mx_reply, mx_replies, mx_calls, MxWait, first_call,
}
use companyly_microservices.Spf.{SpfResult, Spf}

-- Whether the text has a per cent sign.
abbrev pub has_percent : Text → Bool
has_percent [] = false
has_percent (c ∷ s) = c == 37 || has_percent s

-- The answers are addresses of the version asked for; two addresses of one version can be compared;
-- an address printed is one; every reply arrives; and no record has a per cent sign.
pub record Reliable (net : Net) : Type 0 where
  pub families :
      (v : Version) (name : Text) (l : List Text)
      → net.resolve_ip v name ≡ found l
      → All (λ a. net.kind a ≡ some v) l
  pub ranges :
      (v : Version) (s t bits : Text)
      → net.kind s ≡ some v
      → net.kind t ≡ some v
      → net.matches s t bits ≢ none
  pub printed : (s : Text) → net.kind s ≡ some ipv6 → net.kind (net.print s) ≡ some ipv6
  pub arrivals : (l : List Text) → length (net.arrival l) ≡ length l
  pub plain :
      (name : Text) (rrs : List (List Text)) (s : Text)
      → net.resolve_txt name ≡ found rrs
      → find_record rrs ≡ one_record s
      → has_percent s ≡ false

-- The address of the object, and the text of it that is handed on.
abbrev pub Parsed : Net → Spf → Type 0
Parsed net spf = (net.kind spf.ipaddr ≡ some spf.ip_ver) × (net.kind spf.ip ≡ some spf.ip_ver)

length-zero : (l : List Text) → length l ≡ 0 → l ≡ []
length-zero [] e = refl
length-zero (x ∷ l) e = absurd (omega arith)

length-map {ℓ} : {A B : Type ℓ} (f : A → B) (l : List A) → length (map f l) ≡ length l
length-map f [] = refl
length-map f (x ∷ l) = ap suc (length-map f l)

module _ (d : Demand) (net : Net) (good : may_fail d ≡ false → Reliable net) where
  -- The addresses are of the version of the object's.
  abbrev OfVersion : Spf → List Text → Type 0
  OfVersion spf l = All (λ a. net.kind a ≡ some spf.ip_ver) l

  in_range-Ends :
      (spf : Spf) (cidr a : Text)
      → (may_fail d ≡ false → Parsed net spf)
      → (may_fail d ≡ false → net.kind a ≡ some spf.ip_ver)
      → Ends d (λ b. Unit {0}) (in_range net spf cidr a)
  unfolding in_range
  in_range-Ends spf cidr a parsed known = elim (Option-cases (net.kind a)) [
    | inl e ↦ rw (e, in_range) (Ends-threw d (λ t. let k = known t in cc))
    | inr (v, e) ↦ elim (Option-cases (net.matches spf.ipaddr a cidr)) [
      | inl n ↦
          rw (e, n, in_range)
            (Ends-threw d
              (λ t. (good t).ranges spf.ip_ver spf.ipaddr a cidr (parsed t).0 (known t) n))
      | inr (b, n) ↦ rw (e, n, in_range) (holds tt)
    ]
  ]

  is_client-Ends :
      (spf : Spf) (cidr : Option Text) (a : Text)
      → (may_fail d ≡ false → Parsed net spf)
      → (may_fail d ≡ false → net.kind a ≡ some spf.ip_ver)
      → Ends d (λ b. Unit {0}) (is_client net spf cidr a)
  unfolding is_client
  is_client-Ends spf none a parsed known = holds tt
  is_client-Ends spf (some c) a parsed known = in_range-Ends spf c a parsed known

  pub any_client-Ends :
      (spf : Spf) (cidr : Option Text) (l : List Text)
      → (may_fail d ≡ false → Parsed net spf)
      → (may_fail d ≡ false → OfVersion spf l)
      → Ends d (λ b. Unit {0}) (any_client net spf cidr l)
  unfolding any_client
  any_client-Ends spf cidr [] parsed known = holds tt
  any_client-Ends spf cidr (a ∷ l) parsed known =
      Ends-bind (is_client-Ends spf cidr a parsed (λ t. (known t).0)) (λ b _.
        Ends-if b (λ _. holds tt) (λ _. any_client-Ends spf cidr l parsed (λ t. (known t).1)))

  mx_verdict-Ends :
      (spf : Spf) (q : ℕ) (cidr : Option Text) (l : List Text)
      → (may_fail d ≡ false → Parsed net spf)
      → (may_fail d ≡ false → OfVersion spf l)
      → Ends d (λ r. Unit {0}) (mx_verdict net spf q cidr l)
  unfolding mx_verdict
  mx_verdict-Ends spf q cidr l parsed known =
      Ends-bind (any_client-Ends spf cidr l parsed known) (λ b _. holds tt)

  OfVersion-append :
      (spf : Spf) (l r : List Text) → OfVersion spf l → OfVersion spf r → OfVersion spf (l ++ r)
  OfVersion-append spf [] r h k = k
  OfVersion-append spf (a ∷ l) r h k = (h.0, OfVersion-append spf l r h.1 k)

  -- Between the replies to the lookups of the exchanges: every call so far meets the demand, there
  -- is one if none is pending, and the addresses are of the version asked for.
  record Waiting (spf : Spf) (w : MxWait) : Type 0 where
    sound : All (Ends d (λ r. Unit {0})) w.calls
    called : w.pending ≡ 0 → w.calls ≢ []
    versions : may_fail d ≡ false → OfVersion spf w.addresses

  snoc :
      (l : List (Run SpfResult)) (r : Run SpfResult)
      → All (Ends d (λ r. Unit {0})) l
      → Ends d (λ r. Unit {0}) r
      → All (Ends d (λ r. Unit {0})) (l ++ r ∷ [])
  snoc [] r h e = (e, tt)
  snoc (x ∷ l) r h e = (h.0, snoc l r h.1 e)

  snoc-ne : (l : List (Run SpfResult)) (r : Run SpfResult) → l ++ r ∷ [] ≢ []
  snoc-ne [] r = cc
  snoc-ne (x ∷ l) r = cc

  mx_finish-Waiting :
      (spf : Spf) (q : ℕ) (cidr : Option Text) (w : MxWait)
      → (may_fail d ≡ false → Parsed net spf)
      → All (Ends d (λ r. Unit {0})) w.calls
      → (may_fail d ≡ false → OfVersion spf w.addresses)
      → Waiting spf (mx_finish net spf q cidr w)
  unfolding mx_finish
  mx_finish-Waiting spf q cidr w parsed sound versions = elim (Bool-cases (w.pending == 0)) [
    | inl e ↦
        rw (e, mx_finish)
          (record {
            sound = snoc w.calls _ sound (mx_verdict-Ends spf q cidr w.addresses parsed versions);
            called = λ _. snoc-ne w.calls _;
            versions = versions;
          })
    | inr e ↦
        rw (e, mx_finish)
          (record { sound = sound; called = λ z. absurd (ground arith); versions = versions })
  ]

  -- What a reply holds.
  abbrev Versioned : Spf → Answer (List Text) → Type 0
  Versioned spf r = (l : List Text) → r ≡ found l → OfVersion spf l

  mx_reply-Waiting :
      (spf : Spf) (q : ℕ) (cidr : Option Text) (r : Answer (List Text)) (w : MxWait)
      → (may_fail d ≡ false → Parsed net spf)
      → (may_fail d ≡ false → Versioned spf r)
      → Waiting spf w
      → Waiting spf (mx_reply net spf q cidr r w)
  unfolding mx_reply
  mx_reply-Waiting spf q cidr (found l) w parsed known h =
      mx_finish-Waiting spf q cidr _ parsed h.sound
        (λ t. OfVersion-append spf l w.addresses (known t l refl) (h.versions t))
  mx_reply-Waiting spf q cidr absent w parsed known h =
      mx_finish-Waiting spf q cidr _ parsed h.sound h.versions
  mx_reply-Waiting spf q cidr failed w parsed known h = record {
    sound = snoc w.calls _ h.sound (holds tt);
    called = λ _. snoc-ne w.calls _;
    versions = h.versions;
  }

  mx_reply-pending :
      (spf : Spf) (q : ℕ) (cidr : Option Text) (r : Answer (List Text)) (w : MxWait)
      → (mx_reply net spf q cidr r w).pending ≡ w.pending - 1
  unfolding mx_reply mx_finish
  mx_reply-pending spf q cidr (found l) w = ground arith
  mx_reply-pending spf q cidr absent w = ground arith
  mx_reply-pending spf q cidr failed w = refl

  mx_replies-Waiting :
      (spf : Spf) (q : ℕ) (cidr : Option Text) (names : List Text) (w : MxWait)
      → (may_fail d ≡ false → Parsed net spf)
      → Waiting spf w
      → Waiting spf (mx_replies net spf q cidr (map (net.resolve_ip spf.ip_ver) names) w)
  unfolding mx_replies
  mx_replies-Waiting spf q cidr [] w parsed h = h
  mx_replies-Waiting spf q cidr (n ∷ names) w parsed h =
      let r = net.resolve_ip spf.ip_ver n in
      mx_replies-Waiting spf q cidr names (mx_reply net spf q cidr r w) parsed (
        mx_reply-Waiting spf q cidr r w parsed
          (λ t l found_l. (good t).families spf.ip_ver n l found_l) h)

  mx_replies-pending :
      (spf : Spf) (q : ℕ) (cidr : Option Text) (rs : List (Answer (List Text))) (w : MxWait)
      → (mx_replies net spf q cidr rs w).pending ≡ w.pending - length rs
  unfolding mx_replies
  mx_replies-pending spf q cidr [] w = omega arith
  mx_replies-pending spf q cidr (r ∷ rs) w = omega (
    arith,
    mx_reply-pending spf q cidr r w,
    mx_replies-pending spf q cidr rs (mx_reply net spf q cidr r w),
  )

  first_call-Ends :
      (l : List (Run SpfResult))
      → (may_fail d ≡ false → l ≢ [])
      → All (Ends d (λ r. Unit {0})) l
      → Ends d (λ r. Unit {0}) (first_call l)
  unfolding first_call
  first_call-Ends [] ne h = Ends-silent d (λ t. ne t refl)
  first_call-Ends (r ∷ l) ne h = h.0

  pub mx_calls-Ends :
      (spf : Spf) (q : ℕ) (args : Option Text) (mxes : List Text)
      → (may_fail d ≡ false → Parsed net spf)
      → Ends d (λ r. Unit {0}) (first_call (mx_calls net q args spf mxes))
  unfolding mx_calls first_call
  mx_calls-Ends spf q args mxes parsed =
      let start : MxWait = record { pending = length mxes; addresses = []; calls = [] } in
      let cidr = mx_cidr_of spf.ip_ver args in
      let names = net.arrival mxes in
      let replies = map (net.resolve_ip spf.ip_ver) names in
      let waiting : mxes ≢ [] → Waiting spf start = λ ne. record {
        sound = tt;
        called = λ z. absurd (ne (length-zero mxes z));
        versions = λ t. tt;
      } in
      elim (Bool-cases (ltb 10 (length mxes))) [
        | inl e ↦ rw (e, mx_calls) (holds tt)
        | inr e ↦ elim (Bool-cases (is_empty mxes)) [
          | inl e' ↦ rw (e, e', mx_calls) (holds tt)
          | inr e' ↦
              let end : Waiting spf (mx_replies net spf q cidr replies start) =
                mx_replies-Waiting spf q cidr names start parsed
                  (waiting (λ z. let k = ap is_empty z in cc)) in
              rw (e, e', mx_calls)
                (first_call-Ends _
                  (λ t. end.called (
                    omega (
                      arith,
                      mx_replies-pending spf q cidr replies start,
                      (good t).arrivals mxes,
                      length-map (net.resolve_ip spf.ip_ver) names,
                    )))
                  end.sound)
        ]
      ]
