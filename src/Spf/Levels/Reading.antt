-- ===== src/Spf/Levels/Reading.antt =====
-- The reading of a record in email/spf.js: it ends, and gives mechanisms that can run.
use companyly_microservices.Base.{
  ℕ, zero, suc, ◌+◌, ◌<◌, ◌≡◌, false, Option, none, some, List, [], ◌∷◌, ◌++◌, Text, All, length,
  arith, drop, is_empty, split_at,
}
use companyly_microservices.Spf.Net.{Net}
use companyly_microservices.Spf.Run.{
  Run, done, ◌>>=◌, Demand, may_fail, Ends, holds, Ends-bind, Ends-if, Ends-none, Ends-endless,
  Ends-done, any,
}
use companyly_microservices.Spf.Macros.{
  macro_text, find_macro, expand_one, expand_loop, expand_macros,
}
use companyly_microservices.Spf.Record.{Mechanism, Modifier, read_mechanism, read_modifier}
use companyly_microservices.Spf.Chains.{
  is_ip, valid_ip, is_bad_macro, checked_args, known_modifier, read_words, read_record,
}
use companyly_microservices.Spf.Clients.{has_percent}
use companyly_microservices.Spf.Levels.Mechanisms.{HasArgs}
use companyly_microservices.Spf.{Spf}
use companyly_microservices.Spf.Levels.Plain.{
  has_percent-drop, find_macro-plain, split_at-plain, HasArgs-some, Gets-some, WellRead,
  read_mechanism-WellRead,
}

module _ (d : Demand) (rounds : ℕ) (enough : may_fail d ≡ false → 0 < rounds) where
  expand_loop-Ends :
      (spf : Spf) (n last : ℕ) (str : Text)
      → (may_fail d ≡ false → (0 < n) × (has_percent str ≡ false))
      → Ends d (λ s. Unit {0}) (expand_loop n spf last str)
  unfolding expand_loop
  expand_loop-Ends spf zero last str h =
      Ends-endless d (λ t. absurd (let k = (h t).0 in omega arith))
  expand_loop-Ends spf (suc n) last str h =
      Ends-none (find_macro (drop last str)) (λ _. holds tt)
        (λ (k, m) e.
          expand_loop-Ends spf n (last + (k + length (macro_text m))) (expand_one spf m str) (λ t.
            let none_there = find_macro-plain (drop last str) (has_percent-drop last str (h t).1) in
            absurd (cc)))

  expand_macros-Ends :
      (spf : Spf) (str : Text)
      → (may_fail d ≡ false → has_percent str ≡ false)
      → Ends d (λ s. Unit {0}) (expand_macros rounds spf str)
  unfolding expand_macros
  expand_macros-Ends spf str h =
      Ends-bind (expand_loop-Ends spf rounds 0 str (λ t. (enough t, h t))) (λ s _. holds tt)

  -- The mechanisms that were read have the arguments that they need.
  abbrev pub Ready : Option (List Mechanism × List Modifier) → Type 0
  Ready none = Unit
  Ready (some (mechs, mods)) = All (λ m. HasArgs m.name m.args) mechs

  abbrev Checked : Option Mechanism → Type 0
  Checked none = Unit
  Checked (some m) = HasArgs m.name m.args

  checked_args-Ends :
      (net : Net) (spf : Spf) (m : Mechanism)
      → HasArgs m.name m.args
      → (may_fail d ≡ false → (s : Text) → m.args ≡ some s → has_percent s ≡ false)
      → Ends d Checked (checked_args rounds net spf m)
  unfolding checked_args
  checked_args-Ends net spf m has plain =
      Ends-none m.args (λ _. holds has)
        (λ args e.
          Ends-if (is_ip m.name) (λ _. Ends-if (valid_ip net args) (λ _. holds has) (λ _. holds tt))
            (λ _.
              Ends-if (is_bad_macro args) (λ _. holds tt)
                (λ _.
                  Ends-bind (expand_macros-Ends spf args (λ t. plain t args e))
                    (λ s _. holds (HasArgs-some m.name s)))))

  module _ {rest : Run (Option (List Mechanism × List Modifier))} (ih : Ends d Ready rest) where
    add_mechanism :
        (o : Option Mechanism)
        → Checked o
        → Ends d Ready (elim o [
          | none ↦ done none
          | some m' ↦ rest >>= λ r. elim r [
            | none ↦ done none
            | some (mechs, mods) ↦ done (some (m' ∷ mechs, mods))
          ]
        ])
    add_mechanism none h = holds tt
    add_mechanism (some m) h = Ends-bind ih add
      where
        add :
            (r : Option (List Mechanism × List Modifier))
            → Ready r
            → Ends d Ready
                (elim r [ none ↦ done none | some (mechs, mods) ↦ done (some (m ∷ mechs, mods)) ])
        add none k = holds tt
        add (some (mechs, mods)) k = holds (h, k)

    add_modifiers :
        (more : List Modifier)
        → Ends d Ready (
            rest >>= λ r. elim r [
              | none ↦ done none
              | some (mechs, mods) ↦ done (some (mechs, more ++ mods))
            ])
    add_modifiers more = Ends-bind ih add
      where
        add :
            (r : Option (List Mechanism × List Modifier))
            → Ready r
            → Ends d Ready (elim r [
              | none ↦ done none
              | some (mechs, mods) ↦ done (some (mechs, more ++ mods))
            ])
        add none k = holds tt
        add (some (mechs, mods)) k = holds k

  read_words-Ends :
      (net : Net) (spf : Spf) (words : List Text)
      → (may_fail d ≡ false → All (λ w. has_percent w ≡ false) words)
      → Ends d Ready (read_words rounds net spf words)
  unfolding read_words
  read_words-Ends net spf [] plain = holds tt
  read_words-Ends net spf (word ∷ words) plain =
      let ih = read_words-Ends net spf words (λ t. (plain t).1) in
      Ends-if (is_empty word) (λ _. ih)
        (λ _.
          Ends-none (read_mechanism word)
            (λ _.
              Ends-none (read_modifier word) (λ _. holds tt)
                (λ nv _. add_modifiers ih (known_modifier nv)))
            (λ m e.
              let w : WellRead word m =
                Gets-some (WellRead word) _ m (read_mechanism-WellRead word) e in
              Ends-bind (checked_args-Ends net spf m w.has (λ t. w.plain_args (plain t).0))
                (λ o ok. add_mechanism ih o ok)))

  -- A record is read, if there is a round and it has no per cent sign.
  pub read_record-Ends :
      (net : Net) (spf : Spf) (s : Text)
      → (may_fail d ≡ false → has_percent s ≡ false)
      → Ends d Ready (read_record rounds net spf s)
  unfolding read_record
  read_record-Ends net spf s plain = by_words (split_at 32 s) (λ t. split_at-plain s (plain t))
    where
      by_words :
          (ws : List Text)
          → (may_fail d ≡ false → All (λ w. has_percent w ≡ false) ws)
          → Ends d Ready (elim ws [
            | [] ↦ done (some ([], []))
            | version ∷ words ↦ read_words rounds net spf words
          ])
      by_words [] h = holds tt
      by_words (w ∷ ws) h = read_words-Ends net spf ws (λ t. (h t).1)

-- Every mechanism of a record that was read has the argument that its method takes apart: no method
-- calls `substr` on an argument that is missing.
pub read_record-HasArgs :
    (rounds : ℕ) (net : Net) (spf : Spf) (s : Text) (mechs : List Mechanism) (mods : List Modifier)
    → read_record rounds net spf s ≡ done (some (mechs, mods))
    → All (λ m. HasArgs m.name m.args) mechs
unfolding may_fail
read_record-HasArgs rounds net spf s mechs mods e =
    Ends-done (read_record-Ends any rounds (λ t. absurd (cc)) net spf s (λ t. absurd (cc))) e
