-- ===== src/Terms/Post.antt =====
-- Postconditions of the calls into the term store of src/smt/term.rs.
use satrap.Prelude.{suc, ◌≤◌, length}
use satrap.Terms.{TermStore, Outcome, ok, err, exhausted, Action, and_then, u32_limit}
use satrap.Terms.Good.{Extends, Extends-trans}

-- A result with the postcondition, or the panic of a store that has all the numbers it can give.
pub data Post {A : Type 0} (P : A → TermStore → Type 0) : Outcome A × TermStore → Type 0 where
  returns : {a : A} {s : TermStore} → P a s → Post P (ok a, s)
  full : {s : TermStore} → u32_limit ≤ length s.nodes → Post P (err exhausted, s)
  no_symbols : {s : TermStore} → u32_limit ≤ suc s.next_symbol → Post P (err exhausted, s)

module _ {A : Type 0} {P : A → TermStore → Type 0} where
  pub bind :
      {B : Type 0} {Q : B → TermStore → Type 0} {r : Outcome A × TermStore} {f : A → Action B}
      → Post P r
      → ((a : A) (s : TermStore) → P a s → Post Q (f a s))
      → Post Q (and_then r f)
  bind (returns p) next = next _ _ p
  bind (full h) next = full h
  bind (no_symbols h) next = no_symbols h

  pub mono :
      {Q : A → TermStore → Type 0} {r : Outcome A × TermStore}
      → Post P r
      → ((a : A) (s : TermStore) → P a s → Q a s)
      → Post Q r
  mono (returns p) weaken = returns (weaken _ _ p)
  mono (full h) weaken = full h
  mono (no_symbols h) weaken = no_symbols h

-- The same, of a call that leaves the store better by `Extends`.
abbrev pub Grows :
    {A : Type 0} → TermStore → (A → TermStore → Type 0) → Outcome A × TermStore → Type 0
Grows s P r = Post (λ a s'. Extends s s' × P a s') r

-- A chain of calls: the second starts from the store that the first leaves.
pub chain :
    {A B : Type 0} {P : A → TermStore → Type 0} {Q : B → TermStore → Type 0} {s : TermStore}
    {r : Outcome A × TermStore} {f : A → Action B}
    → Grows s P r
    → ((a : A) (s' : TermStore) → Extends s s' → P a s' → Grows s' Q (f a s'))
    → Grows s Q (and_then r f)
chain {s} m next =
    bind m (λ a s' h. mono (next a s' h.0 h.1) (λ b s'' k. (Extends-trans s s' s'' h.0 k.0, k.1)))

pub of_ok :
    {A : Type 0} {P : A → TermStore → Type 0} {a : A} {s : TermStore} → Post P (ok a, s) → P a s
of_ok (returns p) = p
