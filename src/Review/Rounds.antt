-- ===== src/Review/Rounds.antt =====
-- `ConvergenceTracker` of epiphany_executor/review.py.
use epiphany_executor.Prelude.{ℕ, ◌≡◌, refl, Bool, false, List, [], ◌∷◌, ◌++◌, eqb}

-- the field `rounds`
abbrev pub Rounds : Type 0
Rounds = List ℕ

unfoldable pub record_round : ℕ → Rounds → Rounds
record_round n_new_deltas rounds = rounds ++ n_new_deltas ∷ []

-- `bool(self.rounds) and self.rounds[-1] == 0`
unfoldable pub converged : Rounds → Bool
converged [] = false
converged (n ∷ []) = eqb n 0
converged (n ∷ m ∷ rounds) = converged (m ∷ rounds)

-- Whatever the earlier rounds were, the tracker has converged exactly if the last round had no
-- new deltas.
pub converged-record_round : (n : ℕ) (rounds : Rounds) → converged (record_round n rounds) ≡ eqb n 0
unfolding converged record_round
converged-record_round n [] = refl
converged-record_round n (m ∷ []) = refl
converged-record_round n (m ∷ k ∷ rounds) = converged-record_round n (k ∷ rounds)
