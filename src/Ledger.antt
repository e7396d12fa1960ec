-- ===== src/Ledger.antt =====
-- The entries of the harness ledger, as the package writes and reads them. The ledger itself is
-- `goatcs_harness.ledger`, outside the repository: its `append` and `read` are parameters.
use epiphany_executor.Value.{Fields}
use epiphany_executor.Prelude.{ℕ, String, Option, ◌≡◌, List, [], ◌∷◌, ◌++◌, refl}

-- The keys of an entry that most of the package reads with `.get` or `[...]`; `none` is a missing key.
pub record LedgerEntry : Type 0 where
  pub kind : Option String
  pub node : Option String
  pub lifecycle_state : Option String
  pub effect_ledger_cursor : Option ℕ
  pub depth : Option ℕ
  pub epoch : Option ℕ
  -- the other keys
  pub other : Fields

-- What the package relies on: what is read back is what was appended, in order.
pub record LedgerApi : Type 1 where
  pub Ledger : Type 0
  pub append : Ledger → LedgerEntry → Ledger
  pub read : Ledger → List LedgerEntry
  pub read-append : (l : Ledger) (e : LedgerEntry) → read (append l e) ≡ read l ++ e ∷ []

-- The list of its entries is such a ledger.
abbrev pub list_ledger : LedgerApi
list_ledger = record {
  Ledger = List LedgerEntry;
  append = λ l e. l ++ e ∷ [];
  read = λ l. l;
  read-append = λ l e. refl;
}
