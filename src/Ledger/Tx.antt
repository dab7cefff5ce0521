-- ===== src/Ledger/Tx.antt =====
-- A transaction on the ledger: it runs on the state, and fails or returns a result and a new state.
-- `commit` of a failed transaction leaves the state that it began with, as `defer tx.Rollback()`.
use where_token.Base.{Option, none, some, ◌≡◌}
use where_token.Ledger.Store.Tables.{Ledger}

-- `ErrCorrectionRejected`; errors of the database itself are not modelled
pub data Error : Type 0 where
  correction_rejected : Error

pub data Result (A : Type 0) : Type 0 where
  ok : A → Result A
  err : Error → Result A

abbrev pub Tx : Type 0 → Type 0
Tx A = Ledger → Result (A × Ledger)

infixl 5 ◌>>=◌ ◌>>◌
abbrev pub ◌>>=◌ : {A B : Type 0} → Tx A → (A → Tx B) → Tx B
◌>>=◌ m f l = elim (m l) [ ok (a, l') ↦ f a l' | err e ↦ err e ]

abbrev pub ◌>>◌ : {A B : Type 0} → Tx A → Tx B → Tx B
m >> k = m >>= λ _. k

abbrev pub pure : {A : Type 0} → A → Tx A
pure a l = ok (a, l)

abbrev pub reject : {A : Type 0} → Tx A
reject l = err correction_rejected

abbrev pub gets : {A : Type 0} → (Ledger → A) → Tx A
gets f l = ok (f l, l)

abbrev pub modify : (Ledger → Ledger) → Tx (Unit {0})
modify f l = ok (tt, f l)

abbrev pub or_reject : {A : Type 0} → Option A → Tx A
or_reject none = reject
or_reject (some a) = pure a

abbrev pub commit : {A : Type 0} → Tx A → Ledger → Result A × Ledger
commit m l = elim (m l) [ ok (a, l') ↦ (ok a, l') | err e ↦ (err e, l) ]

module _ {A : Type 0} (m : Tx A) (l : Ledger) where
  pub commit-ok : {l' : Ledger} {a : A} → m l ≡ ok (a, l') → commit m l ≡ (ok a, l')
  commit-ok e = rw (e, commit)

  pub commit-err : {e : Error} → m l ≡ err e → commit m l ≡ (err e, l)
  commit-err e = rw (e, commit)
