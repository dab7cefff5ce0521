-- ===== src/Ledger/Correct/Laws.antt =====
-- What `Correct` and `Revert` do to the ledger (internal/ledger/ledger.go).
use where_token.Base.{
  ◌≡◌, ◌≢◌, ◌⊎◌, inl, inr, refl, Bool, true, false, some, List, [], ◌∷◌, if◌then◌else◌, arith,
  Bool-cases, Option-cases,
}
use where_token.Base.Int.{ℤ, leb_ℤ, ◌<ℤ◌, ◌-ℤ◌}
use where_token.Base.Int64.{Fits, max_int64, sub64, wrap64-Fits}
use where_token.Base.Text.{Text, is_empty, trim_space, trim_space_idem, text_eq, text_eq_iff}
use where_token.Event.{UsageEvent}
use where_token.Ledger.Key.{key}
use where_token.Ledger.Fact.{Fact, fact_from, fact_tokens}
use where_token.Ledger.Store.Tables.{Row, Revision, Ledger, find, update, find-update, changed}
use where_token.Ledger.Permit.{read_permit}
use where_token.Ledger.Permit.Laws.{amount, settled, adjust_permit_lem}
use where_token.Ledger.Tx.{Result, ok, err, correction_rejected, commit, commit-ok, commit-err}
use where_token.Ledger.Correct.{
  clean_reason, side, insert_revision, write_row, write_fact, replace, correct_row, correct,
}

pub clean_reason-trimmed :
    (reason r : Text) → clean_reason reason ≡ some r → (trim_space r ≡ r) × (is_empty r ≡ false)
unfolding clean_reason
clean_reason-trimmed reason r h = ground (arith, trim_space_idem reason)

pub find-id : (id : Text) (rows : List Row) (r : Row) → find id rows ≡ some r → r.fact.id ≡ id
unfolding find
find-id id [] r h = cc
find-id id (s ∷ rows) r h = ground (arith, text_eq_iff s.fact.id id, find-id id rows r)

pub write_row-id : (f : Fact) (version : ℤ) (r : Row) → (write_row f version r).fact.id ≡ r.fact.id
unfolding write_row
write_row-id f version r = refl

pub sub64-Fits : (a b : ℤ) → Fits (sub64 a b)
unfolding sub64
sub64-Fits a b = wrap64-Fits (a -ℤ b)

-- What the replacement of the payload of a stored fact makes of the ledger.
pub record Replaced (cur : Row) (next : Fact) (version : ℤ) (reason permit_reason : Text)
    (l l' : Ledger) : Type 0 where
  pub stored :
      (j : Text)
      → find j l'.rows ≡ (
          if text_eq next.id j
          then changed (write_row next version) (find j l.rows)
          else find j l.rows)
  pub audited :
      l'.revisions
      ≡ record {
        fact_id = cur.fact.id;
        reason = reason;
        prev = side cur.parser_version cur.fact;
        next = side version next;
      }
        ∷ l.revisions
  pub permit :
      read_permit l'.meta
      ≡ settled permit_reason
          (read_permit l.meta)
          (amount (read_permit l.meta) -ℤ sub64 (fact_tokens next) (fact_tokens cur.fact))
  pub bounded :
      Fits (amount (read_permit l.meta) -ℤ sub64 (fact_tokens next) (fact_tokens cur.fact))
  pub omissions : l'.omissions ≡ l.omissions

-- The replacement is made whole, or it is rejected because the permit would not fit an int64.
abbrev pub Replacement : Row → Fact → ℤ → Text → Text → Ledger → Type 0
Replacement cur next version reason permit_reason l =
    ((replace cur next version reason permit_reason l ≡ err correction_rejected)
      × (max_int64
          <ℤ amount (read_permit l.meta) -ℤ sub64 (fact_tokens next) (fact_tokens cur.fact)))
    ⊎ ((l' : Ledger) × (replace cur next version reason permit_reason l ≡ ok (true, l'))
        × Replaced cur next version reason permit_reason l l')

pub replace_lem :
    (cur : Row) (next : Fact) (version : ℤ) (reason permit_reason : Text) (l : Ledger)
    → trim_space permit_reason ≡ permit_reason
    → Replacement cur next version reason permit_reason l
unfolding replace insert_revision write_fact
replace_lem cur next version reason permit_reason l trimmed =
    let delta = sub64 (fact_tokens next) (fact_tokens cur.fact) in
    let rows = update next.id (write_row next version) l.rows in
    let revision : Revision = record {
      fact_id = cur.fact.id;
      reason = reason;
      prev = side cur.parser_version cur.fact;
      next = side version next;
    } in
    let written : Ledger = record l { rows = rows; revisions = revision ∷ l.revisions } in
    elim (adjust_permit_lem permit_reason delta written trimmed (sub64-Fits _ _)) [
      | inl (rejected, large) ↦ inl (ground (arith, rejected), large)
      | inr (l', e, permit, same, fits) ↦ inr (
        l',
        ground (arith, e),
        record {
          stored = λ j.
              rw same.rows
                (find-update next.id j (write_row next version) l.rows (write_row-id next version));
          audited = same.revisions;
          permit = permit;
          bounded = fits;
          omissions = same.omissions;
        },
      )
    ]

-- The correction that was made.
pub record Applied (sha256_hex : Text → Text) (e : UsageEvent) (given : Text) (version : ℤ)
    (l l' : Ledger) : Type 0 where
  pub id : Text
  pub reason : Text
  pub cur : Row
  pub clean : clean_reason given ≡ some reason
  pub keyed : key e ≡ some id
  pub stored : find id l.rows ≡ some cur
  pub newer : cur.parser_version <ℤ version
  pub differs : (fact_from sha256_hex e id).hash ≢ cur.fact.hash
  pub made : Replaced cur (fact_from sha256_hex e id) version reason reason l l'

-- `Correct` has three ends: a rejection or a repeat leave the ledger as it is; otherwise the stored
-- fact of the event's identity is replaced, by a strictly newer parser version and another payload.
abbrev pub Corrected :
    (Text → Text) → UsageEvent → Text → ℤ → Ledger → Result Bool × Ledger → Type 0
Corrected sha256_hex e given version l (err _, l') = l' ≡ l
Corrected sha256_hex e given version l (ok false, l') = l' ≡ l
Corrected sha256_hex e given version l (ok true, l') = Applied sha256_hex e given version l l'

module _ (sha256_hex : Text → Text) where
  replace_lem-Corrected :
      (e : UsageEvent) (given : Text) (version : ℤ) (l : Ledger) (id reason : Text) (cur : Row)
      → key e ≡ some id
      → find id l.rows ≡ some cur
      → cur.parser_version <ℤ version
      → clean_reason given ≡ some reason
      → (fact_from sha256_hex e id).hash ≢ cur.fact.hash
      → Replacement cur (fact_from sha256_hex e id) version reason reason l
      → Corrected sha256_hex e given version l
          (commit (replace cur (fact_from sha256_hex e id) version reason reason) l)
  replace_lem-Corrected ev given version l id reason cur keyed stored newer clean other
        (inl (e, _)) =
      rw (commit-err (replace cur (fact_from sha256_hex ev id) version reason reason) l e) refl
  replace_lem-Corrected ev given version l id reason cur keyed stored newer clean other
        (inr (l', e, r)) =
      rw (commit-ok (replace cur (fact_from sha256_hex ev id) version reason reason) l e) (record {
        id = id;
        reason = reason;
        cur = cur;
        clean = clean;
        keyed = keyed;
        stored = stored;
        newer = newer;
        differs = other;
        made = r;
      })

  correct_row-Corrected :
      (e : UsageEvent) (given : Text) (version : ℤ) (l : Ledger) (id reason : Text) (cur : Row)
      → key e ≡ some id
      → find id l.rows ≡ some cur
      → clean_reason given ≡ some reason
      → Corrected sha256_hex e given version l
          (commit (correct_row cur (fact_from sha256_hex e id) version reason) l)
  unfolding correct_row
  correct_row-Corrected e given version l id reason cur keyed stored clean =
      let next = fact_from sha256_hex e id in
      elim (Bool-cases (text_eq next.hash cur.fact.hash)) [
        | inl same ↦ rw same refl
        | inr other ↦ elim (Bool-cases (leb_ℤ version cur.parser_version)) [
          | inl old ↦ rw (other, old) refl
          | inr newer ↦
              rw (other, newer)
                (replace_lem-Corrected e given version l id reason cur keyed stored (ground arith)
                  clean (λ same. cc (other, (text_eq_iff next.hash cur.fact.hash).1 same))
                  (replace_lem cur next version reason reason l
                    (clean_reason-trimmed given reason clean).0))
        ]
      ]

  -- `Correct` on any event, reason, version and ledger either rejects or finds a repeat, and leaves
  -- the ledger as it is; or it replaces the stored fact of the event's identity, under a strictly
  -- newer parser version and another payload hash, with one revision and the settled permit.
  pub correct-Corrected :
      (e : UsageEvent) (reason : Text) (version : ℤ) (l : Ledger)
      → Corrected sha256_hex e reason version l (correct sha256_hex e reason version l)
  unfolding correct
  correct-Corrected e reason version l = elim (Option-cases (clean_reason reason)) [
    | inl bad ↦ rw (bad, correct) refl
    | inr (r, clean) ↦ elim (Option-cases (key e)) [
      | inl unkeyed ↦ rw (clean, unkeyed, correct) refl
      | inr (id, keyed) ↦ elim (Option-cases (find id l.rows)) [
        | inl absent ↦
            let end : correct sha256_hex e reason version l ≡ (err correction_rejected, l) =
              ground (arith, clean, keyed, absent) in
            rw end refl
        | inr (cur, stored) ↦
            let rest : correct sha256_hex e reason version l
                ≡ commit (correct_row cur (fact_from sha256_hex e id) version r) l =
              ground (arith, clean, keyed, stored) in
            rw rest (correct_row-Corrected e reason version l id r cur keyed stored clean)
      ]
    ]
  ]
