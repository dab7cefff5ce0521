-- ===== src/Ledger/Correct/Undo.antt =====
-- A correction that is made twice, and a correction that is reverted (internal/ledger/ledger.go).
use where_token.Base.{◌≡◌, inl, inr, refl, true, false, some, [], if◌then◌else◌, arith, any_of}
use where_token.Base.Int.{ℤ, pos, leb_ℤ, ◌≤ℤ◌, ◌<ℤ◌, ◌-ℤ◌, -ℤ_parts}
use where_token.Base.Int64.{Fits, max_int64, sub64, sub64_flip}
use where_token.Base.Text.{Text, trim_space_clean, text_eq_iff, text_eq_self}
use where_token.Event.{UsageEvent}
use where_token.Ledger.Key.{key}
use where_token.Ledger.Fact.{Fact, fact_from, fact_tokens}
use where_token.Ledger.Store.Tables.{Row, Side, Ledger, find}
use where_token.Ledger.Permit.{read_permit}
use where_token.Ledger.Permit.Laws.{amount, amount-settled, read_permit_range}
use where_token.Ledger.Tx.{ok}
use where_token.Ledger.Correct.{
  clean_reason, side, write_row, replace, correct_row, correct, is_revert, last_correction,
  restored, revert_row, revert_reason, revert,
}
use where_token.Ledger.Correct.Laws.{
  Replaced, replace_lem, sub64-Fits, Applied, correct-Corrected, write_row-id, find-id,
  clean_reason-trimmed,
}

-- Undoing the change of the permit fits again.
permit-Fits :
    (a x y : ℤ) {b : ℤ}
    → (pos 0 ≤ℤ a) × Fits a
    → Fits (a -ℤ sub64 x y)
    → b ≡ (if leb_ℤ (a -ℤ sub64 x y) (pos 0) then pos 0 else a -ℤ sub64 x y)
    → ¬ (max_int64 <ℤ b -ℤ sub64 y x)
permit-Fits a x y {b} (nonneg, fa) fits e over =
    let d = sub64 x y in
    let flip = sub64_flip x y (λ smallest. ground (arith, smallest, -ℤ_parts a d)) in
    ground (arith, flip, sub64-Fits x y, -ℤ_parts a d, -ℤ_parts b (sub64 y x))

module _ (sha256_hex : Text → Text) where
  fact_from-id : (e : UsageEvent) (id : Text) → (fact_from sha256_hex e id).id ≡ id
  unfolding fact_from
  fact_from-id e id = refl

  -- The row under the corrected identity.
  found_after :
      (e : UsageEvent) (id reason permit_reason : Text) (version : ℤ) (cur : Row) (l l' : Ledger)
      → find id l.rows ≡ some cur
      → Replaced cur (fact_from sha256_hex e id) version reason permit_reason l l'
      → find id l'.rows ≡ some (write_row (fact_from sha256_hex e id) version cur)
  found_after e id reason permit_reason version cur l l' stored r =
      rw (r.stored id, fact_from-id e id, text_eq_self id, stored)

  -- A call of `Correct` with the event that was just corrected, under any acceptable reason and any
  -- version, writes nothing: no second revision, and no second permit.
  pub correct_again :
      (e : UsageEvent) (reason reason' cleaned : Text) (version version' : ℤ) (l l' : Ledger)
      → correct sha256_hex e reason version l ≡ (ok true, l')
      → clean_reason reason' ≡ some cleaned
      → correct sha256_hex e reason' version' l' ≡ (ok false, l')
  unfolding correct correct_row write_row
  correct_again e reason reason' cleaned version version' l l' first clean =
      again (rw first at (correct-Corrected sha256_hex e reason version l))
    where
      again :
          Applied sha256_hex e reason version l l'
          → correct sha256_hex e reason' version' l' ≡ (ok false, l')
      again a =
          let next = fact_from sha256_hex e a.id in
          let found = found_after e a.id a.reason a.reason version a.cur l l' a.stored a.made in
          ground (arith, a.keyed, clean, found, text_eq_self next.hash)

  last_correction_after :
      (e : UsageEvent) (id reason : Text) (version : ℤ) (cur : Row) (l l' : Ledger)
      → cur.fact.id ≡ id
      → is_revert reason ≡ false
      → Replaced cur (fact_from sha256_hex e id) version reason reason l l'
      → last_correction id l'.revisions
        ≡ some (record {
          fact_id = cur.fact.id;
          reason = reason;
          prev = side cur.parser_version cur.fact;
          next = side version (fact_from sha256_hex e id);
        })
  unfolding last_correction
  last_correction_after e id reason version cur l l' same plain r =
      rw (r.audited, same, text_eq_self id, plain)

  -- Writing the previous payload back gives the previous row.
  write_row-restored :
      (cur : Row) (next : Fact) (version : ℤ)
      → write_row
          (restored (side cur.parser_version cur.fact) (write_row next version cur).fact)
          cur.parser_version
          (write_row next version cur)
        ≡ cur
  unfolding write_row restored
  write_row-restored cur next version = refl

  restored-id : (s : Side) (f : Fact) → (restored s f).id ≡ f.id
  unfolding restored
  restored-id s f = refl

  -- The two replacements, of the correction and of the revert, cancel out.
  rows_cancel :
      (e : UsageEvent) (id reason reason' : Text) (version : ℤ) (cur : Row) (l l' l'' : Ledger)
      → find id l.rows ≡ some cur
      → Replaced cur (fact_from sha256_hex e id) version reason reason l l'
      → let mid = write_row (fact_from sha256_hex e id) version cur in
        Replaced mid
          (restored (side cur.parser_version cur.fact) mid.fact)
          cur.parser_version
          reason'
          []
          l'
          l''
        → (j : Text) → find j l''.rows ≡ find j l.rows
  rows_cancel e id reason reason' version cur l l' l'' stored r r' j =
      let next = fact_from sha256_hex e id in
      let mid = write_row next version cur in
      ground (
        arith,
        stored,
        find-id id l.rows cur stored,
        r.stored j,
        r'.stored j,
        fact_from-id e id,
        restored-id (side cur.parser_version cur.fact) mid.fact,
        write_row-id next version cur,
        text_eq_iff id j,
        write_row-restored cur next version,
      )

  module _ (e : UsageEvent) (reason : Text) (version : ℤ) (l l' : Ledger)
      (a : Applied sha256_hex e reason version l l') where
    mid : Row
    mid = write_row (fact_from sha256_hex e a.id) version a.cur

    fact_tokens-mid : fact_tokens mid.fact ≡ fact_tokens (fact_from sha256_hex e a.id)
    unfolding mid fact_tokens write_row
    fact_tokens-mid = refl

    before : Fact
    before = restored (side a.cur.parser_version a.cur.fact) mid.fact

    fact_tokens-before : fact_tokens before ≡ fact_tokens a.cur.fact
    unfolding before fact_tokens restored
    fact_tokens-before = refl

    -- The revert's own replacement is not rejected.
    revert_replace :
        (reason' : Text)
        → (l'' : Ledger) × (replace mid before a.cur.parser_version reason' [] l' ≡ ok (true, l''))
          × Replaced mid before a.cur.parser_version reason' [] l' l''
    revert_replace reason' =
        elim (replace_lem mid before a.cur.parser_version reason' [] l'
          (trim_space_clean [] (unfold any_of in refl))) [
            | inl (_, over) ↦ absurd (
                permit-Fits (amount (read_permit l.meta))
                  (fact_tokens (fact_from sha256_hex e a.id)) (fact_tokens a.cur.fact)
                  {b = amount (read_permit l'.meta)} (read_permit_range l.meta) a.made.bounded
                  (rw a.made.permit (
                    amount-settled a.reason (read_permit l.meta) _
                      (clean_reason-trimmed reason a.reason a.clean).1))
                  (rw (fact_tokens-before, fact_tokens-mid) at over))
            | inr r ↦ r
          ]

    revert_applied :
        (reason' cleaned' : Text)
        → is_revert a.reason ≡ false
        → clean_reason reason' ≡ some cleaned'
        → (l'' : Ledger) × (revert a.id reason' l' ≡ (ok true, l''))
          × ((j : Text) → find j l''.rows ≡ find j l.rows)
    unfolding revert revert_row mid before write_row
    revert_applied reason' cleaned' plain clean =
        let (l'', e1, r) = revert_replace (revert_reason cleaned') in
        let found = found_after e a.id a.reason a.reason version a.cur l l' a.stored a.made in
        let last =
          last_correction_after e a.id a.reason version a.cur l l'
            (find-id a.id l.rows a.cur a.stored) plain a.made in
        (
          l'',
          ground (arith, clean, found, last, e1, text_eq_self (fact_from sha256_hex e a.id).hash),
          rows_cancel e a.id a.reason (revert_reason cleaned') version a.cur l l' l'' a.stored
              a.made r,
        )

  -- A correction that was made, under a reason that is no revert, can be reverted: each identity has
  -- the row that it had before, version and payload included. The revert is never rejected.
  pub revert_after_correct :
      (e : UsageEvent) (id reason cleaned reason' cleaned' : Text) (version : ℤ) (l l' : Ledger)
      → correct sha256_hex e reason version l ≡ (ok true, l')
      → key e ≡ some id
      → clean_reason reason ≡ some cleaned
      → is_revert cleaned ≡ false
      → clean_reason reason' ≡ some cleaned'
      → (l'' : Ledger) × (revert id reason' l' ≡ (ok true, l''))
        × ((j : Text) → find j l''.rows ≡ find j l.rows)
  revert_after_correct e id reason cleaned reason' cleaned' version l l' first keyed clean plain
        clean' =
      from_applied (rw first at (correct-Corrected sha256_hex e reason version l))
    where
      from_applied :
          Applied sha256_hex e reason version l l'
          → (l'' : Ledger) × (revert id reason' l' ≡ (ok true, l''))
            × ((j : Text) → find j l''.rows ≡ find j l.rows)
      from_applied a =
          let same : a.id ≡ id = cc (a.keyed, keyed) in
          let plain' : is_revert a.reason ≡ false = cc (a.clean, clean, plain) in
          let (l'', run, back) =
            revert_applied e reason version l l' a reason' cleaned' plain' clean' in
          (l'', rw same at run, back)
