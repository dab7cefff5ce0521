-- ===== src/Ledger/Permit/Laws.antt =====
-- The permit that is read is the permit that was written, and `adjustPermit` moves it by exactly the
-- change of the tokens (internal/ledger/ledger.go).
use where_token.Base.{
  ◌≡◌, ◌⊎◌, inl, inr, refl, true, false, Option, none, some, if◌then◌else◌, arith, Bool-cases,
  Option-cases,
}
use where_token.Base.Int.{ℤ, pos, leb_ℤ, ◌≤ℤ◌, ◌<ℤ◌, ◌-ℤ◌, -ℤ_parts, +ℤ_parts}
use where_token.Base.Int64.{Fits, max_int64, add64_exact, sub64_exact}
use where_token.Base.Text.{Text, is_empty, trim_space, trim_space_clean, text_eq}
use where_token.Base.Decimal.{
  format_int, parse_int, format_int_clean, parse_int-format_int, parse_int-Fits,
}
use where_token.Base.Dict.{Dict, get, get-put, get-remove}
use where_token.Ledger.Store.Tables.{Ledger}
use where_token.Ledger.Permit.{
  meta_permit_reason, meta_permit_delta, read_permit, read_delta, check_permit, write_permit,
  delete_permit, permit_after, settle_permit, adjust_permit, base_of, too_large, old_delta,
}
use where_token.Ledger.Tx.{ok, err, correction_rejected}

module _ (reason : Text) (delta : ℤ) (meta : Dict Text) where
  reason_of_write : get meta_permit_reason (write_permit reason delta meta) ≡ some reason
  unfolding write_permit text_eq
  reason_of_write = simp get-put

  delta_of_write : get meta_permit_delta (write_permit reason delta meta) ≡ some (format_int delta)
  unfolding write_permit text_eq
  delta_of_write = simp get-put

  read_delta_printed :
      is_empty (trim_space reason) ≡ false
      → pos 0 <ℤ delta
      → Fits delta
      → read_delta reason (some (format_int delta)) ≡ some (reason, delta)
  read_delta_printed named positive fits =
      rw
        (
          trim_space_clean (format_int delta) (format_int_clean delta),
          parse_int-format_int delta fits,
        )
        (ground (arith, named))

  -- A permit with a reason and a positive delta of int64 is read back as it was written.
  pub read_permit-write_permit :
      is_empty (trim_space reason) ≡ false
      → pos 0 <ℤ delta
      → Fits delta
      → read_permit (write_permit reason delta meta) ≡ some (reason, delta)
  unfolding read_permit
  read_permit-write_permit named positive fits =
      rw (reason_of_write, read_permit, delta_of_write) (read_delta_printed named positive fits)

reason_of_delete : (meta : Dict Text) → get meta_permit_reason (delete_permit meta) ≡ none
unfolding delete_permit text_eq
reason_of_delete meta = simp get-remove

pub read_permit-delete_permit : (meta : Dict Text) → read_permit (delete_permit meta) ≡ none
unfolding read_permit
read_permit-delete_permit meta = rw (reason_of_delete meta, read_permit)

-- The permitted drop; no permit is a drop of zero.
abbrev pub amount : Option (Text × ℤ) → ℤ
amount p = base_of (old_delta p)

module _ (b d : ℤ) (nonneg : pos 0 ≤ℤ b) (fb : Fits b) (fd : Fits d) where
  over_of_too_large : too_large b d ≡ true → max_int64 <ℤ b -ℤ d
  unfolding too_large
  over_of_too_large h = ground (arith, -ℤ_parts b d, +ℤ_parts max_int64 d, add64_exact max_int64 d)

  Fits-of_not_too_large : too_large b d ≡ false → Fits (b -ℤ d)
  unfolding too_large
  Fits-of_not_too_large h =
      ground (arith, -ℤ_parts b d, +ℤ_parts max_int64 d, add64_exact max_int64 d)

-- `permitAfter` does not wrap: for a permit that is not negative it gives the exact difference, or
-- rejects a difference that is too large.
pub permit_after_exact :
    (old : Option ℤ) (d : ℤ)
    → pos 0 ≤ℤ base_of old
    → Fits (base_of old)
    → Fits d
    → ((permit_after old d ≡ none) × (max_int64 <ℤ base_of old -ℤ d))
      ⊎ ((permit_after old d ≡ some (base_of old -ℤ d)) × Fits (base_of old -ℤ d))
unfolding permit_after
permit_after_exact old d nonneg fo fd =
    let b = base_of old in
    elim (Bool-cases (too_large b d)) [
      | inl over ↦ inl (rw over, over_of_too_large b d nonneg fo fd over)
      | inr within ↦
          let fits = Fits-of_not_too_large b d nonneg fo fd within in
          inr (rw (within, sub64_exact b d fits), fits)
    ]

-- A permit that can be read stands for a drop, and has a reason.
pub record IsGranted (reason : Text) (delta : ℤ) : Type 0 where
  pub positive : pos 0 <ℤ delta
  pub fits : Fits delta
  pub named : is_empty (trim_space reason) ≡ false

check_permit-IsGranted :
    (reason r : Text) (o : Option ℤ) (d : ℤ)
    → ((z : ℤ) → o ≡ some z → Fits z)
    → check_permit reason o ≡ some (r, d)
    → IsGranted r d
check_permit-IsGranted reason r none d fits h = cc
check_permit-IsGranted reason r (some z) d fits h = record {
  positive = ground arith;
  fits = ground (arith, fits z refl);
  named = ground arith;
}

read_delta-IsGranted :
    (reason r : Text) (o : Option Text) (d : ℤ) → read_delta reason o ≡ some (r, d) → IsGranted r d
read_delta-IsGranted reason r none d h = cc
read_delta-IsGranted reason r (some s) d h =
    check_permit-IsGranted reason r (parse_int (trim_space s)) d (parse_int-Fits (trim_space s)) h

pub read_permit-IsGranted :
    (meta : Dict Text) (reason : Text) (delta : ℤ)
    → read_permit meta ≡ some (reason, delta)
    → IsGranted reason delta
unfolding read_permit
read_permit-IsGranted meta reason delta h = elim (Option-cases (get meta_permit_reason meta)) [
  | inl absent ↦ cc (rw (absent, read_permit) at h)
  | inr (r, e) ↦
      read_delta-IsGranted r reason (get meta_permit_delta meta) delta (rw (e, read_permit) at h)
]

-- The permit after `adjustPermit`, from the reason that it is given, the permit before, and the
-- amount: nothing if the amount is no drop; else the amount, under the new reason or else the old.
pub settled : Text → Option (Text × ℤ) → ℤ → Option (Text × ℤ)
settled reason old next =
    if leb_ℤ next (pos 0)
    then none
    else if is_empty reason
    then elim old [ none ↦ none | some (kept, _) ↦ some (kept, next) ]
    else some (reason, next)

settle_permit_cases :
    (reason : Text) (p : Option (Text × ℤ)) (meta : Dict Text) (next : ℤ)
    → ((r : Text) (d : ℤ) → p ≡ some (r, d) → IsGranted r d)
    → trim_space reason ≡ reason
    → Fits next
    → read_permit (settle_permit reason p next meta) ≡ settled reason p next
unfolding settle_permit settled
settle_permit_cases reason none meta next granted trimmed fits = rw trimmed (
    ground
      (arith, trimmed, read_permit-delete_permit meta, read_permit-write_permit reason next meta))
settle_permit_cases reason (some (r, d)) meta next granted trimmed fits = rw trimmed (
    ground (
      arith,
      trimmed,
      (granted r d refl).named,
      read_permit-delete_permit meta,
      read_permit-write_permit r next meta,
      read_permit-write_permit reason next meta,
    ))

pub read_permit-settle_permit :
    (reason : Text) (meta : Dict Text) (next : ℤ)
    → trim_space reason ≡ reason
    → Fits next
    → read_permit (settle_permit reason (read_permit meta) next meta)
      ≡ settled reason (read_permit meta) next
read_permit-settle_permit reason meta next =
    settle_permit_cases reason (read_permit meta) meta next (read_permit-IsGranted meta)

-- Nothing but `meta` differs.
pub record SameFacts (l l' : Ledger) : Type 0 where
  pub rows : l'.rows ≡ l.rows
  pub revisions : l'.revisions ≡ l.revisions
  pub omissions : l'.omissions ≡ l.omissions

amount_range :
    (p : Option (Text × ℤ))
    → ((r : Text) (d : ℤ) → p ≡ some (r, d) → IsGranted r d)
    → (pos 0 ≤ℤ amount p) × Fits (amount p)
amount_range none granted = omega arith
amount_range (some (r, d)) granted =
    let g = granted r d refl in omega (arith, g.positive, g.fits.0, g.fits.1)

-- `adjustPermit` moves the permit by exactly the change of the tokens, without wrapping: it rejects
-- an amount above the largest int64, and otherwise leaves the permit that `settled` describes. It
-- touches no fact, revision or omission.
pub adjust_permit_lem :
    (reason : Text) (d : ℤ) (l : Ledger)
    → trim_space reason ≡ reason
    → Fits d
    → let before = read_permit l.meta in
      ((adjust_permit reason d l ≡ err correction_rejected) × (max_int64 <ℤ amount before -ℤ d))
      ⊎ ((l' : Ledger) × (adjust_permit reason d l ≡ ok (tt, l'))
          × (read_permit l'.meta ≡ settled reason before (amount before -ℤ d))
          × SameFacts l l'
          × Fits (amount before -ℤ d))
unfolding adjust_permit
adjust_permit_lem reason d l trimmed fits =
    let before = read_permit l.meta in
    let (nonneg, fb) = amount_range before (read_permit-IsGranted l.meta) in
    elim (permit_after_exact (old_delta before) d nonneg fb fits) [
      | inl (over, large) ↦ inl (rw (over, adjust_permit), large)
      | inr (exact, fx) ↦ inr (
        record l { meta = settle_permit reason before (amount before -ℤ d) l.meta },
        rw (exact, adjust_permit),
        read_permit-settle_permit reason l.meta (amount before -ℤ d) trimmed fx,
        record { rows = refl; revisions = refl; omissions = refl },
        fx,
      )
    ]

-- The amount of the permit that is left, under a reason.
pub amount-settled :
    (reason : Text) (old : Option (Text × ℤ)) (next : ℤ)
    → is_empty reason ≡ false
    → amount (settled reason old next) ≡ (if leb_ℤ next (pos 0) then pos 0 else next)
unfolding settled
amount-settled reason old next named = ground (arith, named)

pub read_permit_range :
    (meta : Dict Text) → (pos 0 ≤ℤ amount (read_permit meta)) × Fits (amount (read_permit meta))
read_permit_range meta = amount_range (read_permit meta) (read_permit-IsGranted meta)
