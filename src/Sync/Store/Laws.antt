-- ===== src/Sync/Store/Laws.antt =====
-- What ApplyUsage does to a stored row.
use where_token.Base.{
  ◌≡◌, refl, sym, ap, ◌∙◌, ◌⊎◌, inl, inr, true, none, some, List, [], ◌∷◌, arith, if◌then◌else◌,
  Bool-cases, Option-cases,
}
use mathlib.Core.Option.{some-injective}
use where_token.Base.Int.{ℤ, ◌<ℤ◌}
use where_token.Base.Text.{Text, text_eq, text_eq_iff}
use where_token.Sync.{DailyModel, SourceScope, device_local, account_global, same_scope}
use where_token.Sync.Store.{
  UsageRow, UsageError, UsageResult, applied, refused, same_daily, same_row, find_row, write_usage,
  apply_found, apply_row, apply_rows, apply_usage,
}

same_scope_same : (a b c : SourceScope) → same_scope a b ≡ true → same_scope a c ≡ same_scope b c
same_scope_same device_local device_local c h = refl
same_scope_same account_global account_global c h = refl
same_scope_same device_local account_global c h = ground arith
same_scope_same account_global device_local c h = ground arith

text_eq_same : (s t u : Text) → text_eq s t ≡ true → text_eq s u ≡ text_eq t u
text_eq_same s t u h = ap (λ x. text_eq x u) ((text_eq_iff s t).0 h)

pub same_daily_same : (a b c : DailyModel) → same_daily a b ≡ true → same_daily a c ≡ same_daily b c
unfolding same_daily
same_daily_same a b c h = ground (
  arith,
  same_scope_same a.source_scope b.source_scope c.source_scope,
  text_eq_same a.tool b.tool c.tool,
  text_eq_same a.source_key_hash b.source_key_hash c.source_key_hash,
  text_eq_same a.date b.date c.date,
  text_eq_same a.vendor b.vendor c.vendor,
  text_eq_same a.model b.model c.model,
)

text_eq_meet : (s t u : Text) → text_eq s u ≡ true → text_eq t u ≡ true → text_eq s t ≡ true
text_eq_meet s t u h k = (text_eq_iff s t).1 ((text_eq_iff s u).0 h ∙ sym ((text_eq_iff t u).0 k))

same_scope_meet :
    (a b c : SourceScope) → same_scope a c ≡ true → same_scope b c ≡ true → same_scope a b ≡ true
same_scope_meet a b c h k = ground (arith, h, k)

pub same_daily_meet :
    (a b c : DailyModel) → same_daily a c ≡ true → same_daily b c ≡ true → same_daily a b ≡ true
unfolding same_daily
same_daily_meet a b c h k = ground (
  arith,
  same_scope_meet a.source_scope b.source_scope c.source_scope,
  text_eq_meet a.tool b.tool c.tool,
  text_eq_meet a.source_key_hash b.source_key_hash c.source_key_hash,
  text_eq_meet a.date b.date c.date,
  text_eq_meet a.vendor b.vendor c.vendor,
  text_eq_meet a.model b.model c.model,
)

-- A written row stands under the keys that it stood under.
same_row-written :
    (user device u v : ℤ) (c d : DailyModel) (r : UsageRow)
    → same_row user device d r ≡ true
    → same_row u v c (record r { daily = d; writer_device_id = device }) ≡ same_row u v c r
unfolding same_row
same_row-written user device u v c d r h = ground (arith, same_daily_same r.daily d c)

module _ (user device : ℤ) (d : DailyModel) (u v : ℤ) (c : DailyModel) where
  -- A row that is found stays, or is the row of the same key that is written over.
  find-write_usage :
      (rows : List UsageRow) (r : UsageRow)
      → find_row u v c rows ≡ some r
      → (find_row u v c (write_usage user device d rows) ≡ some r)
        ⊎ ((r' : UsageRow) × (find_row u v c (write_usage user device d rows) ≡ some r')
            × (r'.daily ≡ d)
            × (find_row user device d rows ≡ some r))
  unfolding find_row write_usage
  find-write_usage [] r h = cc
  find-write_usage (q ∷ rows) r h = elim (Bool-cases (same_row u v c q)) [
    | inl mine ↦
        let e : some q ≡ some r = sym (rw (mine, if◌then◌else◌) refl) ∙ h in
        elim (Bool-cases (same_row user device d q)) [
          | inl over ↦
              let kept = same_row-written user device u v c d q over ∙ mine in
              inr (
                record q { daily = d; writer_device_id = device },
                rw (over, if◌then◌else◌, kept) refl,
                refl,
                rw (over, if◌then◌else◌) e,
              )
          | inr away ↦ inl (rw (away, if◌then◌else◌, mine) e)
        ]
    | inr other ↦
        let e : find_row u v c rows ≡ some r = sym (rw (other, if◌then◌else◌) refl) ∙ h in
        elim (Bool-cases (same_row user device d q)) [
          | inl over ↦
              let kept = same_row-written user device u v c d q over ∙ other in
              inl (rw (over, if◌then◌else◌, kept) e)
          | inr away ↦ elim (find-write_usage rows r e) [
            | inl same ↦ inl (rw (away, if◌then◌else◌, other) same)
            | inr (r', found, daily, old) ↦
                inr (r', rw (away, if◌then◌else◌, other) found, daily, rw (away, if◌then◌else◌) old)
          ]
        ]
  ]

UsageResult-cases :
    (x : UsageResult)
    → ((e : UsageError) × (x ≡ refused e)) ⊎ ((rows : List UsageRow) × (x ≡ applied rows))
UsageResult-cases (applied rows) = inr (rows, refl)
UsageResult-cases (refused e) = inl (e, refl)

applied-injective : {a b : List UsageRow} → applied a ≡ applied b → a ≡ b
applied-injective {a} {b} h = ground arith

-- A row is found again as it was, or with a later revision.
abbrev pub IsKept : ℤ → ℤ → DailyModel → UsageRow → List UsageRow → Type 0
IsKept u v c r rows =
    (r' : UsageRow) × (find_row u v c rows ≡ some r')
    × ((r' ≡ r) ⊎ (r.daily.revision <ℤ r'.daily.revision))

module _ (user device : ℤ) (u v : ℤ) (c : DailyModel) where
  apply_found-cases :
      (d : DailyModel) (rows rows' : List UsageRow) (r : UsageRow)
      → apply_found user device d rows (some r) ≡ applied rows'
      → (rows' ≡ rows)
        ⊎ ((rows' ≡ write_usage user device d rows) × (r.daily.revision <ℤ d.revision))
  apply_found-cases d rows rows' r h = ground arith

  apply_row-cases :
      (d : DailyModel) (rows rows' : List UsageRow)
      → apply_row user device d rows ≡ applied rows'
      → (rows' ≡ rows)
        ⊎ ((rows' ≡ write_usage user device d rows)
            × ((find_row user device d rows ≡ none)
                ⊎ ((r : UsageRow) × (find_row user device d rows ≡ some r)
                    × (r.daily.revision <ℤ d.revision))))
  unfolding apply_row
  apply_row-cases d rows rows' h = elim (Option-cases (find_row user device d rows)) [
    | inl missing ↦ inr (ground (arith, missing), inl missing)
    | inr (r, there) ↦ elim (apply_found-cases d rows rows' r (sym (rw there refl) ∙ h)) [
      | inl same ↦ inl same
      | inr (e, less) ↦ inr (e, inr (r, there, less))
    ]
  ]

  apply_row-IsKept :
      (d : DailyModel) (rows rows' : List UsageRow) (r : UsageRow)
      → apply_row user device d rows ≡ applied rows'
      → find_row u v c rows ≡ some r
      → IsKept u v c r rows'
  apply_row-IsKept d rows rows' r h found = elim (apply_row-cases d rows rows' h) [
    | inl same ↦ (r, rw same found, inl refl)
    | inr (e, reason) ↦ elim (find-write_usage user device d u v c rows r found) [
      | inl kept ↦ (r, rw e kept, inl refl)
      | inr (r', there, daily, old) ↦ elim reason [
        | inl missing ↦ cc
        | inr (q, here, less) ↦
            let same : q ≡ r = some-injective q r (sym here ∙ old) in
            (r', rw e there, inr (rw (daily, sym same) less))
      ]
    ]
  ]

  IsKept-trans :
      (r r' : UsageRow) (rows : List UsageRow)
      → (r' ≡ r) ⊎ (r.daily.revision <ℤ r'.daily.revision)
      → IsKept u v c r' rows
      → IsKept u v c r rows
  IsKept-trans r r' rows (inl same) (q, found, step) = (q, found, rw (sym same) step)
  IsKept-trans r r' rows (inr less) (q, found, inl same) = (q, found, inr (rw same less))
  IsKept-trans r r' rows (inr less) (q, found, inr more) =
      (q, found, inr (omega (arith, less, more)))

  apply_rows-IsKept :
      (ds : List DailyModel) (rows rows' : List UsageRow) (r : UsageRow)
      → apply_rows user device ds rows ≡ applied rows'
      → find_row u v c rows ≡ some r
      → IsKept u v c r rows'
  unfolding apply_rows
  apply_rows-IsKept [] rows rows' r h found = (r, rw (sym (applied-injective h)) found, inl refl)
  apply_rows-IsKept (d ∷ ds) rows rows' r h found =
      elim (UsageResult-cases (apply_row user device d rows)) [
        | inl (e, stop) ↦ ground (arith, stop)
        | inr (middle, go) ↦
            let (r', there, step) = apply_row-IsKept d rows middle r go found in
            IsKept-trans r r' rows' step
              (apply_rows-IsKept ds middle rows' r' (sym (rw (go, apply_rows) refl) ∙ h) there)
      ]

  -- Whatever ApplyUsage is given, and whether it succeeds or not, a stored row of any user is found
  -- again under its key, unchanged or with a later revision.
  pub apply_usage-IsKept :
      (ds : List DailyModel) (rows : List UsageRow) (r : UsageRow)
      → find_row u v c rows ≡ some r
      → IsKept u v c r (apply_usage user device ds rows).0
  unfolding apply_usage
  apply_usage-IsKept ds rows r found = elim (UsageResult-cases (apply_rows user device ds rows)) [
    | inl (e, stop) ↦ (r, rw (stop, apply_usage) found, inl refl)
    | inr (rows', go) ↦
        let (q, there, step) = apply_rows-IsKept ds rows rows' r go found in
        (q, rw (go, apply_usage) there, step)
  ]
