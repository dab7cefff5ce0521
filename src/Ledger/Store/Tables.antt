-- ===== src/Ledger/Store/Tables.antt =====
-- The tables of the ledger's database (`migrate`), and the SQL statements on `facts`.
use where_token.Base.{◌≡◌, refl, Option, none, some, List, [], ◌∷◌, arith, if◌then◌else◌}
use where_token.Base.Int.{ℤ}
use where_token.Base.Text.{Text, text_eq, text_eq_iff}
use where_token.Base.Dict.{Dict}
use where_token.Event.{Quality, Derivation}
use where_token.Ledger.Fact.{Fact}

-- a row of `facts`
pub record Row : Type 0 where
  pub fact : Fact
  pub parser_version : ℤ
  pub origin : Text

-- the columns of a revision that hold one side of the change
pub record Side : Type 0 where
  pub version : ℤ
  pub hash : Text
  pub model : Text
  pub vendor : Text
  pub ts : ℤ
  pub miss : ℤ
  pub cache_read : ℤ
  pub cache_create : ℤ
  pub output : ℤ
  pub reasoning : ℤ
  pub quality : Quality
  pub derivation : Derivation

-- a row of `revisions`, without the time at which it was written
pub record Revision : Type 0 where
  pub fact_id : Text
  pub reason : Text
  pub prev : Side
  pub next : Side

-- `revisions` has the newest row first; `omissions` holds the ids.
pub record Ledger : Type 0 where
  pub rows : List Row
  pub revisions : List Revision
  pub meta : Dict Text
  pub omissions : List Text

abbrev pub empty : Ledger
empty = record { rows = []; revisions = []; meta = []; omissions = [] }

-- SELECT … FROM facts WHERE id = ?, `loadFact`
unfoldable pub find : Text → List Row → Option Row
find id [] = none
find id (r ∷ rows) = if text_eq r.fact.id id then some r else find id rows

-- UPDATE facts SET … WHERE id = ?; `change` writes the columns
unfoldable pub update : Text → (Row → Row) → List Row → List Row
update id change [] = []
update id change (r ∷ rows) = (if text_eq r.fact.id id then change r else r) ∷ update id change rows

-- INSERT, of a row whose id is not there
unfoldable pub insert : Row → List Row → List Row
insert row [] = row ∷ []
insert row (r ∷ rows) = r ∷ insert row rows

abbrev pub changed : (Row → Row) → Option Row → Option Row
changed change none = none
changed change (some r) = some (change r)

-- An update that keeps the id of a row changes what is found under the id, and nothing else.
pub find-update :
    (id j : Text) (change : Row → Row) (rows : List Row)
    → ((r : Row) → (change r).fact.id ≡ r.fact.id)
    → find j (update id change rows)
      ≡ (if text_eq id j then changed change (find j rows) else find j rows)
unfolding find update
find-update id j change [] keeps = ground arith
find-update id j change (r ∷ rows) keeps = ground (
  arith,
  keeps r,
  text_eq_iff r.fact.id id,
  text_eq_iff r.fact.id j,
  text_eq_iff id j,
  find-update id j change rows keeps,
)

pub find-insert :
    (row : Row) (j : Text) (rows : List Row)
    → find row.fact.id rows ≡ none
    → find j (insert row rows) ≡ (if text_eq row.fact.id j then some row else find j rows)
unfolding find insert
find-insert row j [] new = refl
find-insert row j (r ∷ rows) new = ground (
  arith,
  text_eq_iff r.fact.id row.fact.id,
  text_eq_iff r.fact.id j,
  text_eq_iff row.fact.id j,
  find-insert row j rows,
)
