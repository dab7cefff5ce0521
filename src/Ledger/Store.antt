-- ===== src/Ledger/Store.antt =====
-- internal/ledger/ledger.go: the operations of the database that commit a scan, import a cache, note
-- a complete reread, and list what a scan did not emit. Corrections are in `Ledger.Correct`.
pub mod Tables
pub mod Commit
use where_token.Base.{
  ℕ, ◌+◌, Bool, true, false, not, ◌&&◌, ◌||◌, Option, none, some, List, [], ◌∷◌, if◌then◌else◌,
  length, is_some,
}
use where_token.Base.Int.{ℤ, pos, eqb_ℤ, ◌+ℤ◌}
use where_token.Base.Text.{Text, bytes, is_empty, text_eq}
use where_token.Base.Decimal.{format_int}
use where_token.Base.Dict.{Dict, get, put, member}
use where_token.Event.{UsageEvent, is_provider_api, is_retained}
use where_token.Ledger.Key.{key}
use where_token.Ledger.Fact.{Fact, fact_from, max_fact, superset, event}
use Tables.{Row, Ledger, find, insert, update}

-- `ParserVersion`
abbrev pub parser_version : ℤ
parser_version = pos 1

unfoldable pub counts_nothing : UsageEvent → Bool
counts_nothing e =
    eqb_ℤ e.miss (pos 0)
    && eqb_ℤ e.cache_read (pos 0)
    && eqb_ℤ e.cache_create (pos 0)
    && eqb_ℤ e.output (pos 0)
    && eqb_ℤ e.reasoning (pos 0)

-- the row that the INSERT of `upsertFact` writes
abbrev pub new_row : Text → Fact → Row
new_row origin f = record { fact = f; parser_version = parser_version; origin = origin }

module _ (sha256_hex : Text → Text) where
  -- the body of the loop of `reduce`, on an event with a key
  unfoldable pub reduce_keyed : Dict Fact → UsageEvent → Text → Dict Fact
  reduce_keyed out e id =
      let f = fact_from sha256_hex e id in
      put id (elim (get id out) [ none ↦ f | some prev ↦ max_fact sha256_hex prev f ]) out

  unfoldable pub reduce_event : Dict Fact × ℕ → UsageEvent → Dict Fact × ℕ
  reduce_event (out, unkeyed) e =
      if counts_nothing e
      then (out, unkeyed)
      else elim (key e) [ none ↦ (out, unkeyed + 1) | some id ↦ (reduce_keyed out e id, unkeyed) ]

  unfoldable pub reduce_from : Dict Fact × ℕ → List UsageEvent → Dict Fact × ℕ
  reduce_from acc [] = acc
  reduce_from acc (e ∷ events) = reduce_from (reduce_event acc e) events

  -- `reduce`: the facts by identity, and the number of events without one
  unfoldable pub reduce : List UsageEvent → Dict Fact × ℕ
  reduce = reduce_from ([], 0)

  -- the columns that the UPDATE of `upsertFact` writes
  unfoldable pub raise_row : Fact → Row → Row
  raise_row f row =
      let merged = max_fact sha256_hex row.fact f in
      record row {
        fact = record row.fact {
          miss = merged.miss;
          cache_read = merged.cache_read;
          cache_create = merged.cache_create;
          output = merged.output;
          reasoning = merged.reasoning;
          ts = merged.ts;
          hash = merged.hash;
        };
      }

  -- `upsertFact`
  unfoldable pub upsert_fact : Text → Fact → List Row → List Row
  upsert_fact origin f rows = elim (find f.id rows) [
    | none ↦ insert (new_row origin f) rows
    | some cur ↦ if superset f cur.fact then update f.id (raise_row f) rows else rows
  ]

  unfoldable pub upsert_facts : Text → Dict Fact → List Row → List Row
  upsert_facts origin [] rows = rows
  upsert_facts origin ((id, f) ∷ facts) rows = upsert_facts origin facts (upsert_fact origin f rows)

  -- `CommitUsage`, `commitLocked`: with no fact there is no transaction
  unfoldable pub commit_usage : List UsageEvent → Ledger → Ledger
  commit_usage events l = record l { rows = upsert_facts (bytes "scan") (reduce events).0 l.rows }

  -- `importedLocked`
  unfoldable pub imported : Ledger → Bool
  imported l = elim (get (bytes "imported") l.meta) [
    | none ↦ false
    | some v ↦ text_eq v (bytes "1")
  ]

  -- `Import`; `gaps` is the number of blobs that could not be decoded
  unfoldable pub import_cache : List UsageEvent → ℤ → Ledger → Ledger
  import_cache events gaps l =
      if imported l
      then l
      else let (facts, unkeyed) = reduce events in
        record l {
          rows = upsert_facts (bytes "import") facts l.rows;
          meta = put (bytes "import_unkeyed") (format_int (pos unkeyed)) (
              put (bytes "import_gaps") (format_int gaps)
                (put (bytes "imported") (bytes "1") l.meta));
        }
