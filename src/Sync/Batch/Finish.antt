-- ===== src/Sync/Batch/Finish.antt =====
-- internal/syncagg/batch.go: the order of the rows of a batch, its sources, and Build. `sort.Slice`
-- may leave rows that differ in their hash only in any order; here they keep theirs.
use where_token.Base.{
  Bool, ◌&&◌, ◌||◌, Option, none, some, List, [], ◌∷◌, ◌++◌, if◌then◌else◌, any_of,
}
use where_token.Base.Int.{ℤ, pos, leb_ℤ}
use where_token.Base.Text.{Text, text_eq, is_empty}
use where_token.Base.Dict.{member}
use where_token.Base.Order.{text_leb}
use where_token.Sync.{SourceScope, device_local, account_global, same_scope, scope_text, DailyModel}
use where_token.Sync.Batch.{SourceInput, Source, BuildInput, Batch, hash_for, daily_rows}

-- the first text that differs decides
abbrev then_by : Text → Text → Bool → Bool
then_by s t rest = if text_eq s t then rest else text_leb s t

-- the order of `DailyModelUsage`
unfoldable pub daily_leb : DailyModel → DailyModel → Bool
daily_leb a b = then_by a.date b.date (
    then_by a.tool b.tool (
      then_by (scope_text a.source_scope) (scope_text b.source_scope)
        (then_by a.vendor b.vendor (text_leb a.model b.model))))

unfoldable pub insert_daily : DailyModel → List DailyModel → List DailyModel
insert_daily r [] = r ∷ []
insert_daily r (q ∷ rows) =
    let rest = insert_daily r rows in if daily_leb r q then r ∷ q ∷ rows else q ∷ rest

unfoldable pub sort_daily : List DailyModel → List DailyModel
sort_daily [] = []
sort_daily (r ∷ rows) = insert_daily r (sort_daily rows)

unfoldable pub is_row_of : Text → SourceScope → DailyModel → Bool
is_row_of tool scope r = text_eq r.tool tool && same_scope r.source_scope scope

abbrev scope_if : Bool → SourceScope → List SourceScope
scope_if b scope = if b then scope ∷ [] else []

-- `sourceScopes`
unfoldable pub source_scopes : List DailyModel → Text → List SourceScope
source_scopes rows tool =
    scope_if (any_of (is_row_of tool account_global) rows) account_global
    ++ scope_if (any_of (is_row_of tool device_local) rows) device_local

abbrev or_local : List SourceScope → List SourceScope
or_local [] = device_local ∷ []
or_local (scope ∷ scopes) = scope ∷ scopes

module _ (hmac_hex : Text → Text → Text) (i : BuildInput) (zone : ℤ) where
  -- the loop over the scopes of one source, with the ids seen
  unfoldable pub add_scopes :
      SourceInput → List SourceScope → List Text × List Source → Option (List Text × List Source)
  add_scopes src [] acc = some acc
  add_scopes src (scope ∷ scopes) (seen, out) =
      let skip = add_scopes src scopes (seen, out) in
      elim (hash_for hmac_hex i zone src.tool scope) [
        | none ↦ if same_scope scope account_global then skip else none
        | some hash ↦
            let id = src.tool ++ (0 ∷ scope_text scope ++ (0 ∷ hash)) in
            let source : Source = record {
              tool = src.tool;
              detected = src.detected;
              status = src.status;
              quality = src.quality;
              source_scope = scope;
              source_key_hash = hash;
            } in
            let more = add_scopes src scopes (id ∷ seen, out ++ source ∷ []) in
            if member id seen then skip else more
      ]

  -- the loop over the sources
  unfoldable pub add_sources :
      List DailyModel → List SourceInput → List Text × List Source → Option (List Source)
  add_sources rows [] (seen, out) = some out
  add_sources rows (src ∷ sources) acc =
      elim (add_scopes src (or_local (source_scopes rows src.tool)) acc) [
        | none ↦ none
        | some acc' ↦ add_sources rows sources acc'
      ]

  abbrev batch_of : Option (List DailyModel) → Option Batch
  batch_of none = none
  batch_of (some rows) =
      let sorted = sort_daily rows in
      elim (add_sources sorted i.sources ([], [])) [
        | none ↦ none
        | some sources ↦ some (record { sources = sources; daily_model_usage = sorted })
      ]

-- `Build`; `none` is an error
unfoldable pub build : (Text → Text → Text) → BuildInput → Option Batch
build hmac_hex i = elim i.loc [
  | none ↦ none
  | some zone ↦
      if is_empty i.device_id || leb_ℤ i.revision (pos 0)
      then none
      else batch_of hmac_hex i zone (daily_rows hmac_hex i zone)
]
