-- ===== src/Ledger/Observe/Tables.antt =====
-- internal/ledger/observe.go: the tables of the account-API observations, and the SQL statements on
-- them. A list holds the rows in the order of their rowid.
use where_token.Base.{select, ℕ, Bool, not, ◌&&◌, List, [], ◌∷◌, ◌++◌, if◌then◌else◌, any_of, map}
use where_token.Base.Int.{ℤ, pos, eqb_ℤ}
use where_token.Base.Int64.{add64}
use where_token.Base.Text.{Text, text_eq, is_empty}
use where_token.Base.Order.{sort_by}

-- `dayComp`
pub record DayComp : Type 0 where
  pub day : Text
  pub miss : ℤ
  pub cache_read : ℤ
  pub cache_create : ℤ
  pub output : ℤ

-- d.Miss + d.CacheRead + d.CacheCreate + d.Output
unfoldable pub day_sum : DayComp → ℤ
day_sum d = add64 (add64 (add64 d.miss d.cache_read) d.cache_create) d.output

-- a row that counts nothing
unfoldable pub is_blank : DayComp → Bool
is_blank d = eqb_ℤ (day_sum d) (pos 0)

-- `observationMeta`
pub record ObservationMeta : Type 0 where
  pub observed_at : Text
  pub window_from : Text
  pub window_to : Text
  pub coverage : Text
  pub origin : Text

-- a row of `api_observations`
pub record Observation : Type 0 where
  pub source : Text
  pub payload_hash : Text
  pub tokens : ℤ
  pub events : ℕ
  pub parser_version : ℤ
  pub meta : ObservationMeta

-- a row of `api_observation_days`
pub record DayRow : Type 0 where
  pub source : Text
  pub payload_hash : Text
  pub comp : DayComp

-- `WindowAudit`
pub record WindowAudit : Type 0 where
  pub from : Text
  pub to : Text
  pub declared : ℤ
  pub raw_rows : ℤ
  pub deduped : ℤ
  pub days : ℤ
  pub miss : ℤ
  pub cache_read : ℤ
  pub cache_create : ℤ
  pub output : ℤ
  pub validation : Text

-- a row of `api_window_audits`
pub record AuditRow : Type 0 where
  pub source : Text
  pub audit : WindowAudit
  pub observed_at : Text

pub record Observations : Type 0 where
  pub observations : List Observation
  pub days : List DayRow
  pub audits : List AuditRow

abbrev pub no_observations : Observations
no_observations = record { observations = []; days = []; audits = [] }

unfoldable pub is_under : Text → Text → Observation → Bool
is_under source hash o = text_eq o.source source && text_eq o.payload_hash hash

-- Does a row of `api_observations` have the primary key?
abbrev pub has_row : Text → Text → List Observation → Bool
has_row source hash = any_of (is_under source hash)

unfoldable pub is_day_of : Text → Text → DayRow → Bool
is_day_of source hash r = text_eq r.source source && text_eq r.payload_hash hash

abbrev pub day_rows : Text → Text → List DayComp → List DayRow
day_rows source hash = map (λ d. record { source = source; payload_hash = hash; comp = d })

-- `insertObservation`: INSERT OR IGNORE of the observation, then its days that count something. The
-- days of one observation differ, so that no day is there already.
unfoldable pub insert_observation :
    Text → Text → ℤ → ℕ → ℤ → ObservationMeta → List DayComp → Observations → Observations
insert_observation source hash tokens n version meta days o =
    if has_row source hash o.observations then o else record o {
      observations =
          o.observations
          ++ record {
            source = source;
            payload_hash = hash;
            tokens = tokens;
            events = n;
            parser_version = version;
            meta = meta;
          }
            ∷ [];
      days = o.days ++ day_rows source hash (select (λ d. not (is_blank d)) days);
    }

-- `observationDays`
unfoldable pub observation_days : Text → Text → List DayRow → List DayComp
observation_days source hash rows =
    sort_by (λ d. d.day) (map (λ r. r.comp) (select (is_day_of source hash) rows))

-- WHERE source = ? AND observed_at != ''
abbrev pub is_dated : Text → Observation → Bool
is_dated source o = text_eq o.source source && not (is_empty o.meta.observed_at)

-- ORDER BY observed_at ASC, rowid ASC, of the dated rows of a source
unfoldable pub dated_asc : Text → List Observation → List Observation
dated_asc source os = sort_by (λ o. o.meta.observed_at) (select (is_dated source) os)
