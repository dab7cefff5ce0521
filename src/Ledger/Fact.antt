-- ===== src/Ledger/Fact.antt =====
-- internal/ledger/ledger.go: a fact, its payload hash, and how two observations of one fact are
-- compared and merged. `sha256_hex` is the hexadecimal SHA-256 of a byte string.
pub mod ReadBack
use where_token.Base.{
  Bool, true, false, ◌&&◌, ◌||◌, Option, none, some, List, [], ◌∷◌, ◌++◌, if◌then◌else◌,
}
use where_token.Base.Int.{ℤ, ltb_ℤ, max_ℤ}
use where_token.Base.Int64.{add64}
use where_token.Base.Text.{Text, is_empty}
use where_token.Base.Decimal.{format_int}
use where_token.Event.{
  Quality, Derivation, UsageEvent, Time, quality_text, derivation_text, unix_nano,
}
use where_token.Ledger.Key.{separator, split_key}

-- `fact`
pub record Fact : Type 0 where
  pub id : Text
  pub source : Text
  pub session_id : Text
  pub request_key : Text
  pub model : Text
  pub vendor : Text
  pub quality : Quality
  pub derivation : Derivation
  pub ts : ℤ
  pub miss : ℤ
  pub cache_read : ℤ
  pub cache_create : ℤ
  pub output : ℤ
  pub reasoning : ℤ
  pub skip : Bool
  pub hash : Text

infixr 66 ◌⏎◌
abbrev ◌⏎◌ : Text → Text → Text
s ⏎ t = s ++ (b'\n' ∷ t)

-- what `hashFact` prints into the hash
unfoldable pub payload : Fact → Text
payload f =
    f.model
    ⏎ f.vendor
    ⏎ format_int f.ts
    ⏎ format_int f.miss
    ⏎ format_int f.cache_read
    ⏎ format_int f.cache_create
    ⏎ format_int f.output
    ⏎ format_int f.reasoning
    ⏎ quality_text f.quality
    ⏎ derivation_text f.derivation

-- `splitKey`, whose failure leaves three empty texts
abbrev pub parts_or_empty : Option (Text × Text × Text) → Text × Text × Text
parts_or_empty none = ([], [], [])
parts_or_empty (some parts) = parts

module _ (sha256_hex : Text → Text) where
  unfoldable pub hash_fact : Fact → Text
  hash_fact f = sha256_hex (payload f)

  -- `f.Hash = hashFact(f)`
  abbrev pub rehash : Fact → Fact
  rehash f = record f { hash = hash_fact f }

  unfoldable pub fact_from : UsageEvent → Text → Fact
  fact_from e id =
      let (source, session_id, req) = parts_or_empty (split_key id) in
      rehash (record {
        id = id;
        source = source;
        session_id = session_id;
        request_key = req;
        model = e.model;
        vendor = e.vendor;
        quality = e.quality;
        derivation = e.derivation;
        ts = unix_nano e.timestamp;
        miss = e.miss;
        cache_read = e.cache_read;
        cache_create = e.cache_create;
        output = e.output;
        reasoning = e.reasoning;
        skip = e.skip_request;
        hash = [];
      })

  unfoldable pub max_fact : Fact → Fact → Fact
  max_fact a b = rehash (record a {
    miss = max_ℤ a.miss b.miss;
    cache_read = max_ℤ a.cache_read b.cache_read;
    cache_create = max_ℤ a.cache_create b.cache_create;
    output = max_ℤ a.output b.output;
    reasoning = max_ℤ a.reasoning b.reasoning;
    ts = max_ℤ a.ts b.ts;
  })

-- Some component of the new observation is lower.
unfoldable pub lower_somewhere : Fact → Fact → Bool
lower_somewhere next cur =
    ltb_ℤ next.miss cur.miss
    || ltb_ℤ next.cache_read cur.cache_read
    || ltb_ℤ next.cache_create cur.cache_create
    || ltb_ℤ next.output cur.output
    || ltb_ℤ next.reasoning cur.reasoning

unfoldable pub superset : Fact → Fact → Bool
superset next cur = if lower_somewhere next cur then false else lower_somewhere cur next

-- `fact.event`
unfoldable pub event : Fact → UsageEvent
event f = record {
  source = f.source;
  vendor = f.vendor;
  source_root = [];
  session_id = f.session_id;
  request_id =
      if is_empty f.session_id then f.request_key else f.session_id ++ (separator ∷ f.request_key);
  model = f.model;
  provider = [];
  workspace = [];
  timestamp = f.ts;
  miss = f.miss;
  cache_read = f.cache_read;
  cache_create = f.cache_create;
  output = f.output;
  reasoning = f.reasoning;
  quality = f.quality;
  derivation = f.derivation;
  skip_request = f.skip;
}

-- `factTokens`
unfoldable pub fact_tokens : Fact → ℤ
fact_tokens f = add64 (add64 (add64 f.miss f.cache_read) f.cache_create) f.output
