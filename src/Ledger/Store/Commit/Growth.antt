-- ===== src/Ledger/Store/Commit/Growth.antt =====
-- Committing a scan lowers no stored count, covers what was observed, and is idempotent.
use where_token.Base.{◌≡◌, refl, inl, inr, false, Option, none, some, List, arith, Bool-cases}
use where_token.Base.Int.{◌≤ℤ◌, max_ℤ-left, max_ℤ-right, not_ltb_of_le}
use where_token.Base.Text.{Text, bytes}
use where_token.Base.Dict.{get}
use where_token.Event.{UsageEvent}
use where_token.Ledger.Fact.{Fact, max_fact, superset, lower_somewhere}
use where_token.Ledger.Store.Tables.{Row, Ledger, find}
use where_token.Ledger.Store.{reduce, raise_row, commit_usage}
use where_token.Ledger.Store.Commit.{absorb, find-upsert_facts, reduce-IsKeyed}

-- No count of the first fact is higher than the second's.
pub record AtMost (f g : Fact) : Type 0 where
  pub miss : f.miss ≤ℤ g.miss
  pub cache_read : f.cache_read ≤ℤ g.cache_read
  pub cache_create : f.cache_create ≤ℤ g.cache_create
  pub output : f.output ≤ℤ g.output
  pub reasoning : f.reasoning ≤ℤ g.reasoning

-- The fact keeps what an ordinary scan may not change.
pub record SameLabels (f g : Fact) : Type 0 where
  pub id : g.id ≡ f.id
  pub model : g.model ≡ f.model
  pub vendor : g.vendor ≡ f.vendor
  pub quality : g.quality ≡ f.quality
  pub derivation : g.derivation ≡ f.derivation

pub AtMost-refl : (f : Fact) → AtMost f f
AtMost-refl f = record {
  miss = omega arith;
  cache_read = omega arith;
  cache_create = omega arith;
  output = omega arith;
  reasoning = omega arith;
}

pub AtMost-trans : {f g h : Fact} → AtMost f g → AtMost g h → AtMost f h
AtMost-trans a b = record {
  miss = omega (arith, a.miss, b.miss);
  cache_read = omega (arith, a.cache_read, b.cache_read);
  cache_create = omega (arith, a.cache_create, b.cache_create);
  output = omega (arith, a.output, b.output);
  reasoning = omega (arith, a.reasoning, b.reasoning);
}

not_lower_of_AtMost : (f g : Fact) → AtMost f g → lower_somewhere g f ≡ false
unfolding lower_somewhere
not_lower_of_AtMost f g h = rw (
  not_ltb_of_le f.miss g.miss h.miss,
  not_ltb_of_le f.cache_read g.cache_read h.cache_read,
  not_ltb_of_le f.cache_create g.cache_create h.cache_create,
  not_ltb_of_le f.output g.output h.output,
  not_ltb_of_le f.reasoning g.reasoning h.reasoning,
)

not_superset_of_AtMost : (f g : Fact) → AtMost f g → superset f g ≡ false
unfolding superset
not_superset_of_AtMost f g h = ground (arith, not_lower_of_AtMost f g h)

module _ (sha256_hex : Text → Text) where
  pub max_fact-left : (f g : Fact) → AtMost f (max_fact sha256_hex f g)
  unfolding max_fact
  max_fact-left f g = record {
    miss = max_ℤ-left f.miss g.miss;
    cache_read = max_ℤ-left f.cache_read g.cache_read;
    cache_create = max_ℤ-left f.cache_create g.cache_create;
    output = max_ℤ-left f.output g.output;
    reasoning = max_ℤ-left f.reasoning g.reasoning;
  }

  pub max_fact-right : (f g : Fact) → AtMost g (max_fact sha256_hex f g)
  unfolding max_fact
  max_fact-right f g = record {
    miss = max_ℤ-right f.miss g.miss;
    cache_read = max_ℤ-right f.cache_read g.cache_read;
    cache_create = max_ℤ-right f.cache_create g.cache_create;
    output = max_ℤ-right f.output g.output;
    reasoning = max_ℤ-right f.reasoning g.reasoning;
  }

  raise_row-AtMost :
      (f : Fact) (r : Row)
      → AtMost r.fact (raise_row sha256_hex f r).fact × AtMost f (raise_row sha256_hex f r).fact
  unfolding raise_row
  raise_row-AtMost f r =
      let old = max_fact-left r.fact f in
      let new = max_fact-right r.fact f in
      (
        record {
          miss = old.miss;
          cache_read = old.cache_read;
          cache_create = old.cache_create;
          output = old.output;
          reasoning = old.reasoning;
        },
        record {
          miss = new.miss;
          cache_read = new.cache_read;
          cache_create = new.cache_create;
          output = new.output;
          reasoning = new.reasoning;
        },
      )

  -- The row under an identity after a scan is committed: the observation that the scan reduced to is
  -- absorbed by the row that was there.
  pub find-commit_usage :
      (events : List UsageEvent) (l : Ledger) (j : Text)
      → find j (commit_usage sha256_hex events l).rows
        ≡ absorb sha256_hex (bytes "scan") (get j (reduce sha256_hex events).0) (find j l.rows)
  unfolding commit_usage
  find-commit_usage events l j =
      find-upsert_facts sha256_hex (bytes "scan") (reduce sha256_hex events).0 l.rows j
        (reduce-IsKeyed sha256_hex events)

  absorb_idem :
      (origin : Text) (o : Option Fact) (r : Option Row)
      → absorb sha256_hex origin o (absorb sha256_hex origin o r) ≡ absorb sha256_hex origin o r
  unfolding absorb
  absorb_idem origin none r = refl
  absorb_idem origin (some f) none = rw (not_superset_of_AtMost f f (AtMost-refl f))
  absorb_idem origin (some f) (some cur) = elim (Bool-cases (superset f cur.fact)) [
    | inl more ↦ rw (more, not_superset_of_AtMost f _ (raise_row-AtMost f cur).1)
    | inr kept ↦ rw (kept, kept)
  ]

  -- Committing the same scan a second time changes the row of no identity.
  pub commit_usage_idem :
      (events : List UsageEvent) (l : Ledger) (j : Text)
      → find j (commit_usage sha256_hex events (commit_usage sha256_hex events l)).rows
        ≡ find j (commit_usage sha256_hex events l).rows
  commit_usage_idem events l j =
      let again = find-commit_usage events (commit_usage sha256_hex events l) j in
      rw (again, find-commit_usage events l j)
        (absorb_idem (bytes "scan") (get j (reduce sha256_hex events).0) (find j l.rows))

  -- What a scan may do to a stored row: raise counts, and nothing else but the time and the hash.
  pub record Grown (r r' : Row) : Type 0 where
    pub labels : SameLabels r.fact r'.fact
    pub version : r'.parser_version ≡ r.parser_version
    pub counts : AtMost r.fact r'.fact

  Grown-refl : (r : Row) → Grown r r
  Grown-refl r = record {
    labels = record { id = refl; model = refl; vendor = refl; quality = refl; derivation = refl };
    version = refl;
    counts = AtMost-refl r.fact;
  }

  raise_row-Grown : (f : Fact) (r : Row) → Grown r (raise_row sha256_hex f r)
  unfolding raise_row
  raise_row-Grown f r = record {
    labels = record { id = refl; model = refl; vendor = refl; quality = refl; derivation = refl };
    version = refl;
    counts = (raise_row-AtMost f r).0;
  }

  absorb-Grown :
      (origin : Text) (o : Option Fact) (r : Row)
      → (r' : Row) × (absorb sha256_hex origin o (some r) ≡ some r') × Grown r r'
  unfolding absorb
  absorb-Grown origin none r = (r, refl, Grown-refl r)
  absorb-Grown origin (some f) r = elim (Bool-cases (superset f r.fact)) [
    | inl more ↦ (raise_row sha256_hex f r, rw more, raise_row-Grown f r)
    | inr kept ↦ (r, rw kept, Grown-refl r)
  ]

  -- After any scan a stored identity is still stored, with the same model, vendor, quality,
  -- derivation and parser version, and with no lower count.
  pub commit_usage-Grown :
      (events : List UsageEvent) (l : Ledger) (j : Text) (r : Row)
      → find j l.rows ≡ some r
      → (r' : Row) × (find j (commit_usage sha256_hex events l).rows ≡ some r') × Grown r r'
  commit_usage-Grown events l j r stored =
      let found = find-commit_usage events l j in
      let (r', e, g) = absorb-Grown (bytes "scan") (get j (reduce sha256_hex events).0) r in
      (r', rw (found, stored) e, g)
