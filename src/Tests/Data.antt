-- ===== src/Tests/Data.antt =====
-- The inputs of the tests of the ledger and of the totals.
use where_token.Base.{false, [], ◌∷◌}
use where_token.Base.Int.{ℤ, pos}
use where_token.Base.Text.{Text, bytes}
use where_token.Event.{Quality, Derivation, UsageEvent}
use where_token.Ledger.Key.{join_key}
use where_token.Ledger.Fact.{fact_from}
use where_token.Ledger.Store.{new_row}
use where_token.Ledger.Store.Tables.{Row, Ledger}

-- in place of SHA-256
abbrev pub digest : Text → Text
digest s = s

-- an event of a session, by its request id and the tokens that it missed
abbrev pub request : Text → ℤ → UsageEvent
request request_id miss = record {
  source = bytes "codex";
  vendor = bytes "openai";
  source_root = [];
  session_id = bytes "s1";
  request_id = request_id;
  model = bytes "m";
  provider = [];
  workspace = [];
  timestamp = pos 1000;
  miss = miss;
  cache_read = pos 7;
  cache_create = pos 0;
  output = pos 5;
  reasoning = pos 0;
  quality = Quality.authoritative;
  derivation = Derivation.raw;
  skip_request = false;
}

abbrev pub id_of : Text → Text
id_of request_id = join_key (bytes "codex") (bytes "s1") request_id

abbrev pub row_of : Text → ℤ → Row
row_of request_id miss =
    new_row (bytes "scan") (fact_from digest (request request_id miss) (id_of request_id))

-- the ledger with two requests of the session
abbrev pub two_rows : Ledger
two_rows = record {
  rows = row_of (bytes "r1") (pos 100) ∷ row_of (bytes "r2") (pos 20) ∷ [];
  revisions = [];
  meta = [];
  omissions = [];
}
