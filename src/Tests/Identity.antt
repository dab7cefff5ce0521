-- ===== src/Tests/Identity.antt =====
-- The theorems on the identity of a fact at concrete inputs.
use where_token.Base.{any_of, ◌≡◌, refl, false, none, some}
use where_token.Base.Int.{pos}
use where_token.Base.Text.{bytes}
use where_token.Event.{UsageEvent}
use where_token.Ledger.Key.{is_slash, split_at_separator, key, join_key, split_key}
use where_token.Ledger.Key.Laws.{key_of_path, split_key-join_key}
use where_token.Ledger.Fact.{Fact, event, fact_from}
use where_token.Ledger.Fact.ReadBack.{IsStored, key-event, key-event_lost}
use where_token.Tests.Data.{digest, request, id_of}

-- a request id in the file of a rollout
abbrev by_path : UsageEvent
by_path = request (bytes "/a/b/rollout.jsonl:7") (pos 3)

key_of_path_example : key by_path ≡ some (join_key (bytes "codex") (bytes "s1") (bytes "7"))
unfolding any_of
key_of_path_example =
    key_of_path by_path (bytes "/a/b") b'/' (bytes "rollout.jsonl") (bytes "7")
      (record { fresh = refl; sourced = refl }) refl refl refl
      (record { named = refl; no_slash = refl; no_colon = refl }) refl refl

split_key-join_key_example :
    split_key (join_key (bytes "codex") (bytes "s1") (bytes "7"))
    ≡ some (bytes "codex", bytes "s1", bytes "7")
unfolding any_of
split_key-join_key_example =
    split_key-join_key (bytes "codex") (bytes "s1") (bytes "7") refl refl refl refl refl

-- a stored fact
abbrev stored : Fact
stored = fact_from digest (request (bytes "r1") (pos 3)) (id_of (bytes "r1"))

stored-IsStored : IsStored stored
unfolding any_of fact_from split_key split_at_separator
stored-IsStored = record {
  fresh = refl;
  sourced = refl;
  named = refl;
  no_slash = refl;
  joined = refl;
}

stored_plain : any_of is_slash stored.session_id ≡ false
unfolding any_of fact_from split_key split_at_separator
stored_plain = refl

key-event_example : key (event stored) ≡ some stored.id
key-event_example = key-event stored stored-IsStored stored_plain

-- a stored fact of a session that is named by a path
abbrev by_directory : Fact
by_directory = record stored {
  id = join_key (bytes "codex") (bytes "work/s1") (bytes "r1");
  source = bytes "codex";
  session_id = bytes "work/s1";
  request_key = bytes "r1";
  skip = false;
}

by_directory-IsStored : IsStored by_directory
unfolding any_of fact_from
by_directory-IsStored = record {
  fresh = refl;
  sourced = refl;
  named = refl;
  no_slash = refl;
  joined = refl;
}

key-event_lost_example : key (event by_directory) ≡ none
unfolding any_of
key-event_lost_example =
    key-event_lost by_directory by_directory-IsStored (bytes "work") b'/' (bytes "s1") refl refl
      refl refl refl
