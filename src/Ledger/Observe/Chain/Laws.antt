-- ===== src/Ledger/Observe/Chain/Laws.antt =====
-- What chaining the observations of a source makes of a day.
use where_token.Base.{
  ◌≡◌, refl, Bool, ◌&&◌, Option, none, some, List, [], ◌∷◌, ◌++◌, arith, if◌then◌else◌,
}
use where_token.Base.Text.{Text, text_eq, text_eq_iff}
use where_token.Base.Dict.{Dict, get, put, get-put}
use where_token.Ledger.Observe.Tables.{DayComp, is_blank}
use where_token.Ledger.Observe.Chain.{
  StoredObservation, is_window, within, delete_where, set_days, chain_step, chain_from,
  chain_day_map,
}

-- the last row of the day that counts something
unfoldable pub last_row : Text → List DayComp → Option DayComp
last_row day [] = none
last_row day (d ∷ ds) = elim (last_row day ds) [
  | some e ↦ some e
  | none ↦ if is_blank d then none else if text_eq d.day day then some d else none
]

-- What one observation says of a day: a row, no usage, or nothing at all.
unfoldable pub speaks : Text → StoredObservation → Option (Option DayComp)
speaks day ob = elim (last_row day ob.days) [
  | some d ↦ some (some d)
  | none ↦ if is_window ob && within ob.from ob.to day then some none else none
]

-- the latest observation that says something of the day
unfoldable pub last_word : Text → List StoredObservation → Option (Option DayComp)
last_word day [] = none
last_word day (ob ∷ obs) = elim (last_word day obs) [ some word ↦ some word | none ↦ speaks day ob ]

-- a word that decides, or what stood before it
abbrev pub or_before {ℓ} : {A : Type ℓ} → Option A → A → A
or_before none a = a
or_before (some b) _ = b

get-delete_where {ℓ} :
    {V : Type ℓ} (p : Text → Bool) (k : Text) (m : Dict V)
    → get k (delete_where p m) ≡ (if p k then none else get k m)
unfolding get delete_where
get-delete_where p k [] = ground arith
get-delete_where p k ((j, v) ∷ m) = ground (arith, text_eq_iff j k, get-delete_where p k m)

abbrev or_row : Option DayComp → Option DayComp → Option DayComp
or_row none old = old
or_row (some d) _ = some d

get-set_days :
    (k : Text) (days : Dict DayComp) (ds : List DayComp)
    → get k (set_days days ds) ≡ or_row (last_row k ds) (get k days)
unfolding set_days last_row
get-set_days k days [] = refl
get-set_days k days (d ∷ ds) =
    ground
      (arith, get-set_days k days ds, get-set_days k (put d.day d days) ds, get-put d.day k d days)

get-chain_step :
    (k : Text) (days : Dict DayComp) (ob : StoredObservation)
    → get k (chain_step days ob) ≡ or_before (speaks k ob) (get k days)
unfolding chain_step speaks
get-chain_step k days ob = ground (
  arith,
  get-set_days k days ob.days,
  get-set_days k (delete_where (within ob.from ob.to) days) ob.days,
  get-delete_where (within ob.from ob.to) k days,
)

pub get-chain_from :
    (k : Text) (days : Dict DayComp) (obs : List StoredObservation)
    → get k (chain_from days obs) ≡ or_before (last_word k obs) (get k days)
unfolding chain_from last_word
get-chain_from k days [] = refl
get-chain_from k days (ob ∷ obs) =
    ground (arith, get-chain_from k (chain_step days ob) obs, get-chain_step k days ob)

-- The chained row of a day is what the latest observation says of it that has a row for the day, or
-- a window with the day in it: that row, or none; it is none where no observation says anything.
pub get-chain_day_map :
    (day : Text) (obs : List StoredObservation)
    → get day (chain_day_map obs) ≡ or_before (last_word day obs) none
unfolding chain_day_map get
get-chain_day_map day obs = get-chain_from day [] obs

-- An observation added last decides the days that it speaks of, and no other.
pub get-chain_day_map_last :
    (day : Text) (obs : List StoredObservation) (ob : StoredObservation)
    → get day (chain_day_map (obs ++ (ob ∷ [])))
      ≡ or_before (speaks day ob) (get day (chain_day_map obs))
unfolding chain_day_map chain_from
get-chain_day_map_last day obs ob = last_from [] obs
  where
    last_from :
        (days : Dict DayComp) (os : List StoredObservation)
        → get day (chain_from days (os ++ (ob ∷ [])))
          ≡ or_before (speaks day ob) (get day (chain_from days os))
    last_from days [] = get-chain_step day days ob
    last_from days (o ∷ os) = last_from (chain_step days o) os
