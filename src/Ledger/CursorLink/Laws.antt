-- ===== src/Ledger/CursorLink/Laws.antt =====
-- What a sequence of answers can do to the association.
use where_token.Base.{
  ◌≡◌, refl, sym, ◌⊎◌, inl, inr, ◌∙◌, true, false, List, [], ◌∷◌, arith, if◌then◌else◌,
}
use where_token.Base.Text.{Text, bytes, text_eq, text_eq_iff, is_empty, trim_space}
use where_token.Base.Dict.{Dict, put, get-put}
use where_token.Event.{Time}
use where_token.Ledger.CursorLink.{
  HistorySummary, CursorLink, LinkError, LinkResult, linked, refused, read, put_all, confirm_writes,
  is_confirmed, is_declined, confirm, decline, commit_cursor_link, meta_after, run_links,
}
use where_token.Ledger.CursorLink.Name

-- A confirmed association decides every later answer: nothing is written, whatever is answered.
pub commit_cursor_link_confirmed :
    (summary : HistorySummary) (link : CursorLink) (meta : Dict Text)
    → read Name.decision meta ≡ bytes "confirmed"
    → meta_after meta (commit_cursor_link summary link meta) ≡ meta
unfolding commit_cursor_link confirm decline
commit_cursor_link_confirmed summary link meta h =
    let e : is_confirmed (read Name.decision meta) ≡ true =
      (text_eq_iff (bytes "confirmed") (read Name.decision meta)).1 (sym h) in
    ground (arith, e)

read-put :
    (k j v : Text) (meta : Dict Text)
    → read j (put k v meta) ≡ (if text_eq k j then v else read j meta)
unfolding read
read-put k j v meta = ground (arith, get-put k j v meta)

-- what is read after writes
unfoldable written : Text → List (Text × Text) → Text → Text
written j [] old = old
written j ((k, v) ∷ writes) old = written j writes (if text_eq k j then v else old)

read-put_all :
    (writes : List (Text × Text)) (meta meta' : Dict Text) (j : Text)
    → put_all writes meta ≡ linked meta'
    → read j meta' ≡ written j writes (read j meta)
unfolding put_all written
read-put_all [] meta meta' j h = ground arith
read-put_all ((k, v) ∷ writes) meta meta' j h =
    ground (arith, read-put_all writes (put k v meta) meta' j, read-put k j v meta)

LinkResult-cases :
    (r : LinkResult) → ((e : LinkError) × (r ≡ refused e)) ⊎ ((m : Dict Text) × (r ≡ linked m))
LinkResult-cases (linked m) = inr (m, refl)
LinkResult-cases (refused e) = inl (e, refl)

-- The table holds a decision of the account, made on the baseline.
pub record Held (who base : Text) (meta : Dict Text) : Type 0 where
  pub subject : read Name.decision_subject meta ≡ who
  pub baseline : read Name.baseline meta ≡ base
  pub decision :
      (is_confirmed (read Name.decision meta) ≡ true)
      ⊎ (is_declined (read Name.decision meta) ≡ true)

module _ (who base : Text) (named : is_empty who ≡ false) (based : is_empty base ≡ false) where
  put_all-Held :
      (writes : List (Text × Text)) (meta : Dict Text)
      → written Name.decision_subject writes (read Name.decision_subject meta) ≡ who
      → written Name.baseline writes (read Name.baseline meta) ≡ base
      → (is_confirmed (written Name.decision writes (read Name.decision meta)) ≡ true)
        ⊎ (is_declined (written Name.decision writes (read Name.decision meta)) ≡ true)
      → Held who base meta
      → Held who base (meta_after meta (put_all writes meta))
  put_all-Held writes meta s b d held = elim (LinkResult-cases (put_all writes meta)) [
    | inl (e, h) ↦ rw (h, meta_after) held
    | inr (m, h) ↦
        rw (h, meta_after)
          (record {
            subject = read-put_all writes meta m Name.decision_subject h ∙ s;
            baseline = read-put_all writes meta m Name.baseline h ∙ b;
            decision = rw (read-put_all writes meta m Name.decision h) d;
          })
  ]

  confirm-cases :
      (subject : Text) (at : Time) (now : Text) (meta : Dict Text)
      → Held who base meta
      → (meta_after meta (confirm subject at now meta) ≡ meta)
        ⊎ ((subject ≡ who)
            × (confirm subject at now meta ≡ put_all (confirm_writes subject at now meta) meta))
  unfolding confirm
  confirm-cases subject at now meta held =
      ground (arith, held.subject, held.decision, text_eq_iff who subject)

  decline-cases :
      (subject : Text) (at : Time) (now : Text) (meta : Dict Text)
      → Held who base meta
      → (meta_after meta (decline subject at now meta) ≡ meta)
  unfolding decline
  decline-cases subject at now meta held =
      ground (arith, held.subject, held.decision, text_eq_iff who subject)

  confirm-Held :
      (subject : Text) (at : Time) (now : Text) (meta : Dict Text)
      → Held who base meta
      → Held who base (meta_after meta (confirm subject at now meta))
  unfolding written text_eq
  confirm-Held subject at now meta held = elim (confirm-cases subject at now meta held) [
    | inl same ↦ rw same held
    | inr (e, h) ↦ rw h (
        put_all-Held (confirm_writes subject at now meta) meta e
          (rw (held.baseline, based, if◌then◌else◌) refl) (inl refl) held)
  ]

  link-cases :
      (summary : HistorySummary) (link : CursorLink) (meta : Dict Text)
      → Held who base meta
      → let subject = trim_space link.subject in
        (meta_after meta (commit_cursor_link summary link meta) ≡ meta)
        ⊎ (commit_cursor_link summary link meta ≡ confirm subject link.at summary.baseline meta)
  unfolding commit_cursor_link
  link-cases summary link meta held =
      ground (arith, decline-cases (trim_space link.subject) link.at summary.baseline meta held)

  link-Held :
      (summary : HistorySummary) (link : CursorLink) (meta : Dict Text)
      → Held who base meta
      → Held who base (meta_after meta (commit_cursor_link summary link meta))
  link-Held summary link meta held = elim (link-cases summary link meta held) [
    | inl same ↦ rw same held
    | inr h ↦ rw h (confirm-Held (trim_space link.subject) link.at summary.baseline meta held)
  ]

  -- A decision once held stays with its account and its baseline through every sequence of answers,
  -- of this account or another; the account and the baseline must not be empty texts.
  pub run_links-Held :
      (links : List (HistorySummary × CursorLink)) (meta : Dict Text)
      → Held who base meta
      → Held who base (run_links links meta)
  unfolding run_links
  run_links-Held [] meta held = held
  run_links-Held ((summary, link) ∷ links) meta held =
      run_links-Held links _ (link-Held summary link meta held)
