-- ===== src/Outwards/Submitted.antt =====
-- submit_outward_for_review: the maker's Draft waits for review.
use fresko_universe.Access.{assert_can_prepare_outward}
use fresko_universe.Data.{Outward, Session, is_outward, OutwardStatus}
use fresko_universe.Db.{
  throw_if, M, ◌>>=◌, ◌>>◌, pure, check, outward_key, check-ok, after_bind, Db, ok, Error,
}
use fresko_universe.Outwards.{
  save_outward, load_outward_for_update, submitting, submit_outward_for_review,
}
use fresko_universe.Outwards.Saved.{
  load_outward_for_update-ok, save_outward-ok, validate_stored_outward-Moved,
}
use fresko_universe.Outwards.Stock.{with_row}
use fresko_universe.Prelude.{
  ℕ, ◌≡◌, sym, subst, ◌⊎◌, inl, inr, not, some, ◌==◌, if◌then◌else◌, Bool-cases, find, find-key,
}

-- The Draft was the caller's, and waits for review with its payload as it was.
pub record NewlySubmitted (s : Session) (n : ℕ) (old o : Outward) (db db' : Db) : Type 0 where
  pub found : find outward_key n db.outwards ≡ some old
  pub was_draft : old.status ≡ OutwardStatus.draft
  pub maker : s.user ≡ old.prepared_by
  pub waits : o.status ≡ OutwardStatus.review_pending
  pub name : o.name ≡ old.name
  pub facts : o.facts ≡ old.facts
  pub event : o.source_event_key ≡ old.source_event_key
  pub left : with_row db o ≡ db'

abbrev to_submit : Session → Outward → Outward
to_submit s o = record o { status = OutwardStatus.review_pending; submitted_by = some s.user }

newly_submitted :
    (s : Session) (n : ℕ) (old o : Outward) (db db' : Db)
    → find outward_key n db.outwards ≡ some old
    → save_outward s submitting (to_submit s old) db ≡ ok (o, db')
    → NewlySubmitted s n old o db db'
newly_submitted s n old o db db' found h =
    let (v, left) = save_outward-ok s submitting (to_submit s old) o db db' h in
    let here = find-key outward_key n db.outwards old found in
    let m =
      validate_stored_outward-Moved s submitting old (to_submit s old) o
        (rw (subst (λ k. find outward_key k db.outwards ≡ some old) (sym here) found) at v) in
    record {
      found = found;
      was_draft = elim m.move [ inl (d, _, _, _) ↦ d | inr (_, p, _, _, _) ↦ absurd (cc) ];
      maker = elim m.move [ inl (_, _, u, _) ↦ u | inr (_, p, _, _, _) ↦ absurd (cc) ];
      waits = m.status;
      name = m.name;
      facts = m.facts;
      event = m.event;
      left = left;
    }

pub submit_outward_for_review-ok :
    (s : Session) (before : Db) (n : ℕ) (o : Outward) (db db' : Db)
    → submit_outward_for_review s before n db ≡ ok (o, db')
    → (db ≡ db') ⊎ ((old : Outward) × NewlySubmitted s n old o db db')
unfolding submit_outward_for_review
submit_outward_for_review-ok s before n o db db' h =
    let (gate, h1) =
      check-ok (λ _. assert_can_prepare_outward s)
        (λ _. load_outward_for_update before n >>= loaded) db db' o h in
    after_bind (load_outward_for_update before n) loaded db db' o h1 λ old m0 e0 h2.
      let (same, found) = load_outward_for_update-ok before db m0 n old e0 in
      let (maker, h3) =
        check-ok (λ _. throw_if (not (old.prepared_by == s.user)) Error.not_maker)
          (λ _. decided old) m0 db' o h2 in
      let k : decided old db ≡ ok (o, db') =
        subst (λ y. decided old y ≡ ok (o, db')) (sym same) h3 in
      elim (Bool-cases (is_outward old.status OutwardStatus.review_pending)) [
        | inl e ↦ let j = (rw e at k) in inl (cc)
        | inr e ↦
            let (draft, h4) =
              check-ok
                (λ _. throw_if (not (is_outward old.status OutwardStatus.draft)) Error.wrong_status)
                (λ _. save_outward s submitting (to_submit s old)) db db' o (rw e at k) in
            inr (old, newly_submitted s n old o db db' found h4)
      ]
  where
    decided : Outward → M Outward
    decided o =
        if is_outward o.status OutwardStatus.review_pending
        then pure o
        else (check (throw_if (not (is_outward o.status OutwardStatus.draft)) Error.wrong_status)
            >> save_outward s submitting (to_submit s o))

    loaded : Outward → M Outward
    loaded o = check (throw_if (not (o.prepared_by == s.user)) Error.not_maker) >> decided o
