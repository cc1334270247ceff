-- ===== src/FieldAssertions/Sole.antt =====
-- At most one rate is active for an Outward and a line of it, or for the whole of it.
use fresko_universe.Data.{RateFacts, FieldAssertion, Session, is_assertion, AssertionStatus}
use fresko_universe.Db.{
  ◌>>◌, pure, field_assertion_key, write_field_assertion, after_query, after-ok, Db, ok,
}
use fresko_universe.Db.Relates.{by_runs, Relates}
use fresko_universe.FieldAssertions.{
  validate_rate_payload, same_target, is_active_rate, validate_rate_supersession,
  rate_payload_changed, rate_transition, validate_stored_rate, validate_rate_of,
  validate_field_assertion, save_field_assertion,
}
use fresko_universe.Prelude.{
  ◌≡◌, refl, sym, ap, ◌∙◌, subst, inl, inr, Bool, true, false, ◌&&◌, Option, none, some, List,
  arith, ==-refl, Bool-cases, =?-refl, Sole, NoneOn, put_off-Sole, put_on-Sole, find, put,
}

abbrev pub SameTarget : FieldAssertion → FieldAssertion → Type 0
SameTarget x y = (x.outward ≡ y.outward) × (x.outward_line_key ≡ y.outward_line_key)

-- Two active rates of one target are the same row.
abbrev pub SoleRate : List FieldAssertion → Type 0
SoleRate rows = Sole field_assertion_key is_active_rate SameTarget rows

abbrev pub NoRate : FieldAssertion → List FieldAssertion → Type 0
NoRate a rows = NoneOn field_assertion_key is_active_rate SameTarget a rows

pub same_target-SameTarget : (x y : FieldAssertion) → SameTarget x y → same_target x y ≡ true
unfolding same_target
same_target-SameTarget x y (o, k) =
    rw (o, k) (both _ _ (==-refl y.outward) (=?-refl y.outward_line_key))
  where
    both : (a b : Bool) → a ≡ true → b ≡ true → (a && b) ≡ true
    both a b h k = ground arith

-- What a save writes: the row as it was passed, but for stamps.
pub record RateSaved (a saved : FieldAssertion) : Type 0 where
  pub name : saved.name ≡ a.name
  pub facts : saved.facts ≡ a.facts
  pub status : saved.status ≡ a.status

rate_transition-RateSaved :
    (s : Session) (status : AssertionStatus) (a saved : FieldAssertion)
    → rate_transition s status a ≡ ok saved
    → RateSaved a saved
unfolding rate_transition
rate_transition-RateSaved s AssertionStatus.draft a saved h = ground arith
rate_transition-RateSaved s AssertionStatus.review_pending a saved h = ground arith
rate_transition-RateSaved s AssertionStatus.active a saved h = ground arith
rate_transition-RateSaved s AssertionStatus.superseded a saved h = absurd (cc)
rate_transition-RateSaved s AssertionStatus.rejected a saved h = absurd (cc)

validate_stored_rate-RateSaved :
    (s : Session) (service : Bool) (old a saved : FieldAssertion)
    → validate_stored_rate s service old a ≡ ok saved
    → RateSaved a saved
unfolding validate_stored_rate
validate_stored_rate-RateSaved s false old a saved h = absurd (cc)
validate_stored_rate-RateSaved s true old a saved h =
    elim (Bool-cases (rate_payload_changed old a)) [
      | inl e ↦ (let g = (rw (e, validate_stored_rate) at h) in absurd (cc))
      | inr e ↦ elim (Bool-cases (is_assertion a.status old.status)) [
        | inl f ↦ (let g = (rw (e, f, validate_stored_rate) at h) in absurd (cc))
        | inr f ↦
            rate_transition-RateSaved s old.status a saved (rw (e, f, validate_stored_rate) at h)
      ]
    ]

validate_rate_of-RateSaved :
    (s : Session) (service : Bool) (old : Option FieldAssertion) (a saved : FieldAssertion)
    (db : Db)
    → validate_rate_of s service old a db ≡ ok saved
    → RateSaved a saved
unfolding validate_rate_of
validate_rate_of-RateSaved s service none a saved db h =
    let e : a ≡ saved =
      (let (c, k) = after-ok (validate_rate_supersession a db) (ok a) saved h in cc) in
    subst (RateSaved a) e (record { name = refl; facts = refl; status = refl })
validate_rate_of-RateSaved s service (some old) a saved db h =
    validate_stored_rate-RateSaved s service old a saved h

pub validate_field_assertion-RateSaved :
    (s : Session) (service : Bool) (old : Option FieldAssertion) (a saved : FieldAssertion)
    (db : Db)
    → validate_field_assertion s service old a db ≡ ok saved
    → RateSaved a saved
unfolding validate_field_assertion
validate_field_assertion-RateSaved s service old a saved db h =
    let (_, v) =
      after-ok (validate_rate_payload a.facts db) (validate_rate_of s service old a db) saved h in
    validate_rate_of-RateSaved s service old a saved db v

pub save_field_assertion-ok :
    (s : Session) (service : Bool) (a saved : FieldAssertion) (db db' : Db)
    → save_field_assertion s service a db ≡ ok (saved, db')
    → RateSaved a saved
      × (record db { field_assertions = put field_assertion_key saved db.field_assertions } ≡ db')
unfolding save_field_assertion
save_field_assertion-ok s service a saved db db' h =
    after_query
      (λ db.
        validate_field_assertion s service (find field_assertion_key a.name db.field_assertions) a
          db)
      (λ saved. write_field_assertion saved >> pure saved) db db' saved h
      λ x e k.
        let is : x ≡ saved = cc in
        (
          validate_field_assertion-RateSaved s service
              (find field_assertion_key a.name db.field_assertions) a saved db (e ∙ ap ok is),
          rw (← is) (cc),
        )

-- Where a target has one active rate at most, that stays so.
pub record KeepsRates (db db' : Db) : Type 0 where
  pub sole : SoleRate db.field_assertions → SoleRate db'.field_assertions

pub save_off-KeepsRates :
    (s : Session) (service : Bool) (a : FieldAssertion)
    → is_active_rate a ≡ false
    → Relates KeepsRates (save_field_assertion s service a)
save_off-KeepsRates s service a off = by_runs (save_field_assertion s service a) λ db db' saved h.
    let (k, left) = save_field_assertion-ok s service a saved db db' h in
    subst (KeepsRates db) left (record {
      sole =
          put_off-Sole field_assertion_key is_active_rate SameTarget saved db.field_assertions
            (rw (k.status) off);
    })

-- The activation of a rate whose target has no active one.
pub save_on-KeepsRates :
    (s : Session) (a saved : FieldAssertion) (db db' : Db)
    → NoRate a db.field_assertions
    → save_field_assertion s true a db ≡ ok (saved, db')
    → KeepsRates db db'
save_on-KeepsRates s a saved db db' clear h =
    let (k, left) = save_field_assertion-ok s true a saved db db' h in
    subst (KeepsRates db) left (record {
      sole =
          put_on-Sole field_assertion_key is_active_rate SameTarget saved db.field_assertions
            (λ x y (o, l). (sym o, sym l))
            (λ n y f p same. clear n y f p (
              subst
                (λ (facts : RateFacts).
                  (y.outward ≡ facts.outward) × (y.outward_line_key ≡ facts.outward_line_key))
                k.facts same));
    })
