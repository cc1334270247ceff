-- ===== src/Quantities/Sole.antt =====
-- At most one assertion is active for a Container, a basis and a unit.
use fresko_universe.Data.{
  QuantityAssertion, Session, basis_code, is_basis, is_assertion, Basis, AssertionStatus,
}
use fresko_universe.Db.{◌>>◌, pure, quantity_key, write_assertion, after_query, after-ok, Db, ok}
use fresko_universe.Prelude.{
  ℕ, ◌≡◌, refl, sym, ap, ◌∙◌, subst, inl, inr, Bool, true, false, ◌&&◌, Option, none, some, List,
  arith, ==-refl, Bool-cases, =?-refl, Sole, NoneOn, put_off-Sole, put_on-Sole, find, put,
}
use fresko_universe.Quantities.{
  validate_payload, same_scope, is_active_now, validate_supersession, payload_changed,
  assertion_transition, validate_stored_assertion, validate_assertion_of, validate_assertion,
  save_assertion,
}

abbrev pub SameScope : QuantityAssertion → QuantityAssertion → Type 0
SameScope x y = (x.container ≡ y.container) × (x.basis ≡ y.basis) × (x.uom ≡ y.uom)

-- Two active assertions of one scope are the same row.
abbrev pub SoleActive : List QuantityAssertion → Type 0
SoleActive rows = Sole quantity_key is_active_now SameScope rows

-- No row of the scope is active.
abbrev pub NoActive : QuantityAssertion → List QuantityAssertion → Type 0
NoActive a rows = NoneOn quantity_key is_active_now SameScope a rows

pub same_scope-SameScope : (x y : QuantityAssertion) → SameScope x y → same_scope x y ≡ true
unfolding same_scope
same_scope-SameScope x y (c, b, u) =
    rw (c, b, u) (all_three _ _ _ (==-refl y.container) (is_basis-refl y.basis) (=?-refl y.uom))
  where
    all_three : (a b c : Bool) → a ≡ true → b ≡ true → c ≡ true → (a && b && c) ≡ true
    all_three a b c h k l = ground arith

    is_basis-refl : (b : Basis) → is_basis b b ≡ true
    is_basis-refl b = ==-refl (basis_code b)

-- Writing a row that is not active.
pub put_inactive-SoleActive :
    (a : QuantityAssertion) (rows : List QuantityAssertion)
    → is_active_now a ≡ false
    → SoleActive rows
    → SoleActive (put quantity_key a rows)
put_inactive-SoleActive a rows off sole =
    put_off-Sole quantity_key is_active_now SameScope a rows off sole

-- Writing an active row of whose scope no other is active.
pub put_active-SoleActive :
    (a : QuantityAssertion) (rows : List QuantityAssertion)
    → NoActive a rows
    → SoleActive rows
    → SoleActive (put quantity_key a rows)
put_active-SoleActive a rows alone sole =
    put_on-Sole quantity_key is_active_now SameScope a rows (λ x y (c, b, u). (sym c, sym b, sym u))
      alone sole

-- What a save of an assertion writes: the row as it was passed, but for stamps.
pub record Kept (a saved : QuantityAssertion) : Type 0 where
  pub name : saved.name ≡ a.name
  pub facts : saved.facts ≡ a.facts
  pub key : saved.assertion_key ≡ a.assertion_key
  pub payload : saved.payload_sha256 ≡ a.payload_sha256
  pub status : saved.status ≡ a.status

transition-Kept :
    (s : Session) (now : ℕ) (status : AssertionStatus) (a saved : QuantityAssertion)
    → assertion_transition s now status a ≡ ok saved
    → Kept a saved
unfolding assertion_transition
transition-Kept s now AssertionStatus.draft a saved h = ground arith
transition-Kept s now AssertionStatus.review_pending a saved h = ground arith
transition-Kept s now AssertionStatus.active a saved h = ground arith
transition-Kept s now AssertionStatus.superseded a saved h = absurd (cc)
transition-Kept s now AssertionStatus.rejected a saved h = absurd (cc)

-- The checks of a save of a stored assertion, one by one.
pub record StoredChecks (s : Session) (now : ℕ) (service : Bool) (old a saved : QuantityAssertion)
    : Type 0 where
  pub entered : service ≡ true
  pub payload : payload_changed old a ≡ false
  pub moves : is_assertion a.status old.status ≡ false
  pub transition : assertion_transition s now old.status a ≡ ok saved

pub stored-StoredChecks :
    (s : Session) (now : ℕ) (service : Bool) (old a saved : QuantityAssertion)
    → validate_stored_assertion s now service old a ≡ ok saved
    → StoredChecks s now service old a saved
unfolding validate_stored_assertion
stored-StoredChecks s now false old a saved h = absurd (cc)
stored-StoredChecks s now true old a saved h = elim (Bool-cases (payload_changed old a)) [
  | inl e ↦ (let g = (rw (e, validate_stored_assertion) at h) in absurd (cc))
  | inr e ↦ elim (Bool-cases (is_assertion a.status old.status)) [
    | inl f ↦ (let g = (rw (e, f, validate_stored_assertion) at h) in absurd (cc))
    | inr f ↦ record {
      entered = refl;
      payload = e;
      moves = f;
      transition = rw (e, f, validate_stored_assertion) at h;
    }
  ]
]

pub validate_assertion_of-Kept :
    (s : Session) (now : ℕ) (service : Bool) (old : Option QuantityAssertion)
    (a saved : QuantityAssertion) (db : Db)
    → validate_assertion_of s now service old a db ≡ ok saved
    → Kept a saved
unfolding validate_assertion_of validate_stored_assertion assertion_transition
validate_assertion_of-Kept s now service none a saved db h =
    let e : a ≡ saved = (let (c, k) = after-ok (validate_supersession a db) (ok a) saved h in cc) in
    subst (Kept a) e
      (record { name = refl; facts = refl; key = refl; payload = refl; status = refl })
validate_assertion_of-Kept s now service (some old) a saved db h =
    transition-Kept s now old.status a saved
      (stored-StoredChecks s now service old a saved h).transition

pub save_assertion-ok :
    (s : Session) (now : ℕ) (service : Bool) (a saved : QuantityAssertion) (db db' : Db)
    → save_assertion s now service a db ≡ ok (saved, db')
    → (validate_assertion_of s now service (find quantity_key a.name db.assertions) a db ≡ ok saved)
      × Kept a saved
      × (record db { assertions = put quantity_key saved db.assertions } ≡ db')
unfolding save_assertion validate_assertion
save_assertion-ok s now service a saved db db' h =
    after_query
      (λ db. validate_assertion s now service (find quantity_key a.name db.assertions) a db)
      (λ saved. write_assertion saved >> pure saved) db db' saved h
      λ x e k.
        let is : x ≡ saved = cc in
        let (c, v) =
          after-ok (validate_payload a.facts)
            (validate_assertion_of s now service (find quantity_key a.name db.assertions) a db)
            saved (e ∙ ap ok is) in
        (
          v,
          validate_assertion_of-Kept s now service (find quantity_key a.name db.assertions) a saved
              db v,
          rw (← is) (cc),
        )
