-- ===== src/Quantities/Activating.antt =====
-- _activate: what is active in the scope of an assertion is superseded before it.
use fresko_universe.Data.{QuantityAssertion, Session, AssertionStatus}
use fresko_universe.Db.{
  throw_if-pass, reads-ok, after_bind, after_query, after_check, throw_if, ◌>>◌, pure, check,
  quantity_key, get_assertion, Db, ok, Error,
}
use fresko_universe.Prelude.{
  ℕ, ◌≡◌, refl, ◌∙◌, subst, Bool, true, false, ◌||◌, not, none, some, arith, ◌==◌, Ref, none_passes,
  put_off-NoneOn, any, find, put,
}
use fresko_universe.Quantities.{
  active_in_scope, has_successor, supersede, activate_over, same_scope, is_active_now,
  save_assertion,
}
use fresko_universe.Quantities.Sole.{
  SameScope, SoleActive, NoActive, same_scope-SameScope, put_inactive-SoleActive, save_assertion-ok,
  Kept,
}

-- Nothing passes a test among the active rows of the scope.
nothing_passes :
    (a : QuantityAssertion) (q : QuantityAssertion → Bool) (db : Db) (n : ℕ) (y : QuantityAssertion)
    → any q (active_in_scope a db) ≡ false
    → find quantity_key n db.assertions ≡ some y
    → is_active_now y ≡ true
    → SameScope y a
    → q y ≡ false
unfolding active_in_scope
nothing_passes a q db n y h f p same =
    none_passes quantity_key is_active_now SameScope same_scope same_scope-SameScope a q
      db.assertions n y h f p same

superseded-NoActive :
    (a prior saved : QuantityAssertion) (db : Db)
    → any (λ x. not (x.name == prior.name)) (active_in_scope a db) ≡ false
    → saved.name ≡ prior.name
    → is_active_now saved ≡ false
    → NoActive a (put quantity_key saved db.assertions)
unfolding active_in_scope
superseded-NoActive a prior saved db others named off =
    put_off-NoneOn quantity_key is_active_now SameScope same_scope same_scope-SameScope a prior
      saved db.assertions others named off

-- The row as _activate saves it.
abbrev pub superseded : QuantityAssertion → QuantityAssertion → QuantityAssertion
superseded a prior = record prior {
  superseded_by = some a.name;
  status = AssertionStatus.superseded;
}

superseded_off :
    (a saved : QuantityAssertion)
    → Kept a saved
    → a.status ≡ AssertionStatus.superseded
    → is_active_now saved ≡ false
superseded_off a saved k e = rw (k.status, e) refl

-- What an activation finds in its scope once _activate has passed.
pub record Cleared (a : QuantityAssertion) (db db' : Db) : Type 0 where
  pub sole : SoleActive db.assertions → SoleActive db'.assertions
  pub clear : NoActive a db'.assertions

supersede-Cleared :
    (s : Session) (now : ℕ) (before : Db) (a prior : QuantityAssertion) (db db' : Db) (u : Unit {0})
    → supersede s now before a prior db ≡ ok (u, db')
    → Cleared a db db'
unfolding supersede
supersede-Cleared s now before a prior db db' u h =
    after_check
      (λ db.
        throw_if
          (not (is_active_now prior)
            || any (λ x. not (x.name == prior.name)) (active_in_scope a db))
          Error.sole_active_required)
      (λ _.
        check (throw_if (has_successor prior.name before) Error.successor_exists)
        >> (save_assertion s now true (superseded a prior) >> pure tt))
      db db' u h
      λ sole h1.
        after_check (λ _. throw_if (has_successor prior.name before) Error.successor_exists)
          (λ _. save_assertion s now true (superseded a prior) >> pure tt) db db' u h1
          λ _ h2.
            after_bind (save_assertion s now true (superseded a prior)) (λ _. pure tt) db db' u h2
              λ saved mid e end.
                let (_, k, w) = save_assertion-ok s now true (superseded a prior) saved db mid e in
                let others : any (λ x. not (x.name == prior.name)) (active_in_scope a db) ≡ false =
                  or_right _ _ (throw_if-pass _ Error.sole_active_required sole) in
                let off = superseded_off (superseded a prior) saved k refl in
                let last : mid ≡ db' = cc in
                subst (Cleared a db) (w ∙ last) (record {
                  sole = put_inactive-SoleActive saved db.assertions off;
                  clear = superseded-NoActive a prior saved db others k.name off;
                })
  where
    or_right : (x y : Bool) → (x || y) ≡ false → y ≡ false
    or_right x y e = ground arith

pub activate_over-Cleared :
    (s : Session) (now : ℕ) (before : Db) (a : QuantityAssertion) (r : Ref) (db db' : Db)
    (u : Unit {0})
    → activate_over s now before a r db ≡ ok (u, db')
    → Cleared a db db'
unfolding activate_over
activate_over-Cleared s now before a none db db' u h =
    let (e, same) =
      reads-ok (λ db. throw_if (any (λ _. true) (active_in_scope a db)) Error.active_exists) db db'
        u h in
    let free = throw_if-pass _ Error.active_exists e in
    subst (Cleared a db) same (record {
      sole = λ k. k;
      clear = λ n y f p same.
          (let k = nothing_passes a (λ _. true) db n y free f p same in absurd (cc));
    })
activate_over-Cleared s now before a (some n) db db' u h =
    after_query (get_assertion n) (supersede s now before a) db db' u h
      λ prior e k. supersede-Cleared s now before a prior db db' u k
