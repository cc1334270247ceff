-- ===== src/ExceptionRules/Refused.antt =====
-- What a save of an Exception outside the services is refused for.
use fresko_universe.Data.{ExceptionDoc, is_exception, ExceptionType}
use fresko_universe.Db.{
  pass, throw_if, ◌then_check◌, exception_key, write_exception, Result-cases, throw_if-pass,
  then_check-pass, reads-err, Db, err, Error,
}
use fresko_universe.ExceptionRules.{
  no_service, save_exception, is_commercial_type, is_outward_type, validate_money_exception,
  is_money, previous_key, commercial_frozen, validate_commercial_scope, has_quantity_links,
  validate_outward_scoped, validate_quantity_scoped, validate_scope, link_changed,
  validate_immutability, validate_exception,
}
use fresko_universe.Prelude.{
  ◌≡◌, refl, sym, ◌∙◌, subst, ◌⊎◌, inl, inr, Bool, true, false, ◌&&◌, ◌||◌, not, Option, none, some,
  arith, if◌then◌else◌, is_set, Bool-cases, find,
}

-- The Exception is of a money, commercial or ledger type, or is linked to one of their documents
-- by a scope key.
abbrev pub is_scoped : ExceptionDoc → Bool
is_scoped x =
    is_money x
    || is_set x.sale
    || is_set x.commercial_scope_key
    || is_commercial_type x.exception_type
    || has_quantity_links x.scope
    || is_outward_type x.exception_type

-- The stored Exception has a link that was set and is not what it was.
abbrev pub Unlinks : ExceptionDoc → Db → Type 0
Unlinks x db =
    (old : ExceptionDoc) × (find exception_key x.name db.exceptions ≡ some old)
    × (link_changed old.scope x.scope ≡ true)

immutable_passes :
    (old : Option ExceptionDoc) (x : ExceptionDoc)
    → validate_immutability old x ≡ pass
    → (o : ExceptionDoc) → old ≡ some o
    → link_changed o.scope x.scope ≡ false
unfolding validate_immutability
immutable_passes none x h o e = absurd (cc)
immutable_passes (some old) x h o e =
    let (free, _) =
      then_check-pass (throw_if (link_changed old.scope x.scope) Error.scope_immutable) _ h in
    let is : old ≡ o = cc in
    subst (λ (y : ExceptionDoc). link_changed y.scope x.scope ≡ false) is
      (throw_if-pass _ Error.scope_immutable free)

money_passes :
    (old : Option ExceptionDoc) (x : ExceptionDoc) (db : Db)
    → (if is_money x then validate_money_exception no_service old x db else pass) ≡ pass
    → is_money x ≡ false
unfolding validate_money_exception
money_passes old x db h = elim (Bool-cases (is_money x)) [
  | inr e ↦ e
  | inl e ↦ (let k = (rw e at h) in absurd (cc))
]

commercial_passes :
    (old : Option ExceptionDoc) (x : ExceptionDoc)
    → validate_commercial_scope no_service old x ≡ pass
    → (is_set x.sale || is_set x.commercial_scope_key || is_commercial_type x.exception_type)
      ≡ false
unfolding validate_commercial_scope
commercial_passes old x h =
    at
      (is_set x.sale
        || is_set x.commercial_scope_key
        || is_set (previous_key old)
        || is_commercial_type x.exception_type)
      refl h
  where
    joined : (a b c d : Bool) → (a || b || c || d) ≡ false → (a || b || d) ≡ false
    joined a b c d k = ground arith

    at :
        (b : Bool)
        → (is_set x.sale
            || is_set x.commercial_scope_key
            || is_set (previous_key old)
            || is_commercial_type x.exception_type)
          ≡ b
        → (if b
            then throw_if true Error.commercial_only
              then_check throw_if
                  (not (is_set x.container && is_set x.commercial_scope_key))
                  Error.scope_required
              then_check commercial_frozen old x
            else pass)
          ≡ pass
        → (is_set x.sale || is_set x.commercial_scope_key || is_commercial_type x.exception_type)
          ≡ false
    at true e k = absurd (cc)
    at false e k =
        joined (is_set x.sale) (is_set x.commercial_scope_key) (is_set (previous_key old))
          (is_commercial_type x.exception_type) e

outward_scoped_throws : (x : ExceptionDoc) → validate_outward_scoped no_service x ≡ pass → ⊥
unfolding validate_outward_scoped
outward_scoped_throws x h =
    let (_, k) = then_check-pass _ (throw_if true Error.service_only) h in absurd (cc)

quantity_scoped_throws : (x : ExceptionDoc) → validate_quantity_scoped no_service x ≡ pass → ⊥
unfolding validate_quantity_scoped
quantity_scoped_throws x h =
    let (_, k) = then_check-pass _ (throw_if true Error.service_only) h in absurd (cc)

scope_passes :
    (x : ExceptionDoc)
    → validate_scope no_service x ≡ pass
    → (has_quantity_links x.scope || is_outward_type x.exception_type) ≡ false
unfolding validate_scope
scope_passes x h =
    let (first, branch) =
      then_check-pass
        (throw_if (is_set x.outward && has_quantity_links x.scope) Error.two_scopes
          then_check throw_if
              (has_quantity_links x.scope
                && not (is_exception x.exception_type ExceptionType.physical_variance))
              Error.scope_forbidden)
        _ h in
    let (_, second) = then_check-pass _ _ first in
    by_case (is_exception x.exception_type ExceptionType.physical_variance) (is_set x.outward)
      (has_quantity_links x.scope) (is_outward_type x.exception_type)
      (throw_if-pass _ Error.scope_forbidden second) branch
  where
    by_case :
        (variance outward links typed : Bool)
        → (links && not variance) ≡ false
        → (if variance
            then (if outward
                then validate_outward_scoped no_service x
                else if links
                then validate_quantity_scoped no_service x
                else err Error.scope_required)
            else if typed
            then validate_outward_scoped no_service x
            else pass)
          ≡ pass
        → (links || typed) ≡ false
    by_case true true links typed f h = absurd (outward_scoped_throws x h)
    by_case true false true typed f h = absurd (quantity_scoped_throws x h)
    by_case true false false typed f h = absurd (cc)
    by_case false outward links true f h = absurd (outward_scoped_throws x h)
    by_case false outward true false f h = absurd (cc)
    by_case false outward false false f h = refl

-- A save that passes, outside the services.
passed :
    (x : ExceptionDoc) (db : Db)
    → validate_exception no_service (find exception_key x.name db.exceptions) x db ≡ pass
    → (is_scoped x ≡ false) × (Unlinks x db → ⊥)
unfolding validate_exception
passed x db h =
    let old = find exception_key x.name db.exceptions in
    let (h1, immutable) = then_check-pass _ (validate_immutability old x) h in
    let (h2, scope) = then_check-pass _ (validate_scope no_service x) h1 in
    let (money, commercial) =
      then_check-pass (if is_money x then validate_money_exception no_service old x db else pass)
        (validate_commercial_scope no_service old x) h2 in
    (
      all_off _ _ _ _ _ _ (money_passes old x db money) (commercial_passes old x commercial)
          (scope_passes x scope),
      λ (o, found, changed). (let k = immutable_passes old x immutable o found in absurd (cc)),
    )
  where
    all_off :
        (a b c d e f : Bool)
        → a ≡ false
        → (b || c || d) ≡ false
        → (e || f) ≡ false
        → (a || b || c || d || e || f) ≡ false
    all_off a b c d e f h k l = ground arith

-- Outside the services, the save of an Exception is refused where it is of a money, commercial or
-- ledger type or bears one of their scope keys or assertion links, and where it changes or clears
-- a link to an Outward or an assertion, or a variance, that the stored one has.
pub save_exception-refused :
    (x : ExceptionDoc) (db : Db)
    → (is_scoped x ≡ true) ⊎ Unlinks x db
    → (e : Error) × (save_exception no_service x db ≡ err e)
unfolding save_exception
save_exception-refused x db h =
    elim (Result-cases
      (validate_exception no_service (find exception_key x.name db.exceptions) x db)) [
        | inr (e, k) ↦ (
          e,
          reads-err
              (λ db. validate_exception no_service (find exception_key x.name db.exceptions) x db)
              (λ _. write_exception x) db e k,
        )
        | inl (u, k) ↦
            let (off, kept) = passed x db k in
            absurd (elim h [ inl s ↦ (let j = sym off ∙ s in absurd (cc)) | inr w ↦ kept w ])
      ]
