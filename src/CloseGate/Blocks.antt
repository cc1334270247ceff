-- ===== src/CloseGate/Blocks.antt =====
-- What the gate keeps out: each Exception that is named here, whatever way it is attributed.
use fresko_universe.CloseGate.{
  exception_is_material, blocks_directly, is_live, is_linked, attributed, blocks_by_receipt,
  company_differs, assert_container_can_fully_reconcile,
}
use fresko_universe.CloseGate.Harmless.{Harmless, exception_is_material-false}
use fresko_universe.Data.{
  Container, ExceptionDoc, PaymentAllocation, Collection, is_exception, ExceptionStatus,
  ExceptionType, AllocationStatus,
}
use fresko_universe.Db.{throw_if-pass, then_check-pass, pass, throw_if, container_key, Db, Error}
use fresko_universe.DealDoc.{is_open}
use fresko_universe.Prelude.{
  ℕ, ◌≡◌, refl, subst, ◌≢◌, ◌⊎◌, inl, inr, Bool, true, false, ◌&&◌, ◌||◌, Option, none, some, arith,
  Ref, ◌=?◌, ==-refl, not-false, =?-eq, Bool-cases, =?-refl, any, Among, any-Among, find,
}

-- The statuses of an Exception that is not settled.
abbrev pub Unresolved : ExceptionStatus → Type 0
Unresolved s = (s ≡ ExceptionStatus.open_) ⊎ (s ≡ ExceptionStatus.in_progress)

-- The allocation ties the receipt to the Container, and is not at its end.
pub record Ties (container : ℕ) (company : Ref) (c : Collection) (a : PaymentAllocation)
    : Type 0 where
  pub of_company : a.company ≡ company
  pub of_container : a.container ≡ some container
  pub of_receipt : a.collection ≡ some c.name
  pub live :
      (a.status ≡ AllocationStatus.draft)
      ⊎ (a.status ≡ AllocationStatus.review_pending)
      ⊎ (a.status ≡ AllocationStatus.verified)
      ⊎ (a.status ≡ AllocationStatus.approved)

-- The Exception is of that receipt, and both are of the company.
pub record OfReceipt (company : Ref) (x : ExceptionDoc) (c : Collection) : Type 0 where
  pub names : x.collection ≡ some c.name
  pub of_company : x.money_company ≡ company
  pub receipt_of_company : c.company ≡ company

-- What holds where a Container may close.
pub record MayClose (container : ℕ) (company : Ref) (db : Db) : Type 0 where
  pub same_company :
      (c : Container) → find container_key container db.containers ≡ some c → c.company ≡ company
  pub own :
      (x : ExceptionDoc)
      → Among x db.exceptions
      → Unresolved x.status
      → x.container ≡ some container
      → Harmless x.exception_type x.severity
  pub by_evidence :
      (x : ExceptionDoc) (c : Collection)
      → Among x db.exceptions
      → Unresolved x.status
      → Among c db.collections
      → OfReceipt company x c
      → c.source_container ≡ some container
      → Harmless x.exception_type x.severity
  pub by_allocation :
      (x : ExceptionDoc) (c : Collection) (a : PaymentAllocation)
      → Among x db.exceptions
      → Unresolved x.status
      → Among c db.collections
      → OfReceipt company x c
      → Among a db.allocations
      → Ties container company c a
      → x.exception_type ≢ ExceptionType.money_unallocated
      → Harmless x.exception_type x.severity

Unresolved-is_open : (s : ExceptionStatus) → Unresolved s → is_open s ≡ true
unfolding is_open
Unresolved-is_open s (inl e) = rw e refl
Unresolved-is_open s (inr e) = rw e refl

own-Harmless :
    (container : ℕ) (x : ExceptionDoc)
    → blocks_directly container x ≡ false
    → Unresolved x.status
    → x.container ≡ some container
    → Harmless x.exception_type x.severity
unfolding blocks_directly
own-Harmless container x h un e = (exception_is_material-false x.exception_type x.severity).0 (
    last_off (x.container =? some container) (is_open x.status) _ h (rw e (==-refl container))
      (Unresolved-is_open x.status un))
  where
    last_off : (a b c : Bool) → (a && b && c) ≡ false → a ≡ true → b ≡ true → c ≡ false
    last_off a b c h k l = ground arith

receipt-Harmless :
    (container : ℕ) (company : Ref) (db : Db) (x : ExceptionDoc) (c : Collection)
    → blocks_by_receipt container company db x ≡ false
    → Unresolved x.status
    → Among c db.collections
    → OfReceipt company x c
    → attributed container company x c db ≡ true
    → Harmless x.exception_type x.severity
unfolding blocks_by_receipt
receipt-Harmless container company db x c h un at r is =
    (exception_is_material-false x.exception_type x.severity).0 (
      last_off (x.collection =? some c.name) (x.money_company =? company) (c.company =? company)
        (is_open x.status) (attributed container company x c db) _
        (any-Among
          (λ c.
            x.collection =? some c.name
            && x.money_company =? company
            && c.company =? company
            && is_open x.status
            && attributed container company x c db
            && exception_is_material x.exception_type x.severity)
          c db.collections at h)
        (rw (r.names) (==-refl c.name)) (rw (r.of_company) (=?-refl company))
        (rw (r.receipt_of_company) (=?-refl company)) (Unresolved-is_open x.status un) is)
  where
    last_off :
        (a b c d e f : Bool)
        → (a && b && c && d && e && f) ≡ false
        → a ≡ true
        → b ≡ true
        → c ≡ true
        → d ≡ true
        → e ≡ true
        → f ≡ false
    last_off a b c d e f h h1 h2 h3 h4 h5 = ground arith

evidence_attributed :
    (container : ℕ) (company : Ref) (db : Db) (x : ExceptionDoc) (c : Collection)
    → c.source_container ≡ some container
    → attributed container company x c db ≡ true
unfolding attributed
evidence_attributed container company db x c e = rw (e, ==-refl container) refl

is_live-any :
    (s : AllocationStatus)
    → (s ≡ AllocationStatus.draft)
      ⊎ (s ≡ AllocationStatus.review_pending)
      ⊎ (s ≡ AllocationStatus.verified)
      ⊎ (s ≡ AllocationStatus.approved)
    → is_live s ≡ true
unfolding is_live
is_live-any s (inl e) = rw e refl
is_live-any s (inr (inl e)) = rw e refl
is_live-any s (inr (inr (inl e))) = rw e refl
is_live-any s (inr (inr (inr e))) = rw e refl

Ties-is_linked :
    (container : ℕ) (company : Ref) (db : Db) (c : Collection) (a : PaymentAllocation)
    → Among a db.allocations
    → Ties container company c a
    → is_linked container company c.name db ≡ true
unfolding is_linked
Ties-is_linked container company db c a at t =
    elim (Bool-cases (is_linked container company c.name db)) [
      | inl e ↦ e
      | inr e ↦
          let off =
            any-Among
              (λ a.
                a.company =? company
                && a.container =? some container
                && is_live a.status
                && a.collection =? some c.name)
              a db.allocations at e in
          let on =
            all_on (a.company =? company) (a.container =? some container) (is_live a.status)
              (a.collection =? some c.name) (rw (t.of_company) (=?-refl company))
              (rw (t.of_container) (==-refl container)) (is_live-any a.status t.live)
              (rw (t.of_receipt) (==-refl c.name)) in
          absurd (cc)
    ]
  where
    all_on :
        (a b c d : Bool) → a ≡ true → b ≡ true → c ≡ true → d ≡ true → (a && b && c && d) ≡ true
    all_on a b c d h1 h2 h3 h4 = ground arith

is_unallocated :
    (kind : ExceptionType)
    → is_exception kind ExceptionType.money_unallocated ≡ true
    → kind ≡ ExceptionType.money_unallocated
is_unallocated ExceptionType.money_unallocated h = refl
is_unallocated _ h = absurd (cc)

allocation_attributed :
    (container : ℕ) (company : Ref) (db : Db) (x : ExceptionDoc) (c : Collection)
    → is_linked container company c.name db ≡ true
    → x.exception_type ≢ ExceptionType.money_unallocated
    → attributed container company x c db ≡ true
unfolding attributed
allocation_attributed container company db x c linked other =
    elim (Bool-cases (is_exception x.exception_type ExceptionType.money_unallocated)) [
      | inl e ↦ absurd (other (is_unallocated x.exception_type e))
      | inr e ↦ rw (e, linked) (or_true (c.source_container =? some container))
    ]
  where
    or_true : (a : Bool) → (a || true) ≡ true
    or_true a = ground arith

company_same :
    (o : Option Container) (company : Ref)
    → company_differs o company ≡ false
    → (c : Container) → o ≡ some c
    → c.company ≡ company
unfolding company_differs
company_same none company h c e = absurd (cc)
company_same (some x) company h c e =
    let is : x ≡ c = cc in
    subst (λ (y : Container). y.company ≡ company) is
      (=?-eq x.company company (not-false (x.company =? company) h))

-- Where the close gate opens for a Container and a company, the company is the Container's, if it
-- is stored; and of the Exceptions that are Open or In Progress, only those of the types OTHER,
-- IDEMPOTENCY_PAYLOAD_CONFLICT and CONCURRENT_STATE_CONFLICT, neither Material nor Critical, may
-- be the Container's own, or be of a receipt of the company whose evidence names the Container,
-- or, unless the type is MONEY_UNALLOCATED, of one that an allocation of the company which is
-- Draft, Review Pending, Verified or Approved ties to it.
pub gate-MayClose :
    (container : ℕ) (company : Ref) (db : Db)
    → assert_container_can_fully_reconcile container company db ≡ pass
    → MayClose container company db
unfolding assert_container_can_fully_reconcile
gate-MayClose container company db h =
    let (h2, receipts) =
      then_check-pass _
        (throw_if (any (blocks_by_receipt container company db) db.exceptions) Error.close_denied)
        h in
    let (same, direct) =
      then_check-pass _
        (throw_if (any (blocks_directly container) db.exceptions) Error.close_denied) h2 in
    let no_receipt = throw_if-pass _ Error.close_denied receipts in
    let no_own = throw_if-pass _ Error.close_denied direct in
    record {
      same_company =
          company_same (find container_key container db.containers) company
            (throw_if-pass _ Error.company_changed same);
      own = λ x stored.
          own-Harmless container x
            (any-Among (blocks_directly container) x db.exceptions stored no_own);
      by_evidence = λ x c stored un at r e.
          receipt-Harmless container company db x c
            (any-Among (blocks_by_receipt container company db) x db.exceptions stored no_receipt)
            un at r (evidence_attributed container company db x c e);
      by_allocation = λ x c a stored un at r paid ties other.
          receipt-Harmless container company db x c
            (any-Among (blocks_by_receipt container company db) x db.exceptions stored no_receipt)
            un at r
            (allocation_attributed container company db x c
              (Ties-is_linked container company db c a paid ties) other);
    }
