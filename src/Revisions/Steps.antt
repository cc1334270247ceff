-- ===== src/Revisions/Steps.antt =====
-- The three methods of Revisions keep the relations that the other methods keep.
use fresko_universe.Approvals.{insert_approval}
use fresko_universe.Approvals.Steps.{insert_approval-Relates}
use fresko_universe.Data.{Deal, Approval, Revision, Session, Decision, FieldName}
use fresko_universe.Db.{write_revision, Db}
use fresko_universe.Db.Relates.{Relates}
use fresko_universe.DealDoc.Closed.{pure_rule, Closed}
use fresko_universe.DealDoc.Evolves.{Evolves-refl, Evolves}
use fresko_universe.Deals.Steps.{deal_rules}
use fresko_universe.Exceptions.{resolve_buyer_exceptions}
use fresko_universe.Prelude.{ℕ, Bool, true, Option, none, some, Ref}
use fresko_universe.Prelude.Int.{ℤ}
use fresko_universe.Revisions.{
  save_revision, request_revision, create_revision_approval, consume, settle_buyer, apply_revision,
  Texts,
}

-- apply_revision keeps a relation that a save of a Revision keeps too.
module _ {R : Db → Db → Type 0} (c : Closed R)
    (saved : (allow : Bool) (r : Revision) → Relates R (save_revision allow r))
    (resolved : (n : ℕ) → Relates R (resolve_buyer_exceptions n)) where
  settle_buyer-Relates : (r : Revision) → Relates R (settle_buyer r)
  unfolding settle_buyer
  settle_buyer-Relates r = search (deal_rules, resolved)

  consume-Relates : (a : Option Approval) → Relates R (consume a)
  unfolding consume
  consume-Relates none = pure_rule c tt
  consume-Relates (some a) = c.approval_written (record a { consumed = true })

  pub apply_revision-Relates :
      (t : Texts) (s : Session) (n : ℕ) (passed : Ref) → Relates R (apply_revision t s n passed)
  unfolding apply_revision
  apply_revision-Relates t s n passed =
      search (deal_rules, settle_buyer-Relates, consume-Relates, saved) depth 14

-- The other methods keep a relation that a write of a Revision keeps.
module _ {R : Db → Db → Type 0} (c : Closed R)
    (written : (r : Revision) → Relates R (write_revision r)) where
  pub request_revision-Relates :
      (t : Texts) (s : Session) (n : ℕ) (field : FieldName) (new_value reason evidence : Ref)
      → Relates R (request_revision t s n field new_value reason evidence)
  unfolding request_revision
  request_revision-Relates t s n field new_value reason evidence =
      search (deal_rules, written) depth 10

  approval_inserted :
      (s : Session) (d : Deal) (decision : Decision) (rate : Option ℤ) (reason : Ref)
      (oversell : Bool) (exception revision : Ref)
      → Relates R (insert_approval s d decision rate reason oversell exception revision)
  approval_inserted = insert_approval-Relates c

  pub create_revision_approval-Relates :
      (s : Session) (n : ℕ) (decision : Decision) (rate : Option ℤ) (reason : Ref)
      → Relates R (create_revision_approval s n decision rate reason)
  unfolding create_revision_approval
  create_revision_approval-Relates s n decision rate reason =
      search (deal_rules, written, approval_inserted) depth 11

  pub save_revision-Relates : (allow : Bool) (r : Revision) → Relates R (save_revision allow r)
  unfolding save_revision
  save_revision-Relates allow r = search (deal_rules, written)

pub resolve_buyer_exceptions-Evolves : (n : ℕ) → Relates Evolves (resolve_buyer_exceptions n)
unfolding resolve_buyer_exceptions
resolve_buyer_exceptions-Evolves n = record {
  at = λ db. record { names = λ h. h; moves = (Evolves-refl db).moves };
}
