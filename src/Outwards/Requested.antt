-- ===== src/Outwards/Requested.antt =====
-- create_outward: the checks that a request passes, which read no Outward.
use fresko_universe.Access.{
  PermissionType, assert_can_prepare_outward, deal_is_assigned, evidence_of_deal, deal_of_evidence,
  evidence_has_permission,
}
use fresko_universe.Data.{OutwardLine, OutwardFacts, Outward, Session, Digests}
use fresko_universe.Db.{
  pass, or_throw, M, ◌>>=◌, ◌>>◌, reads, check, evidence_key, check-ok, query-ok, Db, ok, Error,
}
use fresko_universe.Outwards.{
  normalise_lines, assert_evidence_container, deal_checks, container_exists, company_of,
  outward_facts, outward_of_event, replay_or_create, create_outward, OutwardRequest,
}
use fresko_universe.Outwards.Inserted.{with_outward}
use fresko_universe.Prelude.{ℕ, ◌≡◌, refl, ◌∙◌, inl, inr, none, some, List, Ref, Option-cases, find}

-- What a request passed, and what it ended with.
pub record Requested (g : Digests) (s : Session) (before : Db) (r : OutwardRequest) (id : ℕ)
    (lines : List OutwardLine) : Type 0 where
  pub gate : assert_can_prepare_outward s ≡ pass
  pub named : or_throw r.source_event_id Error.event_required ≡ ok id
  pub container : container_exists r.container before ≡ pass
  pub evidence : assert_evidence_container s r.source_evidence r.container before ≡ pass
  pub deal : deal_checks s r.container r.deal before ≡ pass
  pub normal :
      normalise_lines g (g.outward_event r.container r.source_evidence id) r.lines ≡ ok lines

-- Its source event, and its payload.
abbrev pub event_of : Digests → OutwardRequest → ℕ → ℕ
event_of g r id = g.outward_event r.container r.source_evidence id

abbrev pub facts_of : Digests → Db → OutwardRequest → List OutwardLine → OutwardFacts
facts_of g before r lines = outward_facts g r (company_of r.container before) lines

abbrev pub ending : Digests → Session → Db → OutwardRequest → ℕ → List OutwardLine → M Outward
ending g s before r id lines =
    replay_or_create g s before (outward_of_event (event_of g r id) before) (event_of g r id)
      (facts_of g before r lines)

pub create_outward-Requested :
    (g : Digests) (s : Session) (before : Db) (r : OutwardRequest) (o : Outward) (db db' : Db)
    → create_outward g s before r db ≡ ok (o, db')
    → (id : ℕ) × (lines : List OutwardLine) × Requested g s before r id lines
      × (ending g s before r id lines db ≡ ok (o, db'))
unfolding create_outward
create_outward-Requested g s before r o db db' h =
    let (gate, h1) = check-ok (λ _. assert_can_prepare_outward s) (λ _. named) db db' o h in
    let (id, e, h2) =
      query-ok (λ _. or_throw r.source_event_id Error.event_required) checked db db' o h1 in
    let (container, h3) =
      check-ok (λ _. container_exists r.container before) (λ _. evidenced id) db db' o h2 in
    let (evidence, h4) =
      check-ok (λ _. assert_evidence_container s r.source_evidence r.container before)
        (λ _. dealt id) db db' o h3 in
    let (deal, h5) =
      check-ok (λ _. deal_checks s r.container r.deal before) (λ _. normalised id) db db' o h4 in
    let (lines, n, h6) =
      query-ok (λ _. normalise_lines g (event_of g r id) r.lines) (ending g s before r id) db db' o
        h5 in
    (
      id,
      lines,
      record {
        gate = gate;
        named = e;
        container = container;
        evidence = evidence;
        deal = deal;
        normal = n;
      },
      h6,
    )
  where
    normalised : ℕ → M Outward
    normalised id =
        reads (λ _. normalise_lines g (event_of g r id) r.lines) >>= ending g s before r id

    dealt : ℕ → M Outward
    dealt id = check (deal_checks s r.container r.deal before) >> normalised id

    evidenced : ℕ → M Outward
    evidenced id =
        check (assert_evidence_container s r.source_evidence r.container before) >> dealt id

    checked : ℕ → M Outward
    checked id = check (container_exists r.container before) >> evidenced id

    named : M Outward
    named = reads (λ _. or_throw r.source_event_id Error.event_required) >>= checked

-- A request that passes its checks ends so.
pub create_outward-ending :
    (g : Digests) (s : Session) (before : Db) (r : OutwardRequest) (id : ℕ)
    (lines : List OutwardLine) (db : Db)
    → Requested g s before r id lines
    → create_outward g s before r db ≡ ending g s before r id lines db
unfolding create_outward
create_outward-ending g s before r id lines db q =
    rw (q.gate, q.named, q.container, q.evidence, q.deal, q.normal) refl

evidence_of_deal-with_outward :
    (s : Session) (ptype : PermissionType) (deal : Ref) (o : Outward) (db : Db)
    → evidence_of_deal s ptype deal (with_outward o db) ≡ evidence_of_deal s ptype deal db
unfolding evidence_of_deal deal_is_assigned
evidence_of_deal-with_outward s PermissionType.create none o db = refl
evidence_of_deal-with_outward s PermissionType.write none o db = refl
evidence_of_deal-with_outward s _ none o db = refl
evidence_of_deal-with_outward s ptype (some deal) o db = refl

evidence_has_permission-with_outward :
    (s : Session) (n : ℕ) (ptype : PermissionType) (o : Outward) (db : Db)
    → evidence_has_permission s n ptype (with_outward o db) ≡ evidence_has_permission s n ptype db
unfolding evidence_has_permission deal_of_evidence
evidence_has_permission-with_outward s n ptype o db =
    rw (evidence_of_deal-with_outward s ptype (deal_of_evidence n db) o db) refl

assert_evidence_container-with_outward :
    (s : Session) (n container : ℕ) (o : Outward) (db : Db)
    → assert_evidence_container s n container (with_outward o db)
      ≡ assert_evidence_container s n container db
unfolding assert_evidence_container
assert_evidence_container-with_outward s n container o db =
    elim (Option-cases (find evidence_key n db.evidences)) [
      | inl e ↦ rw (e, assert_evidence_container) refl
      | inr (x, e) ↦
          rw (e, assert_evidence_container)
            (rw (evidence_has_permission-with_outward s n PermissionType.read o db) refl)
    ]

deal_checks-with_outward :
    (s : Session) (container : ℕ) (deal : Ref) (o : Outward) (db : Db)
    → deal_checks s container deal (with_outward o db) ≡ deal_checks s container deal db
unfolding deal_checks
deal_checks-with_outward s container none o db = refl
deal_checks-with_outward s container (some deal) o db = refl

-- The checks read no Outward.
pub Requested-with_outward :
    (g : Digests) (s : Session) (db : Db) (r : OutwardRequest) (id : ℕ) (lines : List OutwardLine)
    (o : Outward)
    → Requested g s db r id lines
    → Requested g s (with_outward o db) r id lines
unfolding container_exists
Requested-with_outward g s db r id lines o q = record {
  gate = q.gate;
  named = q.named;
  container = q.container;
  evidence =
      assert_evidence_container-with_outward s r.source_evidence r.container o db ∙ q.evidence;
  deal = deal_checks-with_outward s r.container r.deal o db ∙ q.deal;
  normal = q.normal;
}
