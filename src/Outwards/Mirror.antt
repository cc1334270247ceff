-- ===== src/Outwards/Mirror.antt =====
-- The reversal that is drafted is the mirror that the post asks for.
use fresko_universe.Data.{OutwardLine, OutwardFacts, Outward, Session, Digests, MovementType}
use fresko_universe.Db.{pass, outward_key, fresh, Db}
use fresko_universe.Outwards.{
  outward_taken, reversal_exists, line_ref, copied_line, copied_lines, reversal_facts,
  is_posted_outward, ReversalRequest, same_shape, mirror_checks, comparison_key, draft_outward,
  outward_of_event,
}
use fresko_universe.Outwards.Inserted.{with_outward, draft_outward-IsDraft, IsDraft}
use fresko_universe.Prelude.{
  ℕ, ◌+◌, ◌≡◌, refl, subst, inl, inr, Bool, true, false, ◌&&◌, not, none, some, List, [], ◌∷◌,
  arith, ◌==◌, ◌=?◌, ==-refl, Bool-cases, =?-refl, any, put,
}
use fresko_universe.Prelude.Int.{eqb_ℤ-refl}

same_shape-copied_lines :
    (g : Digests) (event idx : ℕ) (ls : List OutwardLine)
    → same_shape ls (copied_lines g event idx ls) ≡ true
unfolding same_shape copied_lines copied_line
same_shape-copied_lines g event idx [] = refl
same_shape-copied_lines g event idx (l ∷ ls) =
    rw (=?-refl l.lot_no, =?-refl l.uom, eqb_ℤ-refl l.qty)
      (same_shape-copied_lines g event (idx + 1) ls)

-- No Outward but the new one reverses the original.
reversal_exists-with_outward :
    (n : ℕ) (o : Outward) (db : Db)
    → reversal_exists n none db ≡ false
    → reversal_exists n (some o.name) (with_outward o db) ≡ false
unfolding reversal_exists any put
reversal_exists-with_outward n o db h = at db.outwards h
  where
    others : Outward → Bool
    others x = x.reverses_outward =? some n && not (x.name == o.name)

    still :
        (xs : List Outward)
        → any (λ x. x.reverses_outward =? some n && true) xs ≡ false
        → any others xs ≡ false
    still [] k = refl
    still (x ∷ xs) k = ground (arith, still xs)

    at :
        (xs : List Outward)
        → any (λ x. x.reverses_outward =? some n && true) xs ≡ false
        → any others (put outward_key o xs) ≡ false
    at [] k = rw (==-refl o.name) (ground arith)
    at (x ∷ xs) k = elim (Bool-cases (x.name == o.name)) [
      | inl e ↦ rw (e, ==-refl o.name) (ground (arith, still xs))
      | inr e ↦ rw e (ground (arith, at xs))
    ]

mirror_checks-draft :
    (g : Digests) (s : Session) (r : ReversalRequest) (event : ℕ) (original o : Outward) (db : Db)
    → is_posted_outward original ≡ true
    → reversal_exists original.name none db ≡ false
    → draft_outward g s event (reversal_facts g original r event) db.next_name ≡ o
    → mirror_checks original o (with_outward o db) ≡ pass
unfolding mirror_checks draft_outward reversal_facts
mirror_checks-draft g s r event original o db posted free draft =
    let shape : same_shape original.lines o.lines ≡ true =
      subst (λ (y : Outward). same_shape original.lines y.lines ≡ true) draft
        (same_shape-copied_lines g event 1 original.lines) in
    rw (posted, reversal_exists-with_outward original.name o db free, shape) refl

-- The line that a reversal has for one of the original, at that place.
pub record Copied (g : Digests) (event idx : ℕ) (l x : OutwardLine) : Type 0 where
  pub key : x.line_key ≡ g.outward_line event (line_ref g idx l.source_line_ref)
  pub source_line_ref : x.source_line_ref ≡ some (line_ref g idx l.source_line_ref)
  pub raw_lot_text : x.raw_lot_text ≡ l.raw_lot_text
  pub lot_no : x.lot_no ≡ l.lot_no
  pub batch : x.batch ≡ l.batch
  pub qty : x.qty ≡ l.qty
  pub uom : x.uom ≡ l.uom
  pub raw_qty_text : x.raw_qty_text ≡ l.raw_qty_text
  pub raw_uom_text : x.raw_uom_text ≡ l.raw_uom_text
  pub raw_rate_text : x.raw_rate_text ≡ l.raw_rate_text

abbrev pub AllCopied : Digests → ℕ → ℕ → List OutwardLine → List OutwardLine → Type 0
AllCopied g event idx [] [] = Unit {0}
AllCopied g event idx [] (x ∷ xs) = ⊥
AllCopied g event idx (l ∷ ls) [] = ⊥
AllCopied g event idx (l ∷ ls) (x ∷ xs) = Copied g event idx l x × AllCopied g event (idx + 1) ls xs

copied_lines-AllCopied :
    (g : Digests) (event idx : ℕ) (ls : List OutwardLine)
    → AllCopied g event idx ls (copied_lines g event idx ls)
unfolding copied_lines copied_line
copied_lines-AllCopied g event idx [] = tt
copied_lines-AllCopied g event idx (l ∷ ls) = (
  record {
    key = refl;
    source_line_ref = refl;
    raw_lot_text = refl;
    lot_no = refl;
    batch = refl;
    qty = refl;
    uom = refl;
    raw_qty_text = refl;
    raw_uom_text = refl;
    raw_rate_text = refl;
  },
  copied_lines-AllCopied g event (idx + 1) ls,
)

-- The payload of a reversal: what the request says of the movement, and the rest as the original
-- has it.
pub record AskedReversal (g : Digests) (event : ℕ) (original : Outward) (r : ReversalRequest)
    (facts : OutwardFacts) : Type 0 where
  pub company : facts.company ≡ original.company
  pub container : facts.container ≡ original.container
  pub deal : facts.deal ≡ original.deal
  pub gatepass_no : facts.gatepass_no ≡ original.gatepass_no
  pub gatepass_comparison_key :
      facts.gatepass_comparison_key ≡ comparison_key g original.gatepass_no
  pub vehicle_no : facts.vehicle_no ≡ original.vehicle_no
  pub raw_party_name : facts.raw_party_name ≡ original.raw_party_name
  pub movement_type : facts.movement_type ≡ MovementType.reversal
  pub movement_at : facts.movement_at ≡ r.movement_at
  pub source_evidence : facts.source_evidence ≡ r.source_evidence
  pub source_event_id : facts.source_event_id ≡ r.source_event_id
  pub posting_reason : facts.posting_reason ≡ r.reason
  pub reverses_outward : facts.reverses_outward ≡ some original.name
  pub lines : AllCopied g event 1 original.lines facts.lines

pub reversal_facts-AskedReversal :
    (g : Digests) (event : ℕ) (original : Outward) (r : ReversalRequest)
    → AskedReversal g event original r (reversal_facts g original r event)
unfolding reversal_facts
reversal_facts-AskedReversal g event original r = record {
  company = refl;
  container = refl;
  deal = refl;
  gatepass_no = refl;
  gatepass_comparison_key = refl;
  vehicle_no = refl;
  raw_party_name = refl;
  movement_type = refl;
  movement_at = refl;
  source_evidence = refl;
  source_event_id = refl;
  posting_reason = refl;
  reverses_outward = refl;
  lines = copied_lines-AllCopied g event 1 original.lines;
}

-- The reversal is a new Draft of the caller of an original which nothing reversed, and the checks
-- of its post on the original pass in the state that it leaves.
pub record Mirrors (g : Digests) (s : Session) (event : ℕ) (facts : OutwardFacts)
    (original o : Outward) (db db' : Db) : Type 0 where
  pub unreversed : reversal_exists original.name none db ≡ false
  pub free : outward_taken o db ≡ false
  pub draft : IsDraft g s event facts o db db'
  pub mirrored : mirror_checks original o db' ≡ pass

pub drafted-Mirrors :
    (g : Digests) (s : Session) (r : ReversalRequest) (event : ℕ) (original o : Outward)
    (db db' : Db)
    → is_posted_outward original ≡ true
    → reversal_exists original.name none db ≡ false
    → outward_of_event event db ≡ none
    → draft_outward g s event (reversal_facts g original r event) db.next_name ≡ o
    → outward_taken o db ≡ false
    → with_outward o db ≡ db'
    → Mirrors g s event (reversal_facts g original r event) original o db db'
unfolding draft_outward reversal_facts
drafted-Mirrors g s r event original o db db' posted free fresh draft untaken left = record {
  unreversed = free;
  free = untaken;
  draft =
      draft_outward-IsDraft g s event (reversal_facts g original r event) o db db' fresh draft left;
  mirrored =
      subst (λ y. mirror_checks original o y ≡ pass) left
        (mirror_checks-draft g s r event original o db posted free draft);
}
