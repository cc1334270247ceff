-- ===== src/Outwards/Asked.antt =====
-- What a request of create_outward asks for, member by member, and that the payload is that.
use fresko_universe.Data.{OutwardLine, OutwardFacts, Digests, MovementType}
use fresko_universe.Db.{Result-cases, after-ok, ok}
use fresko_universe.Outwards.{
  line_checks, normal_line, normalise_line, normalise_rows, normalise_lines, LineRequest,
  comparison_key, outward_facts, OutwardRequest,
}
use fresko_universe.Prelude.{
  ℕ, ◌≡◌, refl, subst, ◌≢◌, inl, inr, true, false, none, some, List, [], ◌∷◌, Ref, is_set,
  Bool-cases, Option-cases,
}
use fresko_universe.Prelude.Int.{◌+ℤ◌, ◌≤ℤ◌, leb_ℤ, leb_ℤ-false, pos}

-- The line that is stored for a line as it was passed.
pub record Taken (g : Digests) (event : ℕ) (l : LineRequest) (x : OutwardLine) : Type 0 where
  pub ref : ℕ
  pub referred : l.source_line_ref ≡ some ref
  pub key : x.line_key ≡ g.outward_line event ref
  pub source_line_ref : x.source_line_ref ≡ some ref
  pub raw_lot_text : x.raw_lot_text ≡ l.raw_lot_text
  pub lot_no : x.lot_no ≡ l.lot_no
  pub batch : x.batch ≡ l.batch
  pub qty : x.qty ≡ l.qty
  pub positive : pos 0 +ℤ pos 1 ≤ℤ x.qty
  pub uom : x.uom ≡ l.uom
  pub unit : is_set x.uom ≡ true
  pub raw_qty_text : x.raw_qty_text ≡ l.raw_qty_text
  pub raw_uom_text : x.raw_uom_text ≡ l.raw_uom_text
  pub raw_rate_text : x.raw_rate_text ≡ l.raw_rate_text

-- One stored line for each that was passed, in their order.
abbrev pub AllTaken : Digests → ℕ → List LineRequest → List OutwardLine → Type 0
AllTaken g event [] [] = Unit {0}
AllTaken g event [] (x ∷ xs) = ⊥
AllTaken g event (l ∷ ls) [] = ⊥
AllTaken g event (l ∷ ls) (x ∷ xs) = Taken g event l x × AllTaken g event ls xs

-- The payload of the request, for the company of its Container.
pub record Asked (g : Digests) (event : ℕ) (company : Ref) (r : OutwardRequest)
    (facts : OutwardFacts) : Type 0 where
  pub company_is : facts.company ≡ company
  pub container : facts.container ≡ r.container
  pub deal : facts.deal ≡ r.deal
  pub gatepass_no : facts.gatepass_no ≡ r.gatepass_no
  pub gatepass_comparison_key : facts.gatepass_comparison_key ≡ comparison_key g r.gatepass_no
  pub vehicle_no : facts.vehicle_no ≡ r.vehicle_no
  pub raw_party_name : facts.raw_party_name ≡ r.raw_party_name
  pub movement_type : facts.movement_type ≡ MovementType.outward
  pub movement_at : facts.movement_at ≡ r.movement_at
  pub source_evidence : facts.source_evidence ≡ r.source_evidence
  pub source_event_id : facts.source_event_id ≡ r.source_event_id
  pub posting_reason : facts.posting_reason ≡ r.posting_reason
  pub reverses_outward : facts.reverses_outward ≡ none
  pub some_lines : r.lines ≢ []
  pub lines : AllTaken g event r.lines facts.lines

normal_line-Taken :
    (g : Digests) (event ref : ℕ) (l : LineRequest)
    → l.source_line_ref ≡ some ref
    → leb_ℤ l.qty (pos 0) ≡ false
    → is_set l.uom ≡ true
    → Taken g event l (normal_line g event ref l)
unfolding normal_line
normal_line-Taken g event ref l e q u = record {
  ref = ref;
  referred = e;
  key = refl;
  source_line_ref = refl;
  raw_lot_text = refl;
  lot_no = refl;
  batch = refl;
  qty = refl;
  positive = leb_ℤ-false l.qty (pos 0) q;
  uom = refl;
  unit = u;
  raw_qty_text = refl;
  raw_uom_text = refl;
  raw_rate_text = refl;
}

normalise_line-Taken :
    (g : Digests) (event : ℕ) (seen : List ℕ) (l : LineRequest) (ref : ℕ) (x : OutwardLine)
    → normalise_line g event seen l ≡ ok (ref, x)
    → Taken g event l x
unfolding normalise_line
normalise_line-Taken g event seen l ref x h = elim (Bool-cases (leb_ℤ l.qty (pos 0))) [
  | inl e ↦ (let k = (rw (e, normalise_line) at h) in absurd (cc))
  | inr e ↦ elim (Bool-cases (is_set l.uom)) [
    | inr u ↦ (let k = (rw (e, u, normalise_line) at h) in absurd (cc))
    | inl u ↦ elim (Option-cases l.source_line_ref) [
      | inl s ↦ (let k = (rw (e, u, s, normalise_line) at h) in absurd (cc))
      | inr (n, s) ↦
          let (_, k) =
            after-ok (line_checks seen n l) (ok (n, normal_line g event n l)) (ref, x)
              (rw (e, u, s, normalise_line) at h) in
          let is : normal_line g event n l ≡ x = cc in
          subst (Taken g event l) is (normal_line-Taken g event n l s e u)
    ]
  ]
]

normalise_rows-AllTaken :
    (g : Digests) (event : ℕ) (seen : List ℕ) (ls : List LineRequest) (xs : List OutwardLine)
    → normalise_rows g event seen ls ≡ ok xs
    → AllTaken g event ls xs
unfolding normalise_rows
normalise_rows-AllTaken g event seen [] [] h = tt
normalise_rows-AllTaken g event seen [] (x ∷ xs) h = absurd (cc)
normalise_rows-AllTaken g event seen (l ∷ ls) xs h =
    elim (Result-cases (normalise_line g event seen l)) [
      | inr (bad, e) ↦ (let k = (rw (e, normalise_rows) at h) in absurd (cc))
      | inl ((ref, x), e) ↦ elim (Result-cases (normalise_rows g event (ref ∷ seen) ls)) [
        | inr (bad, f) ↦ (let k = (rw (e, f, normalise_rows) at h) in absurd (cc))
        | inl (rest, f) ↦
            let k = (rw (e, f, normalise_rows) at h) in
            let is : (x ∷ rest) ≡ xs = cc in
            subst (AllTaken g event (l ∷ ls)) is (
              normalise_line-Taken g event seen l ref x e,
              normalise_rows-AllTaken g event (ref ∷ seen) ls rest f,
            )
      ]
    ]

some_asked :
    (g : Digests) (event : ℕ) (ls : List LineRequest) (xs : List OutwardLine)
    → normalise_lines g event ls ≡ ok xs
    → (ls ≢ []) × AllTaken g event ls xs
unfolding normalise_lines
some_asked g event [] xs h = absurd (cc)
some_asked g event (l ∷ ls) xs h =
    ((λ e. absurd (cc)), normalise_rows-AllTaken g event [] (l ∷ ls) xs h)

pub outward_facts-Asked :
    (g : Digests) (event : ℕ) (company : Ref) (r : OutwardRequest) (lines : List OutwardLine)
    → normalise_lines g event r.lines ≡ ok lines
    → Asked g event company r (outward_facts g r company lines)
unfolding outward_facts
outward_facts-Asked g event company r lines h =
    let (some_lines, taken) = some_asked g event r.lines lines h in
    record {
      company_is = refl;
      container = refl;
      deal = refl;
      gatepass_no = refl;
      gatepass_comparison_key = refl;
      vehicle_no = refl;
      raw_party_name = refl;
      movement_type = refl;
      movement_at = refl;
      source_evidence = refl;
      source_event_id = refl;
      posting_reason = refl;
      reverses_outward = refl;
      some_lines = some_lines;
      lines = taken;
    }
