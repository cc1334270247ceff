-- ===== src/Outwards/Lines.antt =====
-- outward_service.py: the lines and the evidence of a request.
use fresko_universe.Access.{PermissionType, evidence_has_permission}
use fresko_universe.Data.{OutwardLine, Session, Digests}
use fresko_universe.Db.{
  Check, throw_if, ◌then_check◌, evidence_key, after, Db, Result, ok, err, Error,
}
use fresko_universe.Prelude.{
  ℕ, not, none, some, List, [], ◌∷◌, ◌==◌, if◌then◌else◌, Ref, is_set, ◌=?◌, any, find,
}
use fresko_universe.Prelude.Int.{leb_ℤ, ℤ, pos}

-- A line as it is passed. A text is none where it is None or blank; `qty` is what flt reads.
pub record LineRequest : Type 0 where
  pub source_line_ref : Ref
  pub raw_lot_text : Ref
  pub lot_no : Ref
  pub batch : Ref
  pub qty : ℤ
  pub uom : Ref
  pub raw_qty_text : Ref
  pub raw_uom_text : Ref
  pub raw_rate_text : Ref

-- The checks on a line, after the lines of these references.
unfoldable pub line_checks : List ℕ → ℕ → LineRequest → Check
unfolding any
line_checks seen ref l =
    throw_if (not (is_set l.raw_qty_text)) Error.line_text_required
    then_check throw_if (not (is_set l.raw_uom_text)) Error.line_text_required
    then_check throw_if (any (λ r. r == ref) seen) Error.duplicate_line

unfoldable pub normal_line : Digests → ℕ → ℕ → LineRequest → OutwardLine
normal_line g event ref l = record {
  line_key = g.outward_line event ref;
  source_line_ref = some ref;
  raw_lot_text = l.raw_lot_text;
  lot_no = l.lot_no;
  batch = l.batch;
  qty = l.qty;
  uom = l.uom;
  raw_qty_text = l.raw_qty_text;
  raw_uom_text = l.raw_uom_text;
  raw_rate_text = l.raw_rate_text;
}

-- One round of _normalise_lines.
unfoldable pub normalise_line : Digests → ℕ → List ℕ → LineRequest → Result (ℕ × OutwardLine)
unfolding line_checks normal_line
normalise_line g event seen l =
    if leb_ℤ l.qty (pos 0)
    then err Error.line_qty_not_positive
    else if not (is_set l.uom)
    then err Error.line_uom_required
    else (elim l.source_line_ref [
      | none ↦ err Error.event_required
      | some ref ↦ after (line_checks seen ref l) (ok (ref, normal_line g event ref l))
    ])

unfoldable pub normalise_rows : Digests → ℕ → List ℕ → List LineRequest → Result (List OutwardLine)
unfolding normalise_line
normalise_rows g event seen [] = ok []
normalise_rows g event seen (l ∷ ls) = elim (normalise_line g event seen l) [
  | err e ↦ err e
  | ok (ref, line) ↦ elim (normalise_rows g event (ref ∷ seen) ls) [
    | err e ↦ err e
    | ok rest ↦ ok (line ∷ rest)
  ]
]

-- _normalise_lines, with _as_list
unfoldable pub normalise_lines : Digests → ℕ → List LineRequest → Result (List OutwardLine)
unfolding normalise_rows
normalise_lines g event [] = err Error.outward_lines_required
normalise_lines g event (l ∷ ls) = normalise_rows g event [] (l ∷ ls)

-- _assert_evidence_container
unfoldable pub assert_evidence_container : Session → ℕ → ℕ → Db → Check
unfolding evidence_has_permission find
assert_evidence_container s evidence container db = elim (find evidence_key evidence db.evidences) [
  | none ↦ err Error.evidence_missing
  | some e ↦
      throw_if (not (evidence_has_permission s evidence PermissionType.read db))
        Error.evidence_denied
      then_check throw_if (not (is_set e.container)) Error.evidence_unscoped
      then_check throw_if (not (e.container =? some container)) Error.evidence_other_container
]
