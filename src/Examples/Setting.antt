-- ===== src/Examples/Setting.antt =====
-- One Container of one lot, one Deal, and three users.
use fresko_universe.Data.{
  Deal, Lot, Container, OutwardLine, OutwardFacts, Outward, Session, DealStatus, ContainerStatus,
  ClosingStatus, OutwardStatus, MovementType,
}
use fresko_universe.Db.{Db, Result, ok, err}
use fresko_universe.Prelude.{ℕ, zero, suc, ◌*◌, ◌≡◌, refl, ap, true, false, none, some, [], ◌∷◌}
use fresko_universe.Prelude.Int.{ℤ, pos, negsuc}
use fresko_universe.Revisions.{Texts}

-- 40 units, in 10^-9.
abbrev pub units : ℕ → ℤ
units n = pos (n * 1000000000)

abbrev pub lot_a : Lot
lot_a = record {
  name = 21;
  lot_no = some 11;
  inward_qty = units 100;
  uom = some 3;
  batch = none;
  count_size = some 7;
  rate_floor_override = none;
  rate_ceiling_override = none;
}

abbrev pub container_a : Container
container_a = record {
  name = 1;
  container_no = some 31;
  company = some 41;
  item = some 51;
  uom = some 3;
  currency = some 61;
  inward_qty = units 100;
  status = ContainerStatus.selling;
  closing_status = ClosingStatus.open_;
  default_rate_floor = some (units 10);
  default_rate_ceiling = some (units 20);
  lots = lot_a ∷ [];
  rate_rules = [];
}

abbrev pub deal_a : Deal
deal_a = record {
  name = 5;
  owner = 71;
  salesperson_user = some 72;
  status = DealStatus.proposed;
  container = 1;
  lot_no = some 11;
  container_lot = some 21;
  batch = none;
  count_size = some 7;
  buyer_alias = some 81;
  customer = none;
  company = some 41;
  item = some 51;
  uom = some 3;
  currency = some 61;
  qty = units 40;
  dispatched_qty = pos 0;
  proposed_rate = units 15;
  approved_rate = none;
  rate_floor = none;
  rate_ceiling = none;
  approval_required = false;
  approval = none;
  cancel_reason = none;
  source_message_id = none;
  duplicate_fingerprint = some 91;
  amount = pos 0;
}

abbrev pub db_of : Deal → Db
db_of d = record {
  deals = d ∷ [];
  containers = container_a ∷ [];
  assertions = [];
  field_assertions = [];
  evidences = [];
  outwards = [];
  exceptions = [];
  approvals = [];
  revisions = [];
  allocations = [];
  collections = [];
  next_name = 100;
}

-- A posted Outward of 30 units of the lot.
abbrev pub line_a : OutwardLine
line_a = record {
  line_key = 201;
  source_line_ref = some 202;
  raw_lot_text = some 203;
  lot_no = some 11;
  batch = none;
  qty = units 30;
  uom = some 3;
  raw_qty_text = some 204;
  raw_uom_text = some 205;
  raw_rate_text = none;
}

abbrev pub facts_a : OutwardFacts
facts_a = record {
  company = some 41;
  container = 1;
  deal = none;
  gatepass_no = some 206;
  gatepass_comparison_key = some 207;
  vehicle_no = none;
  raw_party_name = none;
  movement_type = MovementType.outward;
  movement_at = some 208;
  source_evidence = 16;
  source_event_id = some 209;
  posting_reason = none;
  reverses_outward = none;
  lines = line_a ∷ [];
}

abbrev pub outward_a : Outward
outward_a = record {
  name = 14;
  facts = facts_a;
  source_event_key = 210;
  payload_sha256 = 211;
  status = OutwardStatus.posted;
  prepared_by = 71;
  submitted_by = some 71;
  posted_by = some 73;
}

abbrev pub seller : Session
seller = record {
  user = 71;
  administrator = false;
  system_manager = false;
  approver = false;
  salesperson = true;
  accounts = false;
  supplier = false;
}

abbrev pub approver_user : Session
approver_user = record seller { user = 73; approver = true; salesperson = false }

-- What an action answers, and the database that it leaves; where it fails, the first.
abbrev pub answer_of : {A : Type 0} → A → Result (A × Db) → A
answer_of a (ok (b, _)) = b
answer_of a (err _) = a

abbrev pub state_of : {A : Type 0} → Db → Result (A × Db) → Db
state_of db (ok (_, db')) = db'
state_of db (err _) = db

-- Texts of numbers: an even one for a number that is not negative, an odd one for another.
abbrev twice : ℕ → ℕ
twice zero = zero
twice (suc n) = suc (suc (twice n))

abbrev code : ℤ → ℕ
code (pos n) = twice n
code (negsuc n) = suc (twice n)

abbrev away : ℤ → ℤ
away (pos n) = pos (suc n)
away (negsuc n) = negsuc (suc n)

abbrev decode : ℕ → ℤ
decode zero = pos 0
decode (suc zero) = negsuc 0
decode (suc (suc n)) = away (decode n)

decode-twice : (n : ℕ) → decode (twice n) ≡ pos n
decode-twice zero = refl
decode-twice (suc n) = ap away (decode-twice n)

decode_odd : (n : ℕ) → decode (suc (twice n)) ≡ negsuc n
decode_odd zero = refl
decode_odd (suc n) = ap away (decode_odd n)

pub decode-code : (z : ℤ) → decode (code z) ≡ z
decode-code (pos n) = decode-twice n
decode-code (negsuc n) = decode_odd n

abbrev pub numerals : Texts
numerals = record { str = code; flt = decode; flt-str = decode-code }
