-- ===== src/RateRules.antt =====
-- rate_rules.py: the rate band of a lot, and whether a proposed rate lies in it.
pub mod Band
use fresko_universe.Prelude.{
  Bool, true, false, Option, none, some, List, ◌||◌, ◌=?◌, is_set, find_by, if◌then◌else◌, Ref,
  or_else, not,
}
use fresko_universe.Prelude.Int.{ℤ, pos, ltb_ℤ, eqb_ℤ}
use fresko_universe.Data.{Container, Lot, RateRule}

abbrev pub Bands : Type 0
Bands = Option ℤ × Option ℤ

-- _optional_rate: zero counts as not set
unfoldable pub optional_rate : Option ℤ → Option ℤ
optional_rate none = none
optional_rate (some z) = if eqb_ℤ z (pos 0) then none else some z

-- `for row in lots: if row.lot_no == lot_no`, and no search without a lot
unfoldable pub lot_row : Container → Ref → Option Lot
unfolding find_by
lot_row c lot_no = if is_set lot_no then find_by (λ l. l.lot_no =? lot_no) c.lots else none

-- The Container's default band.
unfoldable pub default_band : Container → Bands
unfolding optional_rate
default_band c = (optional_rate c.default_rate_floor, optional_rate c.default_rate_ceiling)

-- The band of a matching rule; an unset one does not fall through.
unfoldable pub rule_band : Container → Option RateRule → Bands
unfolding default_band
rule_band c none = default_band c
rule_band c (some r) = (optional_rate r.rate_floor, optional_rate r.rate_ceiling)

-- The rule of the count size, if there is one; otherwise the default band.
unfoldable pub sized_band : Container → Ref → Bands
unfolding rule_band find_by
sized_band c count_size =
    if is_set count_size
    then rule_band c (find_by (λ r. r.count_size =? count_size) c.rate_rules)
    else default_band c

-- What a lot row contributes: its own band, or the count size that it lends.
unfoldable pub lot_band : Container → Ref → Option Lot → Bands
unfolding sized_band
lot_band c count_size none = sized_band c count_size
lot_band c count_size (some l) =
    if is_set (optional_rate l.rate_floor_override)
      || is_set (optional_rate l.rate_ceiling_override)
    then (optional_rate l.rate_floor_override, optional_rate l.rate_ceiling_override)
    else sized_band c (or_else count_size l.count_size)

-- resolve_rate_band
unfoldable pub resolve_rate_band : Container → Ref → Ref → Bands
unfolding lot_band lot_row
resolve_rate_band c lot_no count_size = lot_band c count_size (lot_row c lot_no)

-- policy_resolved
unfoldable pub policy_resolved : Option ℤ → Option ℤ → Bool
unfolding optional_rate
policy_resolved floor ceiling = is_set (optional_rate floor) || is_set (optional_rate ceiling)

-- `floor is not None and rate < floor`
unfoldable pub under : ℤ → Option ℤ → Bool
under rate none = false
under rate (some floor) = ltb_ℤ rate floor

-- `ceiling is not None and rate > ceiling`
unfoldable pub over : ℤ → Option ℤ → Bool
over rate none = false
over rate (some ceiling) = ltb_ℤ ceiling rate

-- rate_in_band
unfoldable pub rate_in_band : ℤ → Option ℤ → Option ℤ → Bool
unfolding policy_resolved under over
rate_in_band rate floor ceiling =
    if not (policy_resolved floor ceiling)
    then false
    else if under rate (optional_rate floor)
    then false
    else if over rate (optional_rate ceiling)
    then false
    else true
