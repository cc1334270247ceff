-- ===== src/RateRules/Band.antt =====
-- The band check against its meaning, and the order in which a band is looked up.
use mathlib.Core.Logic.{◌↔◌}
use fresko_universe.Prelude.{
  ◌≡◌, ◌≢◌, Bool, true, false, Option, none, some, ◌⊎◌, arith, Ref, is_set, or_else, ◌||◌, refl,
  inl, inr, Bool-cases, find_by, ◌=?◌, not, if◌then◌else◌,
}
use fresko_universe.Prelude.Int.{ℤ, pos, ◌≤ℤ◌, eqb_ℤ, eqb_ℤ-eq, ltb_ℤ-false}
use fresko_universe.Data.{Container, Lot, RateRule}
use fresko_universe.RateRules.{
  optional_rate, under, over, policy_resolved, rate_in_band, Bands, rule_band, lot_band,
  resolve_rate_band, lot_row, default_band, sized_band,
}

-- A bound is set: a rate that is not zero.
abbrev pub IsBound : Option ℤ → Type 0
IsBound none = ⊥
IsBound (some z) = z ≢ pos 0

-- The rate is at least the floor, if that is set.
abbrev pub AtLeast : Option ℤ → ℤ → Type 0
AtLeast none rate = Unit {0}
AtLeast (some z) rate = z ≢ pos 0 → z ≤ℤ rate

-- The rate is at most the ceiling, if that is set.
abbrev pub AtMost : Option ℤ → ℤ → Type 0
AtMost none rate = Unit {0}
AtMost (some z) rate = z ≢ pos 0 → rate ≤ℤ z

zero_iff : (z : ℤ) → (eqb_ℤ z (pos 0) ≡ true) ↔ (z ≡ pos 0)
zero_iff z = (λ h. eqb_ℤ-eq z (pos 0) h, λ h. rw h refl)

nonzero : (z : ℤ) → eqb_ℤ z (pos 0) ≡ false → z ≢ pos 0
nonzero z h e = cc (h, (zero_iff z).1 e)

IsBound-iff : (b : Option ℤ) → (is_set (optional_rate b) ≡ true) ↔ IsBound b
unfolding optional_rate
IsBound-iff none = (λ h. cc, λ h. absurd h)
IsBound-iff (some z) = elim (Bool-cases (eqb_ℤ z (pos 0))) [
  | inl e ↦ (λ h. absurd (cc (rw e at h)), λ h. absurd (h ((zero_iff z).0 e)))
  | inr e ↦ (λ h. nonzero z e, λ h. rw e)
]

AtLeast-iff : (rate : ℤ) (b : Option ℤ) → (under rate (optional_rate b) ≡ false) ↔ AtLeast b rate
unfolding optional_rate under
AtLeast-iff rate none = (λ h. tt, λ h. refl)
AtLeast-iff rate (some z) = elim (Bool-cases (eqb_ℤ z (pos 0))) [
  | inl e ↦ (λ h n. absurd (n ((zero_iff z).0 e)), λ h. rw e)
  | inr e ↦
      (λ h n. ltb_ℤ-false rate z (rw e at h), λ h. let le = h (nonzero z e) in rw e (ground arith))
]

AtMost-iff : (rate : ℤ) (b : Option ℤ) → (over rate (optional_rate b) ≡ false) ↔ AtMost b rate
unfolding optional_rate over
AtMost-iff rate none = (λ h. tt, λ h. refl)
AtMost-iff rate (some z) = elim (Bool-cases (eqb_ℤ z (pos 0))) [
  | inl e ↦ (λ h n. absurd (n ((zero_iff z).0 e)), λ h. rw e)
  | inr e ↦
      (λ h n. ltb_ℤ-false z rate (rw e at h), λ h. let le = h (nonzero z e) in rw e (ground arith))
]

or_iff : (a b : Bool) {P Q : Type 0} → (a ≡ true) ↔ P → (b ≡ true) ↔ Q → ((a || b) ≡ true) ↔ (P ⊎ Q)
or_iff true b p q = (λ h. inl (p.0 refl), λ h. refl)
or_iff false true p q = (λ h. inr (q.0 refl), λ h. refl)
or_iff false false p q = (λ h. cc, elim [ inl x ↦ p.1 x | inr y ↦ q.1 y ])

three_tests :
    (b u o : Bool)
    → ((if not b then false else if u then false else if o then false else true) ≡ true)
      ↔ ((b ≡ true) × (u ≡ false) × (o ≡ false))
three_tests b u o = (λ h. ground arith, λ h. ground arith)

-- A rate is in the band exactly when a bound is set and the rate keeps each bound that is set: an
-- empty band, or one of zeros, admits no rate.
pub rate_in_band_iff :
    (rate : ℤ) (floor ceiling : Option ℤ)
    → (rate_in_band rate floor ceiling ≡ true)
      ↔ ((IsBound floor ⊎ IsBound ceiling) × AtLeast floor rate × AtMost ceiling rate)
unfolding rate_in_band
rate_in_band_iff rate floor ceiling =
    let r =
      or_iff (is_set (optional_rate floor)) (is_set (optional_rate ceiling)) (IsBound-iff floor)
        (IsBound-iff ceiling) in
    let l = AtLeast-iff rate floor in
    let m = AtMost-iff rate ceiling in
    let t =
      three_tests (policy_resolved floor ceiling) (under rate (optional_rate floor))
        (over rate (optional_rate ceiling)) in
    (λ h. let (b, u, o) = t.0 h in (r.0 b, l.0 u, m.0 o), λ h. t.1 (r.1 h.0, l.1 h.1, m.1 h.2))

optional_rate_idem : (b : Option ℤ) → optional_rate (optional_rate b) ≡ optional_rate b
unfolding optional_rate
optional_rate_idem none = refl
optional_rate_idem (some z) = elim (Bool-cases (eqb_ℤ z (pos 0))) [
  | inl e ↦ rw e refl
  | inr e ↦ rw e (rw e refl)
]

-- The bands that hold no zero.
abbrev HasNoZero : Bands → Type 0
HasNoZero b = (optional_rate b.0 ≡ b.0) × (optional_rate b.1 ≡ b.1)

optional_rate-HasNoZero : (a b : Option ℤ) → HasNoZero (optional_rate a, optional_rate b)
optional_rate-HasNoZero a b = (optional_rate_idem a, optional_rate_idem b)

rule_band-HasNoZero : (c : Container) (r : Option RateRule) → HasNoZero (rule_band c r)
unfolding rule_band
rule_band-HasNoZero c none = optional_rate-HasNoZero c.default_rate_floor c.default_rate_ceiling
rule_band-HasNoZero c (some r) = optional_rate-HasNoZero r.rate_floor r.rate_ceiling

if-HasNoZero : (b : Bool) (x y : Bands) → HasNoZero x → HasNoZero y → HasNoZero (if b then x else y)
if-HasNoZero true x y h k = h
if-HasNoZero false x y h k = k

sized_band-HasNoZero : (c : Container) (cs : Ref) → HasNoZero (sized_band c cs)
unfolding sized_band
sized_band-HasNoZero c cs =
    if-HasNoZero (is_set cs) _ (default_band c)
      (rule_band-HasNoZero c (find_by (λ r. r.count_size =? cs) c.rate_rules))
      (rule_band-HasNoZero c none)

lot_band-HasNoZero : (c : Container) (cs : Ref) (l : Option Lot) → HasNoZero (lot_band c cs l)
unfolding lot_band
lot_band-HasNoZero c cs none = sized_band-HasNoZero c cs
lot_band-HasNoZero c cs (some l) =
    if-HasNoZero _ _ (sized_band c (or_else cs l.count_size))
      (optional_rate-HasNoZero l.rate_floor_override l.rate_ceiling_override)
      (sized_band-HasNoZero c (or_else cs l.count_size))

resolve_rate_band-HasNoZero :
    (c : Container) (lot cs : Ref) → HasNoZero (resolve_rate_band c lot cs)
unfolding resolve_rate_band
resolve_rate_band-HasNoZero c lot cs = lot_band-HasNoZero c cs (lot_row c lot)

-- For a band that is looked up, the policy counts as resolved exactly where one of its bounds is
-- set.
pub policy_resolved-resolve_rate_band :
    (c : Container) (lot count_size : Ref)
    → policy_resolved (resolve_rate_band c lot count_size).0 (resolve_rate_band c lot count_size).1
      ≡ (is_set (resolve_rate_band c lot count_size).0
          || is_set (resolve_rate_band c lot count_size).1)
unfolding policy_resolved
policy_resolved-resolve_rate_band c lot cs =
    let h = resolve_rate_band-HasNoZero c lot cs in rw h.0 (rw h.1 refl)
