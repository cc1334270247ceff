-- ===== src/Physical/Weighed.antt =====
-- Sums over the posted lines, and what the post of one Outward adds to them.
use fresko_universe.Data.{OutwardLine, Outward, MovementType}
use fresko_universe.Db.{outward_key}
use fresko_universe.Physical.{is_posted, PostedLine, tagged, posted_lines, signed_qty}
use fresko_universe.Physical.Ledger.{net_of_lot, net_of_all}
use fresko_universe.Prelude.{
  ℕ, ◌≡◌, refl, inl, inr, Bool, true, false, ◌&&◌, some, List, [], ◌∷◌, ◌==◌, if◌then◌else◌, ◌=?◌,
  ==-refl, Bool-cases, find, put,
}
use fresko_universe.Prelude.Int.{◌+ℤ◌, ℤ, int_laws, pos}

module _ (w : PostedLine → ℤ) where
  -- The sum of the weights.
  unfoldable pub weigh : List PostedLine → ℤ
  weigh [] = pos 0
  weigh (l ∷ ls) = w l +ℤ weigh ls

  -- The weight of the lines of one movement.
  unfoldable pub weigh_lines : MovementType → List OutwardLine → ℤ
  weigh_lines m [] = pos 0
  weigh_lines m (l ∷ ls) = w (m, l) +ℤ weigh_lines m ls

  weigh-tagged :
      (m : MovementType) (ls : List OutwardLine) (rest : List PostedLine)
      → weigh (tagged m ls rest) ≡ weigh_lines m ls +ℤ weigh rest
  unfolding tagged weigh weigh_lines
  weigh-tagged m [] rest = omega int_laws
  weigh-tagged m (l ∷ ls) rest = rw (weigh-tagged m ls rest) (omega int_laws)

  head_apart :
      (c : ℕ) (o : Outward) (os : List Outward)
      → weigh (posted_lines c (o ∷ os))
        ≡ (if o.container == c && is_posted o.status
            then weigh_lines o.movement_type o.lines
            else pos 0)
          +ℤ weigh (posted_lines c os)
  unfolding posted_lines
  head_apart c o os = elim (Bool-cases (o.container == c && is_posted o.status)) [
    | inl e ↦ rw e (weigh-tagged o.movement_type o.lines (posted_lines c os))
    | inr e ↦ rw e (omega int_laws)
  ]

  -- Where a row that is not posted yet is replaced by one of the Container that is, the sum grows
  -- by the weight of its lines.
  pub weigh-put :
      (c : ℕ) (o old : Outward) (os : List Outward)
      → find outward_key o.name os ≡ some old
      → is_posted old.status ≡ false
      → o.container ≡ c
      → is_posted o.status ≡ true
      → weigh (posted_lines c (put outward_key o os))
        ≡ weigh (posted_lines c os) +ℤ weigh_lines o.movement_type o.lines
  unfolding find put
  weigh-put c o old [] f u k p = absurd (cc)
  weigh-put c o old (x ∷ xs) f u k p = elim (Bool-cases (x.name == o.name)) [
    | inl e ↦
        let same : x ≡ old = (let g = (rw e at f) in cc) in
        let unposted : is_posted x.status ≡ false = rw same u in
        let here : (o.container == c && is_posted o.status) ≡ true = rw (k, p) (rw ==-refl refl) in
        let before : (x.container == c && is_posted x.status) ≡ false = rw unposted (last _) in
        rw e (rw (head_apart c o xs, head_apart c x xs, here, before) (omega int_laws))
    | inr e ↦ rw e (
        rw
          (
            head_apart c x (put outward_key o xs),
            head_apart c x xs,
            weigh-put c o old xs (rw e at f) u k p,
          )
          (omega int_laws))
  ]
    where
      last : (b : Bool) → (b && false) ≡ false
      last true = refl
      last false = refl

-- What a line counts for a lot.
unfoldable pub lot_weight : ℕ → PostedLine → ℤ
lot_weight lot (m, l) = if l.lot_no =? some lot then signed_qty (m, l) else pos 0

pub net_of_lot-weigh :
    (lot : ℕ) (ls : List PostedLine) → net_of_lot lot ls ≡ weigh (lot_weight lot) ls
unfolding net_of_lot weigh lot_weight
net_of_lot-weigh lot [] = refl
net_of_lot-weigh lot ((m, l) ∷ ls) = rw (net_of_lot-weigh lot ls) refl

pub net_of_all-weigh : (ls : List PostedLine) → net_of_all ls ≡ weigh signed_qty ls
unfolding net_of_all weigh
net_of_all-weigh [] = refl
net_of_all-weigh ((m, l) ∷ ls) = rw (net_of_all-weigh ls) refl
