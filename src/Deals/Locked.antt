-- ===== src/Deals/Locked.antt =====
-- What the probe and the locking read of a method give.
use fresko_universe.Data.{Deal}
use fresko_universe.Db.{
  Check, throw_if, deal_key, get_deal, check-ok, query-ok, or_throw-ok, Db, ok, Error,
}
use fresko_universe.Deals.{locked_deal}
use fresko_universe.Prelude.{ℕ, ◌≡◌, ap, ◌∙◌, not, some, ◌==◌, find}

-- The Deal that was found is the stored one, and the database is as it was.
pub locked_deal-ok :
    (before db db' : Db) (n : ℕ) (gate : Deal → Check) (d : Deal)
    → locked_deal before n gate db ≡ ok (d, db')
    → (db ≡ db') × (find deal_key n db.deals ≡ some d)
unfolding locked_deal
locked_deal-ok before db db' n gate d h =
    let (probe, e1, h1) = query-ok (λ _. get_deal n before) _ db db' d h in
    let (e2, h2) = check-ok (λ _. gate probe) _ db db' d h1 in
    let (deal, e3, h3) = query-ok (get_deal n) _ db db' d h2 in
    let (e4, h4) =
      check-ok (λ _. throw_if (not (deal.container == probe.container)) Error.container_changed) _
        db db' d h3 in
    let p : deal ≡ d = cc in
    ((cc), or_throw-ok (find deal_key n db.deals) Error.not_found d (e3 ∙ ap ok p))
