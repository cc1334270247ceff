-- ===== src/Db/Relates.antt =====
-- How the database that an action leaves relates to the one it found, whenever it does not
-- throw: one rule for each way to build an action, for a reflexive and transitive relation.
use fresko_universe.Db.{
  M, ◌>>=◌, pure, reads, is_unique_violation, on_duplicate, Db, Result, ok, err,
}
use fresko_universe.Prelude.{◌≡◌, refl, Bool, true, false, if◌then◌else◌}

-- The result of an action that found `db`: `R` relates `db` to what it left.
abbrev pub Ends : {A : Type 0} → (Db → Type 0) → Result (A × Db) → Type 0
Ends P (ok (_, db)) = P db
Ends P (err _) = Unit {0}

pub record Relates {A : Type 0} (R : Db → Db → Type 0) (m : M A) : Type 0 where
  pub at : (db : Db) → Ends (R db) (m db)

Ends-reads :
    {A : Type 0} (P : Db → Type 0) (db : Db) (c : Result A)
    → P db
    → Ends P (elim c [ ok a ↦ ok (a, db) | err e ↦ err e ])
Ends-reads P db (ok a) r = r
Ends-reads P db (err e) r = tt

module _ {A B : Type 0} {R : Db → Db → Type 0} where
  Ends-bind :
      (db : Db) (r : Result (A × Db)) (f : A → M B)
      → ((x y z : Db) → R x y → R y z → R x z)
      → Ends (R db) r
      → ((a : A) → Relates R (f a))
      → Ends (R db) (elim r [ ok (a, db') ↦ f a db' | err e ↦ err e ])
  Ends-bind db (err e) f trans h k = tt
  Ends-bind db (ok (a, db')) f trans h k = step (f a db') ((k a).at db')
    where
      step : (r : Result (B × Db)) → Ends (R db') r → Ends (R db) r
      step (err e) q = tt
      step (ok (b, db'')) q = trans db db' db'' h q

  pub Relates-bind :
      (m : M A) (f : A → M B)
      → ((x y z : Db) → R x y → R y z → R x z)
      → Relates R m
      → ((a : A) → Relates R (f a))
      → Relates R (m >>= f)
  Relates-bind m f trans h k = record { at = λ db. Ends-bind db (m db) f trans (h.at db) k }

module _ {A : Type 0} {R : Db → Db → Type 0} where
  pub Relates-pure : (a : A) → ((x : Db) → R x x) → Relates R (pure a)
  Relates-pure a r = record { at = λ db. r db }

  pub Relates-reads : (f : Db → Result A) → ((x : Db) → R x x) → Relates R (reads f)
  Relates-reads f r = record { at = λ db. Ends-reads (R db) db (f db) (r db) }

  pub Relates-if :
      (b : Bool) (m n : M A) → Relates R m → Relates R n → Relates R (if b then m else n)
  Relates-if true m n h k = h
  Relates-if false m n h k = k

  pub Relates-on_duplicate : (m k : M A) → Relates R m → Relates R k → Relates R (on_duplicate m k)
  unfolding on_duplicate
  Relates-on_duplicate m k h j = record { at = λ db. at db (m db) (h.at db) }
    where
      at :
          (db : Db) (r : Result (A × Db))
          → Ends (R db) r
          → Ends
              (R db)
              (elim r [ ok x ↦ ok x | err e ↦ if is_unique_violation e then k db else err e ])
      at db (ok r) e = e
      at db (err x) e = choose (is_unique_violation x) db
        where
          choose : (b : Bool) (db : Db) → Ends (R db) (if b then k db else err x)
          choose true db = j.at db
          choose false db = tt

-- A relation that holds of every run that ends well.
pub by_runs :
    {A : Type 0} {R : Db → Db → Type 0} (m : M A)
    → ((db db' : Db) (a : A) → m db ≡ ok (a, db') → R db db')
    → Relates R m
by_runs {A} {R} m h = record { at = λ db. at db (m db) refl }
  where
    at : (db : Db) (r : Result (A × Db)) → m db ≡ r → Ends (R db) r
    at db (ok (a, db')) e = h db db' a e
    at db (err x) e = tt
