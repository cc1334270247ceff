-- ===== src/Db/Outcomes.antt =====
-- What a request that succeeded did, step by step.
use fresko_universe.Db.State.{
  Db, Result, ok, err, Check, pass, throw_if, ◌then_check◌, or_throw, M, ◌>>=◌, reads, after,
  ignore, is_unique_violation, on_duplicate,
}
use fresko_universe.Db.Errors.{Error}
use fresko_universe.Prelude.{
  ◌≡◌, refl, sym, ap, ◌∙◌, subst, ◌⊎◌, inl, inr, Bool, true, false, Option, none, some,
  if◌then◌else◌, Bool-cases,
}

-- To split on a computed result and keep the equation.
pub Result-cases :
    {A : Type 0} (r : Result A) → ((a : A) × (r ≡ ok a)) ⊎ ((e : Error) × (r ≡ err e))
Result-cases (ok a) = inl (a, refl)
Result-cases (err e) = inr (e, refl)

-- A check passes only where its test is false.
pub throw_if-pass : (b : Bool) (e : Error) → throw_if b e ≡ pass → b ≡ false
throw_if-pass true e h = cc
throw_if-pass false e h = refl

-- A row of checks passes only where each does.
pub then_check-pass : (c d : Check) → (c then_check d) ≡ pass → (c ≡ pass) × (d ≡ pass)
then_check-pass (ok tt) d h = (refl, h)
then_check-pass (err e) d h = cc

-- What a successful action did, step by step.
pub bind-ok :
    {A B : Type 0} (m : M A) (f : A → M B) (db db' : Db) (b : B)
    → (m >>= f) db ≡ ok (b, db')
    → (a : A) × (mid : Db) × (m db ≡ ok (a, mid)) × (f a mid ≡ ok (b, db'))
bind-ok {A} {B} m f db db' b h = at (m db) refl h
  where
    at :
        (r : Result (A × Db))
        → m db ≡ r
        → (elim r [ ok (a, mid) ↦ f a mid | err e ↦ err e ]) ≡ ok (b, db')
        → (a : A) × (mid : Db) × (m db ≡ ok (a, mid)) × (f a mid ≡ ok (b, db'))
    at (ok (a, mid)) e k = (a, mid, e, k)
    at (err x) e k = absurd (cc)

-- A query leaves the database as it is.
pub reads-ok :
    {A : Type 0} (f : Db → Result A) (db db' : Db) (a : A)
    → reads f db ≡ ok (a, db')
    → (f db ≡ ok a) × (db ≡ db')
reads-ok {A} f db db' a h = elim (Result-cases (f db)) [
  | inl (x, e) ↦
      let g : ◌≡◌ {A = Result (A × Db)} (ok (x, db)) (ok (a, db')) = rw (e, reads) at h in
      let p : x ≡ a = cc in (e ∙ ap ok p, (cc))
  | inr (x, e) ↦
      let g : ◌≡◌ {A = Result (A × Db)} (err x) (ok (a, db')) = rw (e, reads) at h in absurd (cc)
]

-- An action that succeeds, and what follows it.
pub bind-then :
    {A B : Type 0} (m : M A) (k : A → M B) (db mid : Db) (a : A)
    → m db ≡ ok (a, mid)
    → (m >>= k) db ≡ k a mid
bind-then {A} m k db mid a e =
    subst (λ (r : Result (A × Db)). ((λ _. r) >>= k) db ≡ k a mid) (sym e) refl

-- A query that answers, and what follows it.
pub reads-then :
    {A B : Type 0} (f : Db → Result A) (k : A → M B) (db : Db) (a : A)
    → f db ≡ ok a
    → (reads f >>= k) db ≡ k a db
reads-then {A} f k db a e =
    subst (λ (r : Result A). (reads (λ _. r) >>= k) db ≡ k a db) (sym e) refl

-- A query that throws ends the action.
pub reads-err :
    {A B : Type 0} (f : Db → Result A) (k : A → M B) (db : Db) (e : Error)
    → f db ≡ err e
    → (reads f >>= k) db ≡ err e
reads-err {A} f k db e h = subst (λ (r : Result A). (reads (λ _. r) >>= k) db ≡ err e) (sym h) refl

-- A check that passed, and what followed it on the same database.
pub check-ok :
    {B : Type 0} (f : Db → Check) (k : Unit {0} → M B) (db db' : Db) (b : B)
    → (reads f >>= k) db ≡ ok (b, db')
    → (f db ≡ pass) × (k tt db ≡ ok (b, db'))
check-ok f k db db' b h =
    let (a, mid, e, g) = bind-ok (reads f) k db db' b h in
    let (p, q) = reads-ok f db mid a e in (p, subst (λ x. k tt x ≡ ok (b, db')) (sym q) g)

-- A query, and what followed it on the same database.
pub query-ok :
    {A B : Type 0} (f : Db → Result A) (k : A → M B) (db db' : Db) (b : B)
    → (reads f >>= k) db ≡ ok (b, db')
    → (a : A) × (f db ≡ ok a) × (k a db ≡ ok (b, db'))
query-ok f k db db' b h =
    let (a, mid, e, g) = bind-ok (reads f) k db db' b h in
    let (p, q) = reads-ok f db mid a e in (a, p, subst (λ x. k a x ≡ ok (b, db')) (sym q) g)

pub or_throw-ok : {A : Type 0} (o : Option A) (e : Error) (a : A) → or_throw o e ≡ ok a → o ≡ some a
or_throw-ok none e a h = cc
or_throw-ok (some x) e a h = cc

-- The same three, for a proof that goes on with what it is given as variables.
module _ {A B : Type 0} {P : Type 0} where
  pub after_bind :
      (m : M A) (f : A → M B) (db db' : Db) (b : B)
      → (m >>= f) db ≡ ok (b, db')
      → ((a : A) (mid : Db) → m db ≡ ok (a, mid) → f a mid ≡ ok (b, db') → P)
      → P
  after_bind m f db db' b h k = let (a, mid, e, g) = bind-ok m f db db' b h in k a mid e g

  pub after_query :
      (f : Db → Result A) (k : A → M B) (db db' : Db) (b : B)
      → (reads f >>= k) db ≡ ok (b, db')
      → ((a : A) → f db ≡ ok a → k a db ≡ ok (b, db') → P)
      → P
  after_query f k db db' b h go = let (a, e, g) = query-ok f k db db' b h in go a e g

module _ {B : Type 0} {P : Type 0} where
  pub after_check :
      (f : Db → Check) (k : Unit {0} → M B) (db db' : Db) (b : B)
      → (reads f >>= k) db ≡ ok (b, db')
      → (f db ≡ pass → k tt db ≡ ok (b, db') → P)
      → P
  after_check f k db db' b h go = let (e, g) = check-ok f k db db' b h in go e g

pub after-ok :
    {A : Type 0} (c : Check) (r : Result A) (a : A) → after c r ≡ ok a → (c ≡ pass) × (r ≡ ok a)
after-ok (ok tt) r a h = (refl, h)
after-ok (err e) r a h = absurd (cc)

pub ignore-pass : {A : Type 0} (r : Result A) → ignore r ≡ pass → (a : A) × (r ≡ ok a)
ignore-pass (ok a) h = (a, refl)
ignore-pass (err e) h = absurd (cc)

-- Either action succeeded, on the same database.
pub on_duplicate-ok :
    {A : Type 0} (m k : M A) (db db' : Db) (a : A)
    → on_duplicate m k db ≡ ok (a, db')
    → (m db ≡ ok (a, db')) ⊎ (k db ≡ ok (a, db'))
unfolding on_duplicate
on_duplicate-ok {A} m k db db' a h = at (m db) refl h
  where
    at :
        (r : Result (A × Db))
        → m db ≡ r
        → (elim r [ ok x ↦ ok x | err e ↦ if is_unique_violation e then k db else err e ])
          ≡ ok (a, db')
        → (m db ≡ ok (a, db')) ⊎ (k db ≡ ok (a, db'))
    at (ok x) e g = inl (e ∙ g)
    at (err x) e g = elim (Bool-cases (is_unique_violation x)) [
      | inl f ↦ inr (rw f at g)
      | inr f ↦ (let q = (rw f at g) in absurd (cc))
    ]
