-- ===== src/Prelude/Rows.antt =====
-- A table: its rows in the order of insertion, each with a name that is its key.
use Prim.Native.Nat.{ℕ}
use mathlib.Core.Path.{◌≡◌, refl, sym, ◌∙◌}
use mathlib.Core.Logic.{◌⊎◌, ◌≢◌, inl, inr}
use mathlib.Core.Bool.{Bool, false, ◌||◌, ◌&&◌}
use mathlib.Core.Option.{Option, none, some}
use mathlib.Core.List.{List, [], ◌∷◌}
use native.Mathlib.Omega.{arith}
use fresko_universe.Prelude.Tests.{◌==◌, if◌then◌else◌, ==-eq, ==-refl, Bool-cases}

module _ {A : Type 0} where
  -- Some row passes the test.
  unfoldable pub any : (A → Bool) → List A → Bool
  any p [] = false
  any p (x ∷ xs) = p x || any p xs

  -- The first row that passes the test.
  unfoldable pub find_by : (A → Bool) → List A → Option A
  find_by p [] = none
  find_by p (x ∷ xs) = if p x then some x else find_by p xs

  unfoldable pub keep : (A → Bool) → List A → List A
  keep p [] = []
  keep p (x ∷ xs) = let rest = keep p xs in if p x then x ∷ rest else rest

-- The row is one of the list.
abbrev pub Among : {A : Type 0} → A → List A → Type 0
Among x [] = ⊥
Among x (y ∷ ys) = (y ≡ x) ⊎ Among x ys

pub any-Among :
    {A : Type 0} (p : A → Bool) (x : A) (xs : List A) → Among x xs → any p xs ≡ false → p x ≡ false
unfolding any
any-Among p x [] h e = absurd h
any-Among p x (y ∷ ys) (inl is) e = (let f = (rw is at e) in ground arith)
any-Among p x (y ∷ ys) (inr h) e = any-Among p x ys h (ground arith)

module _ {A : Type 0} (key : A → ℕ) where
  -- The row of that name.
  unfoldable pub find : ℕ → List A → Option A
  find n [] = none
  find n (x ∷ xs) = if key x == n then some x else find n xs

  -- The row takes the place of the one of its name, or comes last.
  unfoldable pub put : A → List A → List A
  put r [] = r ∷ []
  put r (x ∷ xs) = if key x == key r then r ∷ xs else x ∷ put r xs

  -- No two rows have one name.
  abbrev pub NamesDiffer : List A → Type 0
  NamesDiffer [] = Unit {0}
  NamesDiffer (x ∷ xs) = (find (key x) xs ≡ none) × NamesDiffer xs

  pub find-put :
      (n : ℕ) (r : A) (rows : List A)
      → find n (put r rows) ≡ (if key r == n then some r else find n rows)
  unfolding find put
  find-put n r [] = refl
  find-put n r (x ∷ xs) = ground (arith, find-put n r xs)

  pub put-NamesDiffer : (r : A) (rows : List A) → NamesDiffer rows → NamesDiffer (put r rows)
  unfolding find put
  put-NamesDiffer r [] h = (refl, tt)
  put-NamesDiffer r (x ∷ xs) h = ground (arith, put-NamesDiffer r xs, find-put (key x) r xs)

  pub find-key : (n : ℕ) (rows : List A) (r : A) → find n rows ≡ some r → key r ≡ n
  unfolding find
  find-key n [] r h = cc
  find-key n (x ∷ xs) r h = ground (arith, find-key n xs r)

  pub find-put_other :
      (n : ℕ) (r : A) (rows : List A) → n ≢ key r → find n (put r rows) ≡ find n rows
  find-put_other n r rows h = elim (Bool-cases (key r == n)) [
    | inl e ↦ absurd (h (sym (==-eq (key r) n e)))
    | inr e ↦ rw find-put (rw e refl)
  ]

  -- Writing a row that is there changes nothing.
  pub put-found : (r : A) (rows : List A) → find (key r) rows ≡ some r → put r rows ≡ rows
  unfolding find put
  put-found r [] h = cc
  put-found r (x ∷ xs) h = ground (arith, put-found r xs)

  -- No row that is found passes a test that no row passes.
  pub any-find :
      (p : A → Bool) (rows : List A) (n : ℕ) (x : A)
      → any p rows ≡ false
      → find n rows ≡ some x
      → p x ≡ false
  unfolding any find
  any-find p [] n x h f = absurd (cc)
  any-find p (y ∷ ys) n x h f = ground (arith, any-find p ys n x)

  -- A row that is found after a write is the one written, or was there under another name.
  pub find_written :
      (r y : A) (rows : List A) (n : ℕ)
      → find n (put r rows) ≡ some y
      → ((n ≡ key r) × (r ≡ y)) ⊎ ((n ≢ key r) × (find n rows ≡ some y))
  find_written r y rows n h =
      let g : (if key r == n then some r else find n rows) ≡ some y = sym (find-put n r rows) ∙ h in
      elim (Bool-cases (key r == n)) [
        | inl e ↦ let k = (rw e at g) in inl (sym (==-eq (key r) n e), (cc))
        | inr e ↦ inr (λ p. (let q = (rw (p, ==-refl) at e) in absurd (cc)), rw e at g)
      ]

-- A test of the rows that are kept is a test of all rows.
pub any-keep :
    {A : Type 0} (p q : A → Bool) (xs : List A) → any q (keep p xs) ≡ any (λ x. p x && q x) xs
unfolding any keep
any-keep p q [] = refl
any-keep p q (x ∷ xs) = elim (Bool-cases (p x)) [
  | inl e ↦ rw e (rw (any-keep p q xs) refl)
  | inr e ↦ rw e (any-keep p q xs)
]
