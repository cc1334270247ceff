-- ===== src/Prelude/SoleRows.antt =====
-- A table of which at most one row of a scope is on, and how a write keeps it so.
use Prim.Native.Nat.{ℕ}
use mathlib.Core.Path.{◌≡◌, sym, ◌∙◌, subst}
use mathlib.Core.Logic.{inl, inr}
use mathlib.Core.Bool.{Bool, true, false, ◌&&◌, not}
use mathlib.Core.Option.{some}
use mathlib.Core.List.{List}
use fresko_universe.Prelude.Tests.{◌==◌, ==-eq, not-false}
use fresko_universe.Prelude.Rows.{any, keep, find, put, find-key, any-find, any-keep, find_written}

module _ {A : Type 0} (name : A → ℕ) (on : A → Bool) (Same : A → A → Type 0) where
  -- Two rows that are on, of one scope, are the same row.
  abbrev pub Sole : List A → Type 0
  Sole rows =
      (m n : ℕ) (x y : A)
      → find name m rows ≡ some x
      → find name n rows ≡ some y
      → on x ≡ true
      → on y ≡ true
      → Same x y
      → m ≡ n

  -- No row of the scope is on.
  abbrev pub NoneOn : A → List A → Type 0
  NoneOn a rows = (n : ℕ) (y : A) → find name n rows ≡ some y → on y ≡ true → Same y a → ⊥

  -- Writing a row that is off.
  pub put_off-Sole : (a : A) (rows : List A) → on a ≡ false → Sole rows → Sole (put name a rows)
  put_off-Sole a rows off sole m n x y f g p q same = elim (find_written name a x rows m f) [
    | inl (_, e) ↦ absurd (clash x e p)
    | inr (_, f') ↦ elim (find_written name a y rows n g) [
      | inl (_, e) ↦ absurd (clash y e q)
      | inr (_, g') ↦ sole m n x y f' g' p q same
    ]
  ]
    where
      clash : (z : A) → a ≡ z → on z ≡ true → ⊥
      clash z e h = (let k = (subst (λ w. on w ≡ true) (sym e) h) in cc)

  -- Writing a row of whose scope no other is on.
  pub put_on-Sole :
      (a : A) (rows : List A)
      → ((x y : A) → Same x y → Same y x)
      → NoneOn a rows
      → Sole rows
      → Sole (put name a rows)
  put_on-Sole a rows swap alone sole m n x y f g p q same = elim (find_written name a x rows m f) [
    | inl (i, e) ↦ elim (find_written name a y rows n g) [
      | inl (j, _) ↦ i ∙ sym j
      | inr (_, g') ↦ absurd (alone n y g' q (subst (Same y) (sym e) (swap x y same)))
    ]
    | inr (_, f') ↦ elim (find_written name a y rows n g) [
      | inl (_, e) ↦ absurd (alone m x f' p (subst (Same x) (sym e) same))
      | inr (_, g') ↦ sole m n x y f' g' p q same
    ]
  ]

module _ {A : Type 0} (name : A → ℕ) (on : A → Bool) (Same : A → A → Type 0) (scoped : A → A → Bool)
    (law : (x y : A) → Same x y → scoped x y ≡ true) where
  -- Where no row of the scope that is on passes a test, none that is found does.
  pub none_passes :
      (a : A) (q : A → Bool) (rows : List A) (n : ℕ) (y : A)
      → any q (keep (λ x. scoped x a && on x) rows) ≡ false
      → find name n rows ≡ some y
      → on y ≡ true
      → Same y a
      → q y ≡ false
  none_passes a q rows n y h f p same =
      let e : ((scoped y a && on y) && q y) ≡ false =
        any-find name (λ x. (scoped x a && on x) && q x) rows n y
          (sym (any-keep (λ x. scoped x a && on x) q rows) ∙ h) f in
      rw (law y a same, p) at e

  -- The scope has one row that is on at most, and that is written as off.
  pub put_off-NoneOn :
      (a prior saved : A) (rows : List A)
      → any (λ x. not (name x == name prior)) (keep (λ x. scoped x a && on x) rows) ≡ false
      → name saved ≡ name prior
      → on saved ≡ false
      → NoneOn name on Same a (put name saved rows)
  put_off-NoneOn a prior saved rows others named off n y f p same =
      elim (find_written name saved y rows n f) [
        | inl (_, e) ↦ (let k = subst (λ z. on z ≡ false) e off in absurd (cc))
        | inr (other, g) ↦
            let e =
              not-false _
                (none_passes a (λ x. not (name x == name prior)) rows n y others g p same) in
            other (sym (find-key name n rows y g) ∙ ==-eq (name y) (name prior) e ∙ sym named)
      ]
