-- ===== src/Prelude/UniqueKeys.antt =====
-- A key that no two rows of a table share, and how a write keeps it so.
use Prim.Native.Nat.{ℕ}
use mathlib.Core.Path.{◌≡◌, sym, ap, ◌∙◌, subst}
use mathlib.Core.Logic.{inl, inr}
use mathlib.Core.Bool.{true, false, ◌&&◌, not}
use mathlib.Core.Option.{some}
use mathlib.Core.List.{List}
use fresko_universe.Prelude.Tests.{◌==◌, Ref, is_set, ◌=?◌, ==-eq, not-false, =?-refl}
use fresko_universe.Prelude.Rows.{any, find, put, find-key, any-find, find_written}

-- No two rows, found by their names, have the same value of the key, where it is set.
abbrev pub Unshared : {A : Type 0} → (A → ℕ) → (A → Ref) → List A → Type 0
Unshared {A} name key ds =
    (a b : ℕ) (x y : A)
    → find name a ds ≡ some x
    → find name b ds ≡ some y
    → is_set (key x) ≡ true
    → key x ≡ key y
    → a ≡ b

-- No row of another name has the value that the key has in this one, where it is set.
abbrev pub NoneElsewhere : {A : Type 0} → (A → ℕ) → (A → Ref) → A → List A → Type 0
NoneElsewhere {A} name key x ds =
    is_set (key x) ≡ true → (n : ℕ) (y : A) → find name n ds ≡ some y → key x ≡ key y → n ≡ name x

module _ {A : Type 0} (name : A → ℕ) (key : A → Ref) where
  pub put-Unshared :
      (x : A) (ds : List A)
      → NoneElsewhere name key x ds
      → Unshared name key ds
      → Unshared name key (put name x ds)
  put-Unshared x ds alone u a b y z f g s e = elim (find_written name x y ds a f) [
    | inl (p, q) ↦ elim (find_written name x z ds b g) [
      | inl (p', q') ↦ p ∙ sym p'
      | inr (_, k) ↦
          p ∙ sym (alone (subst (λ (d : A). is_set (key d) ≡ true) (sym q) s) b z k (ap key q ∙ e))
    ]
    | inr (_, k) ↦ elim (find_written name x z ds b g) [
      | inl (p', q') ↦
          alone (subst (λ o. is_set o ≡ true) (e ∙ ap key (sym q')) s) a y k (ap key q' ∙ sym e)
          ∙ sym p'
      | inr (_, l) ↦ u a b y z k l s e
    ]
  ]

  -- A row that is not taken by the test of the code is nowhere else.
  pub untaken-NoneElsewhere :
      (x : A) (ds : List A)
      → (is_set (key x) ≡ true → any (λ o. key o =? key x && not (name o == name x)) ds ≡ false)
      → NoneElsewhere name key x ds
  untaken-NoneElsewhere x ds untaken s n y f e =
      let t = any-find name (λ o. key o =? key x && not (name o == name x)) ds n y (untaken s) f in
      let named = (rw (e, =?-refl (key y)) at t) in
      sym (find-key name n ds y f) ∙ ==-eq (name y) (name x) (not-false (name y == name x) named)

  -- A row that keeps the key of the stored one is nowhere else if no two shared it.
  pub kept-NoneElsewhere :
      (x old : A) (ds : List A)
      → Unshared name key ds
      → find name (name x) ds ≡ some old
      → key x ≡ key old
      → NoneElsewhere name key x ds
  kept-NoneElsewhere x old ds u f k s n y g e =
      sym (u (name x) n old y f g (subst (λ o. is_set o ≡ true) k s) (sym k ∙ e))
