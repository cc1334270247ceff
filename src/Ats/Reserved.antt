-- ===== src/Ats/Reserved.antt =====
-- The reserved quantity when one Deal is written.
use fresko_universe.Prelude.{
  ℕ, ◌≡◌, refl, true, false, Option, none, some, inl, inr, List, [], ◌∷◌, ◌==◌, find, put,
  NamesDiffer, Bool-cases, ==-eq, subst,
}
use fresko_universe.Prelude.Int.{◌+ℤ◌, int_laws}
use fresko_universe.Data.{Deal}
use fresko_universe.Db.{deal_key}
use fresko_universe.Ats.{reserved_qty, reserved_by, counts}

module _ (container : ℕ) (lot : Option ℕ) where
  reserved_none :
      (d : Deal) (ds : List Deal)
      → reserved_qty container lot none (d ∷ ds)
        ≡ reserved_by container lot d +ℤ reserved_qty container lot none ds
  unfolding reserved_qty reserved_by
  reserved_none d ds = elim (Bool-cases (counts container lot d)) [
    | inl e ↦ rw e refl
    | inr e ↦ rw e refl
  ]

  reserved_skip :
      (n : ℕ) (d : Deal) (ds : List Deal)
      → (d.name == n) ≡ true
      → reserved_qty container lot (some n) (d ∷ ds) ≡ reserved_qty container lot (some n) ds
  unfolding reserved_qty
  reserved_skip n d ds e = elim (Bool-cases (counts container lot d)) [
    | inl c ↦ rw (c, e) (omega int_laws)
    | inr c ↦ rw c (omega int_laws)
  ]

  reserved_other :
      (n : ℕ) (d : Deal) (ds : List Deal)
      → (d.name == n) ≡ false
      → reserved_qty container lot (some n) (d ∷ ds)
        ≡ reserved_by container lot d +ℤ reserved_qty container lot (some n) ds
  unfolding reserved_qty reserved_by
  reserved_other n d ds e = elim (Bool-cases (counts container lot d)) [
    | inl c ↦ rw (c, e) refl
    | inr c ↦ rw c refl
  ]

  reserved_absent :
      (n : ℕ) (ds : List Deal)
      → find deal_key n ds ≡ none
      → reserved_qty container lot (some n) ds ≡ reserved_qty container lot none ds
  unfolding find
  reserved_absent n [] h = unfold reserved_qty in refl
  reserved_absent n (d ∷ ds) h = elim (Bool-cases (d.name == n)) [
    | inl e ↦ absurd (cc (rw e at h))
    | inr e ↦
        rw (reserved_other n d ds e) (rw reserved_none (rw (reserved_absent n ds (rw e at h)) refl))
  ]

  -- Writing a Deal makes the reserved quantity of a lot, or of the Container, what the other
  -- Deals reserve and what this one does (Deal names being distinct).
  pub reserved_qty-put :
      (d : Deal) (ds : List Deal)
      → NamesDiffer deal_key ds
      → reserved_qty container lot none (put deal_key d ds)
        ≡ reserved_qty container lot (some d.name) ds +ℤ reserved_by container lot d
  unfolding put
  reserved_qty-put d [] h = rw reserved_none (unfold reserved_qty in omega int_laws)
  reserved_qty-put d (x ∷ xs) h = elim (Bool-cases (x.name == d.name)) [
    | inl e ↦ rw e (
        rw reserved_none (
          rw (reserved_skip d.name x xs e) (
            rw
              (reserved_absent d.name xs
                (subst (λ k. find deal_key k xs ≡ none) (==-eq x.name d.name e) h.0))
              (omega int_laws))))
    | inr e ↦ rw e (
        rw reserved_none
          (rw (reserved_qty-put d xs h.1) (rw (reserved_other d.name x xs e) (omega int_laws))))
  ]

  -- Without the Deal, or with what it reserves.
  pub reserved_qty-exclude :
      (d : Deal) (ds : List Deal)
      → NamesDiffer deal_key ds
      → find deal_key d.name ds ≡ some d
      → reserved_qty container lot none ds
        ≡ reserved_qty container lot (some d.name) ds +ℤ reserved_by container lot d
  unfolding find
  reserved_qty-exclude d [] h f = cc
  reserved_qty-exclude d (x ∷ xs) h f = elim (Bool-cases (x.name == d.name)) [
    | inl e ↦ rw reserved_none (
        rw (reserved_skip d.name x xs e) (
          rw
            (reserved_absent d.name xs
              (subst (λ k. find deal_key k xs ≡ none) (==-eq x.name d.name e) h.0))
            (let q : x ≡ d = (let g = (rw e at f) in cc) in rw q (omega int_laws))))
    | inr e ↦ rw reserved_none (
        rw (reserved_other d.name x xs e)
          (rw (reserved_qty-exclude d xs h.1 (rw e at f)) (omega int_laws)))
  ]
