-- ===== src/DealDoc/Keys.antt =====
-- What the idempotency keys of a Deal are checked for.
use fresko_universe.Data.{Deal}
use fresko_universe.Db.{
  Check, pass, throw_if, ◌then_check◌, throw_if-pass, then_check-pass, Db, ok, err, Error,
}
use fresko_universe.DealDoc.{
  key_changed, message_taken, fingerprint_taken, old_message, old_fingerprint,
  validate_idempotency_keys,
}
use fresko_universe.Prelude.{
  ◌≡◌, refl, Bool, true, false, ◌&&◌, Option, none, some, arith, ◌↔◌, ◌==◌, Ref, is_set, ==-eq,
  ==-refl, not-false,
}

-- A key that is set is the stored one, if that was set, and no other Deal has it.
abbrev pub KeyFree : Ref → Ref → Bool → Type 0
KeyFree none old taken = Unit {0}
KeyFree (some k) none taken = taken ≡ false
KeyFree (some k) (some o) taken = (k ≡ o) × (taken ≡ false)

key-Free :
    (new old : Ref) (taken : Bool) (e f : Error)
    → ((throw_if (is_set new && key_changed old new) e then_check throw_if (is_set new && taken) f)
        ≡ pass)
      ↔ KeyFree new old taken
unfolding key_changed
key-Free none old taken e f = (λ h. tt, λ h. refl)
key-Free (some k) none taken e f = (λ h. throw_if-pass taken f h, λ h. rw h refl)
key-Free (some k) (some o) taken e f = (
  λ h.
      let (a, b) = then_check-pass _ (throw_if taken f) h in
      (==-eq k o (not-false (k == o) (only_left _ (throw_if-pass _ e a))), throw_if-pass taken f b),
  λ (a, b). rw (b, a, ==-refl o) refl,
)
  where
    only_left : (a : Bool) → (a && true) ≡ false → a ≡ false
    only_left a h = ground arith

two_pairs :
    (a b c d : Check)
    → ((a then_check b then_check c then_check d) ≡ pass)
      ↔ (((a then_check b) ≡ pass) × ((c then_check d) ≡ pass))
two_pairs (ok u) (ok v) c d = (λ h. (refl, h), λ h. h.1)
two_pairs (ok u) (err e) c d = (λ h. absurd (cc), λ h. absurd (cc))
two_pairs (err e) b c d = (λ h. absurd (cc), λ h. absurd (cc))

-- The keys of a stored Deal pass exactly where each of the two, if it is set, is the stored one
-- unless none was stored, and is not another Deal's. A key that is cleared always passes.
pub validate_idempotency_keys_iff :
    (db : Db) (old d : Deal)
    → (validate_idempotency_keys db (some old) d ≡ pass) ↔ (
        KeyFree d.source_message_id old.source_message_id (message_taken db d)
        × KeyFree d.duplicate_fingerprint old.duplicate_fingerprint (fingerprint_taken db d))
unfolding validate_idempotency_keys old_message old_fingerprint
validate_idempotency_keys_iff db old d =
    let m =
      key-Free d.source_message_id old.source_message_id (message_taken db d)
        Error.message_id_changed Error.duplicate_message in
    let f =
      key-Free d.duplicate_fingerprint old.duplicate_fingerprint (fingerprint_taken db d)
        Error.fingerprint_changed Error.duplicate_fingerprint in
    let p =
      two_pairs
        (throw_if
          (is_set d.source_message_id && key_changed old.source_message_id d.source_message_id)
          Error.message_id_changed)
        (throw_if (is_set d.source_message_id && message_taken db d) Error.duplicate_message)
        (throw_if
          (is_set d.duplicate_fingerprint
            && key_changed old.duplicate_fingerprint d.duplicate_fingerprint)
          Error.fingerprint_changed)
        (throw_if (is_set d.duplicate_fingerprint && fingerprint_taken db d)
          Error.duplicate_fingerprint) in
    (λ h. let (a, b) = p.0 h in (m.0 a, f.0 b), λ (a, b). p.1 (m.1 a, f.1 b))

only_if_set : (a b : Bool) (e : Error) → throw_if (a && b) e ≡ pass → a ≡ true → b ≡ false
only_if_set a b e h s = (let g = (throw_if-pass (a && b) e h) in rw s at g)

-- A key that is set and passes is not another Deal's.
pub keys-pass :
    (db : Db) (old : Option Deal) (d : Deal)
    → validate_idempotency_keys db old d ≡ pass
    → (is_set d.source_message_id ≡ true → message_taken db d ≡ false)
      × (is_set d.duplicate_fingerprint ≡ true → fingerprint_taken db d ≡ false)
unfolding validate_idempotency_keys
keys-pass db old d h =
    let (h3, fingerprint) =
      then_check-pass _
        (throw_if (is_set d.duplicate_fingerprint && fingerprint_taken db d)
          Error.duplicate_fingerprint)
        h in
    let (h2, changed) =
      then_check-pass _
        (throw_if
          (is_set d.duplicate_fingerprint
            && key_changed (old_fingerprint old d) d.duplicate_fingerprint)
          Error.fingerprint_changed)
        h3 in
    let (first, message) =
      then_check-pass _
        (throw_if (is_set d.source_message_id && message_taken db d) Error.duplicate_message) h2 in
    (
      only_if_set (is_set d.source_message_id) (message_taken db d) Error.duplicate_message message,
      only_if_set (is_set d.duplicate_fingerprint) (fingerprint_taken db d)
          Error.duplicate_fingerprint fingerprint,
    )
