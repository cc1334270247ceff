-- ===== src/Outwards/Replay.antt =====
-- outward_replay: who may see a stored Outward again, and with which payload.
use fresko_universe.Access.{
  PermissionType, assert_can_prepare_outward, is_supplier, is_view, is_own_view,
  evidence_has_permission, outward_has_permission, preparer_of,
}
use fresko_universe.Data.{OutwardFacts, Outward, Evidence, Session, Digests}
use fresko_universe.Db.{
  throw_if-pass, pass, throw_if, ◌then_check◌, outward_key, evidence_key, Db, ok, err, Error,
}
use fresko_universe.Outwards.{
  assert_evidence_container, draft_outward, outward_of_event, outward_replay,
}
use fresko_universe.Outwards.Inserted.{with_outward}
use fresko_universe.Prelude.{
  ℕ, ◌≡◌, refl, sym, ap, ◌∙◌, inl, inr, Bool, true, false, ◌&&◌, ◌||◌, not, Option, none, some,
  arith, ◌==◌, if◌then◌else◌, is_set, ◌=?◌, ==-eq, ==-refl, not-false, Bool-cases, find, find-put,
}

-- No supplier may see an Evidence.
pub evidence_seen :
    (s : Session) (evidence container : ℕ) (db : Db)
    → assert_evidence_container s evidence container db ≡ pass
    → evidence_has_permission s evidence PermissionType.read db ≡ true
unfolding assert_evidence_container
evidence_seen s evidence container db seen = at (find evidence_key evidence db.evidences) seen
  where
    at :
        (x : Option Evidence)
        → (elim x [
          | none ↦ err Error.evidence_missing
          | some e ↦
              throw_if
                (not (evidence_has_permission s evidence PermissionType.read db))
                Error.evidence_denied
              then_check throw_if (not (is_set e.container)) Error.evidence_unscoped
              then_check throw_if
                  (not (e.container =? some container))
                  Error.evidence_other_container
        ])
          ≡ pass
        → evidence_has_permission s evidence PermissionType.read db ≡ true
    at none h = absurd (cc)
    at (some e) h = elim (Bool-cases (evidence_has_permission s evidence PermissionType.read db)) [
      | inl f ↦ f
      | inr f ↦ (let k = (rw f at h) in absurd (cc))
    ]

pub not_supplier :
    (s : Session) (n : ℕ) (ptype : PermissionType) (db : Db)
    → evidence_has_permission s n ptype db ≡ true
    → is_supplier s ≡ false
unfolding evidence_has_permission
not_supplier s n ptype db h = elim (Bool-cases (is_supplier s)) [
  | inl e ↦ (let k = (rw (e, evidence_has_permission) at h) in absurd (cc))
  | inr e ↦ e
]

-- The Draft may be read by who prepared it.
pub may_read :
    (s : Session)
    → assert_can_prepare_outward s ≡ pass
    → is_supplier s ≡ false
    → outward_has_permission s (some s.user) false PermissionType.read ≡ true
unfolding assert_can_prepare_outward outward_has_permission is_view is_own_view
may_read s gate e =
    let roles : (s.system_manager || s.salesperson || s.approver) ≡ true =
      not-false _ (throw_if-pass _ Error.permission_denied gate) in
    rw e (
      reads_own s.administrator s.system_manager s.approver s.accounts s.salesperson
        (s.user == s.user) roles (==-refl s.user))
  where
    reads_own :
        (a m p c l u : Bool)
        → (m || l || p) ≡ true
        → u ≡ true
        → (if a || m then true else if p || c then true else l && u && true) ≡ true
    reads_own a m p c l u h k = ground arith

-- The replay of a stored Outward by who prepared it.
pub replay_of_found :
    (s : Session) (n payload : ℕ) (o : Outward) (before : Db)
    → find outward_key n before.outwards ≡ some o
    → outward_has_permission s (some o.prepared_by) false PermissionType.read ≡ true
    → (o.payload_sha256 == payload) ≡ true
    → outward_replay s n payload before ≡ ok o
unfolding outward_replay preparer_of
replay_of_found s n payload o before found may same =
    let prepared : preparer_of n before ≡ some o.prepared_by = rw (found, preparer_of) refl in
    rw (prepared, may, found, same) refl

pub replay_of_new :
    (g : Digests) (s : Session) (event : ℕ) (facts : OutwardFacts) (db : Db)
    → outward_has_permission s (some s.user) false PermissionType.read ≡ true
    → outward_replay s
        (draft_outward g s event facts db.next_name).name
        (g.outward_payload facts)
        (with_outward (draft_outward g s event facts db.next_name) db)
      ≡ ok (draft_outward g s event facts db.next_name)
unfolding draft_outward
replay_of_new g s event facts db may =
    replay_of_found s db.next_name (g.outward_payload facts)
      (draft_outward g s event facts db.next_name)
      (with_outward (draft_outward g s event facts db.next_name) db) (rw find-put (rw ==-refl refl))
      may (==-refl (g.outward_payload facts))

-- The request found the Outward of its source event, which its snapshot has as the answer with
-- that payload, and wrote nothing.
pub record IsReplay (event payload : ℕ) (o : Outward) (before db db' : Db) : Type 0 where
  pub row : Outward
  pub of_event : outward_of_event event db ≡ some row
  pub seen : find outward_key row.name before.outwards ≡ some o
  pub payload_is : o.payload_sha256 ≡ payload
  pub same : db ≡ db'

-- What is replayed is a row of the snapshot, with the payload of the request.
replay_of_row :
    (x : Option Outward) (payload : ℕ) (o : Outward)
    → (elim x [
      | none ↦ err Error.not_found
      | some o ↦ if o.payload_sha256 == payload then ok o else err Error.payload_conflict
    ])
      ≡ ok o
    → (x ≡ some o) × (o.payload_sha256 ≡ payload)
replay_of_row none payload o h = absurd (cc)
replay_of_row (some x) payload o h = elim (Bool-cases (x.payload_sha256 == payload)) [
  | inr e ↦ (let k = (rw e at h) in absurd (cc))
  | inl e ↦
      let k = (rw e at h) in
      let is : x ≡ o = cc in
      (
        ap some is,
        ap (λ (y : Outward). y.payload_sha256) (sym is) ∙ ==-eq x.payload_sha256 payload e,
      )
]

pub outward_replay-IsReplay :
    (s : Session) (event payload : ℕ) (x o : Outward) (before db db' : Db)
    → outward_of_event event db ≡ some x
    → outward_replay s x.name payload before ≡ ok o
    → db ≡ db'
    → IsReplay event payload o before db db'
unfolding outward_replay
outward_replay-IsReplay s event payload x o before db db' found h same =
    elim (Bool-cases
      (outward_has_permission s (preparer_of x.name before) false PermissionType.read)) [
        | inr e ↦ (let k = (rw (e, outward_replay) at h) in absurd (cc))
        | inl e ↦
            let (row, digest) =
              replay_of_row (find outward_key x.name before.outwards) payload o
                (rw (e, outward_replay) at h) in
            record { row = x; of_event = found; seen = row; payload_is = digest; same = same }
      ]
