-- ===== src/Policy.antt =====
-- constants.py: which status may follow which, and which statuses and fields a rule is about.
pub mod StatusPath
use fresko_universe.Prelude.{Bool, true, false, List, [], ◌∷◌, any}
use fresko_universe.Data.{DealStatus, is_status, ContainerStatus, is_container_status, FieldName}

-- DEAL_TRANSITIONS
unfoldable pub deal_transitions : DealStatus → List DealStatus
deal_transitions DealStatus.proposed =
    DealStatus.auto_approved ∷ DealStatus.approval_required ∷ DealStatus.cancelled ∷ []
deal_transitions DealStatus.approval_required =
    DealStatus.approved ∷ DealStatus.countered ∷ DealStatus.rejected ∷ DealStatus.cancelled ∷ []
deal_transitions DealStatus.auto_approved =
    DealStatus.outward_pending ∷ DealStatus.cancelled ∷ DealStatus.disputed ∷ []
deal_transitions DealStatus.approved =
    DealStatus.outward_pending ∷ DealStatus.cancelled ∷ DealStatus.disputed ∷ []
deal_transitions DealStatus.countered = DealStatus.approved ∷ DealStatus.cancelled ∷ []
deal_transitions DealStatus.rejected = DealStatus.cancelled ∷ []
deal_transitions DealStatus.outward_pending =
    DealStatus.dispatched ∷ DealStatus.partially_dispatched ∷ DealStatus.cancelled
    ∷ DealStatus.disputed ∷ []
deal_transitions DealStatus.dispatched = DealStatus.payment_pending ∷ DealStatus.disputed ∷ []
deal_transitions DealStatus.partially_dispatched =
    DealStatus.dispatched ∷ DealStatus.payment_pending ∷ DealStatus.cancelled ∷ DealStatus.disputed
    ∷ []
deal_transitions DealStatus.payment_pending =
    DealStatus.paid ∷ DealStatus.partially_paid ∷ DealStatus.disputed ∷ DealStatus.cancelled ∷ []
deal_transitions DealStatus.paid = DealStatus.reconciled ∷ DealStatus.disputed ∷ []
deal_transitions DealStatus.partially_paid =
    DealStatus.paid ∷ DealStatus.reconciled ∷ DealStatus.disputed ∷ []
deal_transitions DealStatus.reconciled = []
deal_transitions DealStatus.cancelled = []
deal_transitions DealStatus.disputed =
    DealStatus.outward_pending ∷ DealStatus.payment_pending ∷ DealStatus.cancelled ∷ []

-- `new in DEAL_TRANSITIONS.get(old, set())`
unfoldable pub may_follow : DealStatus → DealStatus → Bool
unfolding deal_transitions any
may_follow old new = any (is_status new) (deal_transitions old)

-- ATS_REDUCING_STATUSES
unfoldable pub reduces_ats : DealStatus → Bool
reduces_ats DealStatus.proposed = false
reduces_ats DealStatus.approval_required = false
reduces_ats DealStatus.countered = false
reduces_ats DealStatus.rejected = false
reduces_ats _ = true

-- COMMERCIAL_LOCK_STATUSES
unfoldable pub commercially_locked : DealStatus → Bool
commercially_locked DealStatus.proposed = false
commercially_locked _ = true

-- CONTAINER_STATUS_TRANSITIONS
unfoldable pub container_transitions : ContainerStatus → List ContainerStatus
container_transitions ContainerStatus.draft =
    ContainerStatus.expected ∷ ContainerStatus.arrived ∷ ContainerStatus.cancelled ∷ []
container_transitions ContainerStatus.expected =
    ContainerStatus.arrived ∷ ContainerStatus.cancelled ∷ []
container_transitions ContainerStatus.arrived =
    ContainerStatus.in_cold_storage ∷ ContainerStatus.selling ∷ ContainerStatus.cancelled ∷ []
container_transitions ContainerStatus.in_cold_storage =
    ContainerStatus.selling ∷ ContainerStatus.closing ∷ ContainerStatus.cancelled ∷ []
container_transitions ContainerStatus.selling =
    ContainerStatus.closing ∷ ContainerStatus.cancelled ∷ []
container_transitions ContainerStatus.closing =
    ContainerStatus.closed ∷ ContainerStatus.selling ∷ []
container_transitions ContainerStatus.closed = []
container_transitions ContainerStatus.cancelled = []

unfoldable pub container_may_follow : ContainerStatus → ContainerStatus → Bool
unfolding container_transitions any
container_may_follow old new = any (is_container_status new) (container_transitions old)

-- REVISION_ELIGIBLE_FIELDS
unfoldable pub revision_eligible : FieldName → Bool
revision_eligible FieldName.ineligible = false
revision_eligible _ = true

-- MATERIAL_REVISION_FIELDS
unfoldable pub is_material_field : FieldName → Bool
is_material_field FieldName.item = false
is_material_field FieldName.count_size = false
is_material_field FieldName.ineligible = false
is_material_field _ = true
