-- ===== src/CloseGate/Harmless.antt =====
-- exception_is_material: the types and severities that keep a Container open, by name.
use fresko_universe.CloseGate.{
  close_exception_policy, is_material_type, is_material_severity, exception_is_material,
}
use fresko_universe.Data.{Severity, ExceptionType}
use fresko_universe.Prelude.{◌≡◌, refl, ◌≢◌, ◌⊎◌, inl, inr, Bool, true, false, ◌↔◌, if◌then◌else◌}

-- The types that CLOSE_EXCEPTION_POLICY leaves to the severity.
abbrev pub GoesBySeverity : ExceptionType → Type 0
GoesBySeverity kind =
    (kind ≡ ExceptionType.other)
    ⊎ (kind ≡ ExceptionType.idempotency_payload_conflict)
    ⊎ (kind ≡ ExceptionType.concurrent_state_conflict)

-- An Exception that does not keep a Container open.
abbrev pub Harmless : ExceptionType → Severity → Type 0
Harmless kind severity =
    GoesBySeverity kind × (severity ≢ Severity.material) × (severity ≢ Severity.critical)

type-Harmless : (kind : ExceptionType) → is_material_type kind ≡ false → GoesBySeverity kind
unfolding is_material_type close_exception_policy
type-Harmless ExceptionType.other h = inl refl
type-Harmless ExceptionType.idempotency_payload_conflict h = inr (inl refl)
type-Harmless ExceptionType.concurrent_state_conflict h = inr (inr refl)
type-Harmless _ h = absurd (cc)

Harmless-is_material_type :
    (kind : ExceptionType) → GoesBySeverity kind → is_material_type kind ≡ false
unfolding is_material_type close_exception_policy
Harmless-is_material_type kind (inl e) = rw e refl
Harmless-is_material_type kind (inr (inl e)) = rw e refl
Harmless-is_material_type kind (inr (inr e)) = rw e refl

severity-Harmless :
    (severity : Severity)
    → is_material_severity severity ≡ false
    → (severity ≢ Severity.material) × (severity ≢ Severity.critical)
unfolding is_material_severity
severity-Harmless Severity.material h = absurd (cc)
severity-Harmless Severity.critical h = absurd (cc)
severity-Harmless _ h = ((λ e. absurd (cc)), (λ e. absurd (cc)))

Harmless-is_material_severity :
    (severity : Severity)
    → severity ≢ Severity.material
    → severity ≢ Severity.critical
    → is_material_severity severity ≡ false
unfolding is_material_severity
Harmless-is_material_severity Severity.material h k = absurd (h refl)
Harmless-is_material_severity Severity.critical h k = absurd (k refl)
Harmless-is_material_severity _ h k = refl

-- An Exception is not material exactly where its type is OTHER, IDEMPOTENCY_PAYLOAD_CONFLICT or
-- CONCURRENT_STATE_CONFLICT, and its severity is neither Material nor Critical.
pub exception_is_material-false :
    (kind : ExceptionType) (severity : Severity)
    → (exception_is_material kind severity ≡ false) ↔ Harmless kind severity
unfolding exception_is_material
exception_is_material-false kind severity = (
  λ h.
      let (kind_off, severity_off) =
        both_off (is_material_type kind) (is_material_severity severity) h in
      let (material, critical) = severity-Harmless severity severity_off in
      (type-Harmless kind kind_off, material, critical),
  λ h. rw (Harmless-is_material_type kind h.0) (Harmless-is_material_severity severity h.1 h.2),
)
  where
    both_off : (a b : Bool) → (if a then true else b) ≡ false → (a ≡ false) × (b ≡ false)
    both_off true b h = absurd (cc)
    both_off false b h = (refl, h)
