-- ===== src/Domain/Types.antt =====
-- The JSON objects of sidecar/src/mempalace_tasks/domain.py and native.py as records, with the
-- source's field names. A field that may be null or absent is an option. `opened` is the status
-- "open". A task's `native` is its "native" object, and it is there exactly if the coordination
-- mode is cooperative_native.
use copilot_mempalace.Prelude.{ℕ, true, ◌≡◌, ◌↔◌, nat_beq, arith, Eq}

pub data Kind : Type 0 where
  task epic : Kind

pub data ExecutionClass : Type 0 where
  isolated resource_fenced shared_unfenced : ExecutionClass

pub data Role : Type 0 where
  operator coordinator supervisor worker system : Role

pub data Status : Type 0 where
  opened in_progress recovering quarantined closed cancelled : Status

pub data EdgeType : Type 0 where
  blocks parent_child related discovered_from duplicates supersedes : EdgeType

pub data AttemptStatus : Type 0 where
  preparing running settled revoked completed : AttemptStatus

pub data Disposition : Type 0 where
  requeue release cancel : Disposition

pub data EscalationCode : Type 0 where
  recovery_required permanent_failure retry_budget_exhausted : EscalationCode

-- Equality of the enumerations, by their places in the lists above.
abbrev kind_place : Kind → ℕ
kind_place Kind.task = 0
kind_place Kind.epic = 1

abbrev class_place : ExecutionClass → ℕ
class_place ExecutionClass.isolated = 0
class_place ExecutionClass.resource_fenced = 1
class_place ExecutionClass.shared_unfenced = 2

abbrev role_place : Role → ℕ
role_place Role.operator = 0
role_place Role.coordinator = 1
role_place Role.supervisor = 2
role_place Role.worker = 3
role_place Role.system = 4

abbrev status_place : Status → ℕ
status_place Status.opened = 0
status_place Status.in_progress = 1
status_place Status.recovering = 2
status_place Status.quarantined = 3
status_place Status.closed = 4
status_place Status.cancelled = 5

abbrev edge_type_place : EdgeType → ℕ
edge_type_place EdgeType.blocks = 0
edge_type_place EdgeType.parent_child = 1
edge_type_place EdgeType.related = 2
edge_type_place EdgeType.discovered_from = 3
edge_type_place EdgeType.duplicates = 4
edge_type_place EdgeType.supersedes = 5

abbrev attempt_status_place : AttemptStatus → ℕ
attempt_status_place AttemptStatus.preparing = 0
attempt_status_place AttemptStatus.running = 1
attempt_status_place AttemptStatus.settled = 2
attempt_status_place AttemptStatus.revoked = 3
attempt_status_place AttemptStatus.completed = 4

pub kind_beq_iff : (a b : Kind) → (nat_beq (kind_place a) (kind_place b) ≡ true) ↔ (a ≡ b)
kind_beq_iff a b = ground arith

pub class_beq_iff :
    (a b : ExecutionClass) → (nat_beq (class_place a) (class_place b) ≡ true) ↔ (a ≡ b)
class_beq_iff a b = ground arith

pub role_beq_iff : (a b : Role) → (nat_beq (role_place a) (role_place b) ≡ true) ↔ (a ≡ b)
role_beq_iff a b = ground arith

pub status_beq_iff : (a b : Status) → (nat_beq (status_place a) (status_place b) ≡ true) ↔ (a ≡ b)
status_beq_iff a b = ground arith

pub edge_type_beq_iff :
    (a b : EdgeType) → (nat_beq (edge_type_place a) (edge_type_place b) ≡ true) ↔ (a ≡ b)
edge_type_beq_iff a b = ground arith

pub attempt_status_beq_iff :
    (a b : AttemptStatus)
    → (nat_beq (attempt_status_place a) (attempt_status_place b) ≡ true) ↔ (a ≡ b)
attempt_status_beq_iff a b = ground arith

instance abbrev pub kind_eq : Eq Kind
kind_eq = record { same = λ a b. nat_beq (kind_place a) (kind_place b); same_iff = kind_beq_iff }

instance abbrev pub class_eq : Eq ExecutionClass
class_eq = record {
  same = λ a b. nat_beq (class_place a) (class_place b);
  same_iff = class_beq_iff;
}

instance abbrev pub role_eq : Eq Role
role_eq = record { same = λ a b. nat_beq (role_place a) (role_place b); same_iff = role_beq_iff }

instance abbrev pub status_eq : Eq Status
status_eq = record {
  same = λ a b. nat_beq (status_place a) (status_place b);
  same_iff = status_beq_iff;
}

instance abbrev pub edge_type_eq : Eq EdgeType
edge_type_eq = record {
  same = λ a b. nat_beq (edge_type_place a) (edge_type_place b);
  same_iff = edge_type_beq_iff;
}

instance abbrev pub attempt_status_eq : Eq AttemptStatus
attempt_status_eq = record {
  same = λ a b. nat_beq (attempt_status_place a) (attempt_status_place b);
  same_iff = attempt_status_beq_iff;
}
