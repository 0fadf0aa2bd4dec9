-- ===== src/Models.antt =====
-- src/network_change_delivery/models.py: outcomes, stage results, observed interface state,
-- configuration artifacts and the results of the write adapters. Descriptions, host names and
-- identities are texts; a field that the modelled code neither tests nor copies is left out.
pub mod Description
pub mod Digest
use network_change_delivery.Base.{
  ℕ, String, ◌≡◌, ◌↔◌, Bool, false, true, ◌&&◌, Option, List, arith, Eq, ◌==◌, nat_beq,
  same_text_iff, string_eq, list_eq, list_beq_iff,
}

pub data FinalOutcome : Type 0 where
  compliant blocked stale_plan succeeded execution_failed ambiguous : FinalOutcome
  post_validation_failed recovered recovery_failed recovery_ambiguous : FinalOutcome
  auto_rollback_pending confirmation_failed confirmation_ambiguous : FinalOutcome

outcome_rank : FinalOutcome → ℕ
outcome_rank compliant = 0
outcome_rank blocked = 1
outcome_rank stale_plan = 2
outcome_rank succeeded = 3
outcome_rank execution_failed = 4
outcome_rank ambiguous = 5
outcome_rank post_validation_failed = 6
outcome_rank recovered = 7
outcome_rank recovery_failed = 8
outcome_rank recovery_ambiguous = 9
outcome_rank auto_rollback_pending = 10
outcome_rank confirmation_failed = 11
outcome_rank confirmation_ambiguous = 12

unfoldable pub outcome_beq : FinalOutcome → FinalOutcome → Bool
unfolding outcome_rank
outcome_beq a b = nat_beq (outcome_rank a) (outcome_rank b)

pub outcome_beq_iff : (a b : FinalOutcome) → (outcome_beq a b ≡ true) ↔ (a ≡ b)
unfolding outcome_beq
outcome_beq_iff a b = ground arith

instance abbrev pub outcome_eq : Eq FinalOutcome
outcome_eq = record { beq = outcome_beq; beq_iff = outcome_beq_iff }

pub data ExecutionDisposition : Type 0 where
  succeeded failed ambiguous : ExecutionDisposition

-- `disposition is ExecutionDisposition.SUCCEEDED`
abbrev pub is_done : ExecutionDisposition → Bool
is_done ExecutionDisposition.succeeded = true
is_done _ = false

pub record ExecutionResult : Type 0 where
  pub disposition : ExecutionDisposition
  pub changed : Option Bool
  pub message : String

pub record StageResult : Type 0 where
  pub attempted : Bool
  pub succeeded : Option Bool
  pub changed : Option Bool
  pub observed_description : Option String
  pub message : String

pub record InterfaceState : Type 0 where
  pub observed_hostname : String
  pub interface : String
  pub exists : Bool
  pub description : Option String
  pub protected : Bool

pub record CiscoConfigArtifact : Type 0 where
  pub parent : String
  pub lines : List String

pub record JunosConfigArtifact : Type 0 where
  pub interface : String
  pub description : String
  pub xml : String

pub data ConfigArtifact : Type 0 where
  cisco : CiscoConfigArtifact → ConfigArtifact
  junos : JunosConfigArtifact → ConfigArtifact

unfoldable pub artifact_beq : ConfigArtifact → ConfigArtifact → Bool
artifact_beq (cisco a) (cisco b) = a.parent == b.parent && a.lines == b.lines
artifact_beq (junos a) (junos b) =
    a.interface == b.interface && (a.description == b.description && a.xml == b.xml)
artifact_beq _ _ = false

pub artifact_beq_iff : (a b : ConfigArtifact) → (artifact_beq a b ≡ true) ↔ (a ≡ b)
unfolding artifact_beq
artifact_beq_iff (cisco a) (cisco b) =
    ground (arith, same_text_iff a.parent b.parent, list_beq_iff a.lines b.lines)
artifact_beq_iff (junos a) (junos b) = ground (
  arith,
  same_text_iff a.interface b.interface,
  same_text_iff a.description b.description,
  same_text_iff a.xml b.xml,
)
artifact_beq_iff _ _ = ground arith

instance abbrev pub artifact_eq : Eq ConfigArtifact
artifact_eq = record { beq = artifact_beq; beq_iff = artifact_beq_iff }
