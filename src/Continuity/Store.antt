-- ===== src/Continuity/Store.antt =====
-- The tables of infra/migrations/0005_durable_recovery_continuity.sql that backups, legal holds and
-- degraded mode use (packages/workflow-runtime/src/recovery-continuity.ts). Times are milliseconds,
-- and columns that no function here reads are left out.
use chain_sieve.Base.{ℕ, Bool, Option, List, Text}

pub data BackupTier : Type 0 where
  critical_config critical_observations replayable_raw : BackupTier

pub data BackupAccessRole : Type 0 where
  owner operator auditor viewer : BackupAccessRole

pub data AuditAction : Type 0 where
  backup_deleted legal_hold_created legal_hold_released restore_granted restore_denied : AuditAction
  degraded_entered degraded_exited : AuditAction

pub record AuditRow : Type 0 where
  pub id : Text
  pub action : AuditAction
  pub actor : Text
  pub payload_json : Text
  pub previous_hash : Option Text
  pub record_hash : Text
  pub recorded_at : ℕ

pub record BackupRecord : Type 0 where
  pub id : Text
  pub tier : BackupTier
  pub expires_at : ℕ
  pub deleted_at : Option ℕ

pub record LegalHold : Type 0 where
  pub id : Text
  pub backup_record_id : Text
  pub reason : Text
  pub created_at : ℕ
  pub created_by : Text
  pub released_at : Option ℕ
  pub active : Bool

pub record DegradedRow : Type 0 where
  pub id : Text
  pub tier : BackupTier
  pub reason : Text
  pub degraded_at : ℕ
  pub restored_at : Option ℕ
  pub confirmed_opportunity_alerts_disabled : Bool
  pub active : Bool

pub record Db : Type 0 where
  pub audit_log : List AuditRow
  pub backup_records : List BackupRecord
  pub legal_holds : List LegalHold
  pub degraded : List DegradedRow

-- what is thrown: the program's own errors, and the database's refusals
pub data Fault : Type 0 where
  legal_hold_access_denied legal_hold_release_access_denied retention_delete_access_denied : Fault
  backup_not_found_or_deleted unique_violation foreign_key_violation check_violation : Fault
