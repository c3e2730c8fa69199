-- ===== src/Common/Types.antt =====
-- pkg/common/types.go
use native.Mathlib.Omega.{arith}
use mrvacommander.Prelude.{
  ℕ, Bytes, ascii, ℤ, pos, ◌≡◌, ◌↔◌, Bool, true, ◌&&◌, Map, Eq, bytes_beq, bytes_beq_iff, int_beq,
  int_beq_iff, if◌then◌else◌,
}

-- The name of a repository and of its owner.
pub record NameWithOwner : Type 0 where
  pub owner : Bytes
  pub repo : Bytes

-- `type Status int`: any integer is a status, and six of them have names.
abbrev pub Status : Type 0
Status = ℤ

abbrev pub status_pending : Status
status_pending = pos 0

abbrev pub status_in_progress : Status
status_in_progress = pos 1

abbrev pub status_succeeded : Status
status_succeeded = pos 2

abbrev pub status_failed : Status
status_failed = pos 3

abbrev pub status_canceled : Status
status_canceled = pos 4

abbrev pub status_timed_out : Status
status_timed_out = pos 5

unfoldable pub to_external_string : Status → Bytes
to_external_string s =
    if int_beq s status_pending
    then ascii "pending"
    else if int_beq s status_in_progress
    then ascii "inProgress"
    else if int_beq s status_succeeded
    then ascii "succeeded"
    else if int_beq s status_failed
    then ascii "failed"
    else if int_beq s status_canceled
    then ascii "canceled"
    else if int_beq s status_timed_out
    then ascii "timedOut"
    else ascii "unknown"

-- A job: a session, and the repository that is analysed in it.
pub record JobSpec : Type 0 where
  pub session_id : ℤ
  pub name_with_owner : NameWithOwner
  pub open name_with_owner use *

pub record StatusSummary : Type 0 where
  pub overall : Status
  pub counts : Map Status ℕ

-- `==` on `NameWithOwner` and `JobSpec`, field by field.
unfoldable pub nwo_beq : NameWithOwner → NameWithOwner → Bool
nwo_beq a b = bytes_beq a.owner b.owner && bytes_beq a.repo b.repo

pub nwo_beq_iff : (a b : NameWithOwner) → (nwo_beq a b ≡ true) ↔ (a ≡ b)
unfolding nwo_beq
nwo_beq_iff a b = ground (arith, bytes_beq_iff a.owner b.owner, bytes_beq_iff a.repo b.repo)

unfoldable pub job_spec_beq : JobSpec → JobSpec → Bool
job_spec_beq a b = int_beq a.session_id b.session_id && nwo_beq a.name_with_owner b.name_with_owner

pub job_spec_beq_iff : (a b : JobSpec) → (job_spec_beq a b ≡ true) ↔ (a ≡ b)
unfolding job_spec_beq
job_spec_beq_iff a b =
    ground (
      arith,
      int_beq_iff a.session_id b.session_id,
      nwo_beq_iff a.name_with_owner b.name_with_owner,
    )

instance abbrev pub nwo_eq : Eq NameWithOwner
nwo_eq = record { beq = nwo_beq; beq_iff = nwo_beq_iff }

instance abbrev pub job_spec_eq : Eq JobSpec
job_spec_eq = record { beq = job_spec_beq; beq_iff = job_spec_beq_iff }
