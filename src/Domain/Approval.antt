-- ===== src/Domain/Approval.antt =====
-- domain/approval.py: the user's verdict on a call that waits for approval.
use milky_frog_lite.Prelude.{String, Option}

pub data ApprovalDecision : Type 0 where
  approve deny : ApprovalDecision

pub record ApprovalVerdict : Type 0 where
  pub decision : ApprovalDecision
  pub denial_reason : Option String
