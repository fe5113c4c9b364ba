-- ===== src/Loan/Store.antt =====
-- The rows that the services on loan applications read and write: app/models/loan_application.py,
-- app/models/loan_workflow_stage.py, app/models/stock_grant_reservation.py,
-- app/models/loan_document.py and the audit log. Times are seconds, dates are days, since an epoch.
use sole_backend.Prelude.{
  ℕ, Bool, true, false, ◌&&◌, Option, List, map, ◌==◌, if◌then◌else◌, Text, keep,
}
use sole_backend.Prelude.Int.{ℤ}
use sole_backend.Decimal.{Decimal}
use sole_backend.Loan.Terms.{LoanInterestType, LoanRepaymentMethod, LoanSelectionMode}
use sole_backend.Loan.Allocation.{LoanShareAllocation}

-- The seven statuses of an application, and the text "PENDING" that some tests name.
pub data LoanStatus : Type 0 where
  draft submitted cancelled in_review active completed rejected pending : LoanStatus

abbrev pub same_status : LoanStatus → LoanStatus → Bool
same_status draft draft = true
same_status submitted submitted = true
same_status cancelled cancelled = true
same_status in_review in_review = true
same_status active active = true
same_status completed completed = true
same_status rejected rejected = true
same_status pending pending = true
same_status _ _ = false

pub data StageType : Type 0 where
  hr_review finance_processing legal_execution : StageType
  legal_post_issuance borrower_83b_election : StageType

abbrev pub same_stage : StageType → StageType → Bool
same_stage hr_review hr_review = true
same_stage finance_processing finance_processing = true
same_stage legal_execution legal_execution = true
same_stage legal_post_issuance legal_post_issuance = true
same_stage borrower_83b_election borrower_83b_election = true
same_stage _ _ = false

-- `PENDING`, `IN_PROGRESS` and `COMPLETED`; two of the words are taken by the applications.
pub data StageStatus : Type 0 where
  waiting in_progress done : StageStatus

abbrev pub is_done : StageStatus → Bool
is_done done = true
is_done _ = false

pub data RoleHint : Type 0 where
  hr finance legal borrower : RoleHint

-- `LoanDocumentType`.
pub data DocumentType : Type 0 where
  notice_of_stock_option_grant spouse_partner_consent : DocumentType
  payment_instructions payment_confirmation : DocumentType
  stock_option_exercise_and_loan_agreement secured_promissory_note : DocumentType
  stock_power_and_assignment investment_representation_statement : DocumentType
  share_certificate section_83b_election : DocumentType

abbrev pub same_document : DocumentType → DocumentType → Bool
same_document notice_of_stock_option_grant notice_of_stock_option_grant = true
same_document spouse_partner_consent spouse_partner_consent = true
same_document payment_instructions payment_instructions = true
same_document payment_confirmation payment_confirmation = true
same_document stock_option_exercise_and_loan_agreement stock_option_exercise_and_loan_agreement =
    true
same_document secured_promissory_note secured_promissory_note = true
same_document stock_power_and_assignment stock_power_and_assignment = true
same_document investment_representation_statement investment_representation_statement = true
same_document share_certificate share_certificate = true
same_document section_83b_election section_83b_election = true
same_document _ _ = false

pub record LoanWorkflowStage : Type 0 where
  pub org_id : ℕ
  pub loan_application_id : ℕ
  pub stage_type : StageType
  pub status : StageStatus
  pub assigned_role_hint : RoleHint
  pub notes : Option Text
  pub completed_at : Option ℕ
  pub completed_by_user_id : Option ℕ

pub record StockGrantReservation : Type 0 where
  pub org_id : ℕ
  pub org_membership_id : ℕ
  pub grant_id : ℕ
  pub loan_application_id : ℕ
  pub shares_reserved : ℕ
  pub status : LoanStatus

pub record LoanDocument : Type 0 where
  pub org_id : ℕ
  pub loan_application_id : ℕ
  pub stage_type : StageType
  pub document_type : DocumentType

-- What a quote leaves on an application, in cents, and the version of the policy it was made under.
pub record QuoteTerms : Type 0 where
  pub as_of_date : ℕ
  pub selection_mode : LoanSelectionMode
  pub selection_value_snapshot : Decimal
  pub shares_to_exercise : ℕ
  pub total_exercisable_shares_snapshot : ℕ
  pub purchase_price : ℕ
  pub down_payment_amount : ℕ
  pub loan_principal : ℤ
  pub policy_version_snapshot : Option ℕ
  pub interest_type : LoanInterestType
  pub repayment_method : LoanRepaymentMethod
  pub term_months : ℕ
  pub nominal_annual_rate : ℕ
  pub estimated_monthly_payment : ℤ
  pub total_payable : ℤ
  pub total_interest : ℤ
  pub allocation_snapshot : List LoanShareAllocation

pub record Spouse : Type 0 where
  pub first_name : Option Text
  pub middle_name : Option Text
  pub last_name : Option Text
  pub email : Option Text
  pub phone : Option Text
  pub address : Option Text

pub record LoanApplication : Type 0 where
  pub id : ℕ
  pub org_id : ℕ
  pub org_membership_id : ℕ
  pub status : LoanStatus
  pub decision_reason : Option Text
  pub total_payable_amount : ℕ
  pub activation_date : Option ℕ
  pub election_83b_due_date : Option ℕ
  pub create_idempotency_key : Option Text
  pub submit_idempotency_key : Option Text
  pub marital_status_snapshot : Option Text
  pub spouse : Spouse
  pub terms : QuoteTerms

-- The actions that are logged, with the statuses before and after.
pub data Action : Type 0 where
  activated : LoanStatus → Action
  stage_updated : StageType → StageStatus → StageStatus → Action
  admin_update : LoanStatus → LoanStatus → Action
  completed_loan : LoanStatus → Action
  repayment_recorded : ℕ → Action
  cancelled_draft created_draft updated_draft submitted_loan : Action
  admin_edit : LoanStatus → LoanStatus → Bool → ℕ → Action

pub record AuditLog : Type 0 where
  pub actor_id : Option ℕ
  pub action : Action
  pub loan_application_id : ℕ

-- A repayment of app/models/loan_repayment.py, in cents.
pub record RepaymentRow : Type 0 where
  pub org_id : ℕ
  pub loan_application_id : ℕ
  pub amount : ℕ
  pub principal_amount : ℕ
  pub interest_amount : ℕ
  pub payment_date : ℕ
  pub recorded_by_user_id : ℕ

pub record Store : Type 0 where
  pub applications : List LoanApplication
  pub stages : List LoanWorkflowStage
  pub reservations : List StockGrantReservation
  pub documents : List LoanDocument
  pub repayments : List RepaymentRow
  pub audit : List AuditLog

abbrev pub is_stage_of : ℕ → ℕ → LoanWorkflowStage → Bool
is_stage_of org_id loan_id stage =
    (stage.org_id == org_id) && (stage.loan_application_id == loan_id)

abbrev pub stages_of : Store → ℕ → ℕ → List LoanWorkflowStage
stages_of db org_id loan_id = keep (is_stage_of org_id loan_id) db.stages

-- A changed application takes the place of its row.
abbrev pub save_application : LoanApplication → List LoanApplication → List LoanApplication
save_application application = map (λ row. if row.id == application.id then application else row)
