-- ===== src/Auth/PermissionCodes.antt =====
-- `PermissionCode` of app/core/permissions.py: the values of the enumeration.
use sole_backend.Prelude.{List, [], ◌∷◌, Text, codes}

unfoldable pub list_all : List Text
list_all =
    codes "system.admin"
    ∷ codes "org.dashboard.view"
    ∷ codes "org.settings.view"
    ∷ codes "org.settings.manage"
    ∷ codes "audit_log.view"
    ∷ codes "impersonation.perform"
    ∷ codes "user.view"
    ∷ codes "user.manage"
    ∷ codes "user.onboard"
    ∷ codes "user.mfa.reset"
    ∷ codes "role.view"
    ∷ codes "role.manage"
    ∷ codes "department.view"
    ∷ codes "department.manage"
    ∷ codes "permission_catalog.view"
    ∷ codes "acl.manage"
    ∷ codes "org.document.view"
    ∷ codes "org.document.manage"
    ∷ codes "announcement.view"
    ∷ codes "announcement.manage"
    ∷ codes "stock.view"
    ∷ codes "stock.manage"
    ∷ codes "stock.program.view"
    ∷ codes "stock.program.manage"
    ∷ codes "stock.grant.view"
    ∷ codes "stock.grant.manage"
    ∷ codes "stock.vesting.view"
    ∷ codes "stock.eligibility.view"
    ∷ codes "stock.dashboard.view"
    ∷ codes "stock.self.view"
    ∷ codes "loan.apply"
    ∷ codes "loan.view_own"
    ∷ codes "loan.cancel_own"
    ∷ codes "loan.view_all"
    ∷ codes "loan.manage"
    ∷ codes "loan.dashboard.view"
    ∷ codes "loan.queue.hr.view"
    ∷ codes "loan.workflow.hr.manage"
    ∷ codes "loan.queue.finance.view"
    ∷ codes "loan.workflow.finance.manage"
    ∷ codes "loan.queue.legal.view"
    ∷ codes "loan.workflow.legal.manage"
    ∷ codes "loan.workflow.assign.any"
    ∷ codes "loan.workflow.post_issuance.manage"
    ∷ codes "loan.workflow.83b.manage"
    ∷ codes "loan.document.view"
    ∷ codes "loan.document.manage_hr"
    ∷ codes "loan.document.manage_finance"
    ∷ codes "loan.document.manage_legal"
    ∷ codes "loan.document.self_view"
    ∷ codes "loan.document.self_upload_83b"
    ∷ codes "loan.schedule.view"
    ∷ codes "loan.schedule.self.view"
    ∷ codes "loan.payment.view"
    ∷ codes "loan.payment.self.view"
    ∷ codes "loan.payment.record"
    ∷ codes "loan.payment.refund"
    ∷ codes "loan.what_if.simulate"
    ∷ codes "loan.what_if.self.simulate"
    ∷ codes "loan.export.schedule"
    ∷ codes "loan.export.self"
    ∷ codes "report.stock.export"
    ∷ codes "report.loan.export"
    ∷ codes "report.audit.export"
    ∷ []
