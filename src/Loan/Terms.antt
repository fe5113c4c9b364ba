-- ===== src/Loan/Terms.antt =====
-- The enumerations of app/schemas/loan.py and app/schemas/settings.py that the loan services test.
use sole_backend.Prelude.{Bool, true, false}

pub data LoanInterestType : Type 0 where
  fixed variable : LoanInterestType

pub data LoanRepaymentMethod : Type 0 where
  balloon principal_and_interest : LoanRepaymentMethod

pub data LoanSelectionMode : Type 0 where
  percent shares : LoanSelectionMode

abbrev pub same_interest : LoanInterestType → LoanInterestType → Bool
same_interest fixed fixed = true
same_interest variable variable = true
same_interest _ _ = false

abbrev pub same_method : LoanRepaymentMethod → LoanRepaymentMethod → Bool
same_method balloon balloon = true
same_method principal_and_interest principal_and_interest = true
same_method _ _ = false
