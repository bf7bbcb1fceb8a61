-- ===== src/Contracts/Errors.antt =====
-- The errors that the plan checks collect (`_error` of contracts.py).
use pgloom_engineering.Base.{String, Bool, true, false, List, [], ◌∷◌, ◌++◌, ◌≡◌, refl, ◌↔◌}

pub record ContractError : Type 0 where
  pub code : String
  pub message : String

unfoldable pub error : String → String → ContractError
error code message = record { code = code; message = message }

-- `if condition: errors.append(_error(code, message))`
unfoldable pub error_when : Bool → String → String → List ContractError
error_when true code message = error code message ∷ []
error_when false code message = []

pub error_when-nil :
    (b : Bool) (code message : String) → (error_when b code message ≡ []) ↔ (b ≡ false)
unfolding error_when
error_when-nil true code message = (λ h. cc, λ h. cc)
error_when-nil false code message = (λ h. refl, λ h. refl)

-- A chain of checks is clean when its first check is and the rest is.
pub error_when-append-nil :
    (b : Bool) (code message : String) (rest : List ContractError)
    → (error_when b code message ++ rest ≡ []) ↔ ((b ≡ false) × (rest ≡ []))
unfolding error_when
error_when-append-nil true code message rest = (λ h. cc, λ h. cc)
error_when-append-nil false code message rest = (λ h. (refl, h), λ h. h.1)
