-- ===== src/Transport/Status.antt =====
-- How `send` reads an HTTP status, and what it does with a payload that lacks a field.
use employee_tracker.Common.{ℕ, ◌≤◌, ◌≡◌, ◌↔◌, ◌⊎◌, Option, none, some, arith}
use employee_tracker.Common.Int.{ℤ, pos, negsuc}
use employee_tracker.Models.{DeliveryKind, success, retriable, authentication, permanent}
use employee_tracker.Transport.Delivery.{classify_status}

-- `lo <= status_code <= hi`, which no missing status satisfies.
abbrev pub Between : ℕ → ℕ → Option ℤ → Type 0
Between lo hi none = ⊥
Between lo hi (some (negsuc n)) = ⊥
Between lo hi (some (pos n)) = (lo ≤ n) × (n ≤ hi)

abbrev IsSuccess : Option ℤ → Type 0
IsSuccess c = Between 200 299 c

abbrev IsAuthentication : Option ℤ → Type 0
IsAuthentication c = Between 401 401 c ⊎ Between 403 403 c

abbrev IsRetriable : Option ℤ → Type 0
IsRetriable c = Between 408 408 c ⊎ Between 425 425 c ⊎ Between 429 429 c ⊎ Between 500 599 c

-- The statuses that each kind stands for.
abbrev pub Expected : DeliveryKind → Option ℤ → Type 0
Expected success c = IsSuccess c
Expected authentication c = IsAuthentication c
Expected retriable c = IsRetriable c
Expected permanent c = ¬ IsSuccess c × ¬ IsAuthentication c × ¬ IsRetriable c

-- A status is classified as a success exactly in 200-299, as an authentication failure exactly at
-- 401 and 403, as retriable exactly at 408, 425, 429 and in 500-599, and as permanent exactly
-- otherwise, a missing or negative status included.
pub classify_status-Expected :
    (c : Option ℤ) (k : DeliveryKind) → (classify_status c ≡ k) ↔ Expected k c
unfolding classify_status
classify_status-Expected none success = (λ h. ground arith, λ h. ground arith)
classify_status-Expected none authentication = (λ h. ground arith, λ h. ground arith)
classify_status-Expected none retriable = (λ h. ground arith, λ h. ground arith)
classify_status-Expected none permanent = (λ h. ground arith, λ h. ground arith)
classify_status-Expected (some n) success = (λ h. ground arith, λ h. ground arith)
classify_status-Expected (some n) authentication = (λ h. ground arith, λ h. ground arith)
classify_status-Expected (some n) retriable = (λ h. ground arith, λ h. ground arith)
classify_status-Expected (some n) permanent = (λ h. ground arith, λ h. ground arith)
