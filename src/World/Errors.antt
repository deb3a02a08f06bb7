-- ===== src/World/Errors.antt =====
-- Go's `error` values as the services build and inspect them: the package-level sentinels, the errors of
-- the database driver, fmt.Errorf with %w, gRPC statuses, and errors.Is.
use pingerus.Base.{ℕ, Bool, true, false, String, ◌≡◌, refl}

-- The variables made by errors.New at package level, and context.Canceled.
pub data Sentinel : Type 0 where
  not_found conflict invalid_credentials email_exists weak_password : Sentinel
  invalid_interval forbidden token_invalid tx_not_found canceled : Sentinel

pub Sentinel-discrete : Discrete Sentinel
Sentinel-discrete = hlevel

-- The Go type of a driver error: the pool is pgx/v5, whose *pgconn.PgError is the type of
-- github.com/jackc/pgx/v5/pgconn; the type of github.com/jackc/pgconn is another one.
pub data DriverError : Type 0 where
  no_rows : DriverError
  pgx5_error : (code : ℕ) → DriverError
  pgconn1_error : (code : ℕ) → DriverError
  connection : DriverError

-- The gRPC status codes that the services return.
pub data StatusCode : Type 0 where
  invalid_argument unauthenticated permission_denied already_exists status_not_found : StatusCode

pub data Error : Type 0 where
  sentinel : Sentinel → Error
  driver : DriverError → Error
  wrap : String → Error → Error
  message : String → Error
  status : StatusCode → Error

-- errors.Is(err, target)
unfoldable pub errors_is : Error → Sentinel → Bool
errors_is (sentinel s) t = elim (Sentinel-discrete s t) [ yes _ ↦ true | no _ ↦ false ]
errors_is (wrap label e) t = errors_is e t
errors_is (driver e) t = false
errors_is (message m) t = false
errors_is (status c) t = false

pub data Result {ℓ} (A : Type ℓ) : Type ℓ where
  ok : A → Result A
  err : Error → Result A

pub errors_is-sentinel : (s : Sentinel) → errors_is (sentinel s) s ≡ true
unfolding errors_is
errors_is-sentinel s =
    elim (Sentinel-discrete s s) as (λ d. elim d [ yes _ ↦ true | no _ ↦ false ] ≡ true) [
      | yes _ ↦ refl
      | no ne ↦ absurd (ne refl)
    ]
