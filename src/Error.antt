-- ===== src/Error.antt =====
-- lied/src/error.rs: the one error type of the routes. The reports and causes that other libraries
-- make are texts.
use lied.Prelude.{ℕ}
use lied.Prelude.Text.{Text}

pub data AppError : Type 0 where
  not_found precondition_failed unauthorized forbidden too_many_requests : AppError
  validation database internal conflict payload_too_large unsupported_media_type
        range_not_satisfiable :
      Text → AppError

unfoldable pub status : AppError → ℕ
status not_found = 404
status precondition_failed = 412
status (validation report) = 400
status (database cause) = 500
status (internal cause) = 500
status unauthorized = 401
status forbidden = 403
status too_many_requests = 429
status (conflict detail) = 409
status (payload_too_large detail) = 413
status (unsupported_media_type detail) = 415
status (range_not_satisfiable detail) = 416
