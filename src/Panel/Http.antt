-- ===== src/Panel/Http.antt =====
-- server/internal/panel: requests and answers, as far as the handlers look at them.
use ligend.Prelude.{ℕ}

pub data Method : Type 0 where
  get post put delete options other : Method

-- A success with its data, or an error with its status code.
pub data Response {ℓ} (A : Type ℓ) : Type ℓ where
  success : A → Response A
  failure : ℕ → Response A

abbrev pub bad_request : ℕ
bad_request = 400

abbrev pub unauthorized : ℕ
unauthorized = 401

abbrev pub not_found : ℕ
not_found = 404

abbrev pub method_not_allowed : ℕ
method_not_allowed = 405

abbrev pub internal_server_error : ℕ
internal_server_error = 500
