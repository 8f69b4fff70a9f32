-- ===== src/Validator/Errors.antt =====
-- PoC-webui-v2/internal/validator/validator.go: a finding of the Validator, and the findings that
-- block an Apply.

use songbird_prototypes.Prelude.{ℕ, String, List, [], ◌∷◌, ◌==◌, if◌then◌else◌}

pub record Error : Type 0 where
  pub file : String
  pub line : ℕ
  pub path : String
  pub reason : String
  pub rule : String
  pub constraint : String
  pub severity : String  -- error, warning

unfoldable pub errors : List Error → List Error
errors [] = []
errors (e ∷ l) = let rest = errors l in if e.severity == "error" then e ∷ rest else rest
