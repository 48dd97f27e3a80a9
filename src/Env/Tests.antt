-- ===== src/Env/Tests.antt =====
-- internal/service/env_bulk_linux.go: a batch with a secret over one that is there.
use nrcc.Base.{true, ok, List, [], ◌∷◌}
use nrcc.Store.{holds, written}
use nrcc.Env.{EnvVar, BulkEnvLine, Library, apply_bulk_env_direct}
use nrcc.Env.Batch.{IsApplied, apply_bulk_env_direct-IsApplied}

abbrev library : Library
library = record {
  parses_float = λ _. true;
  trim_space = λ s. s;
  to_lower = λ s. s;
  encrypt = λ _ _ _. ok "sealed";
}

abbrev batch : List BulkEnvLine
batch =
    record { line = 1; key = "PORT"; value = "1880"; value_type = "number" }
    ∷ record { line = 2; key = "TOKEN"; value = "abc"; value_type = "secret" }
    ∷ []

abbrev stored : List EnvVar
stored =
    record {
      key = "TOKEN";
      value = "old";
      value_type = "secret";
      description = "";
      encrypted = true;
      source = "nrcc";
    }
    ∷ []

apply_bulk_env_direct-IsApplied_example :
    IsApplied library "k" batch stored
      (apply_bulk_env_direct library "k" 0 batch written (holds stored))
apply_bulk_env_direct-IsApplied_example =
    apply_bulk_env_direct-IsApplied library "k" 0 batch written stored
