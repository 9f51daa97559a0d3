-- ===== src/App.antt =====
-- src/app.rs: the replicated application.
use tidyup.Common.{ℕ, []}
use tidyup.Message.{Bytes}

pub data App : Type 0 where
  null : App

-- App::execute takes `&mut self`, so the application comes back beside the result.
unfoldable pub execute : App → ℕ → Bytes → App × Bytes
execute App.null op_number op = (App.null, [])
