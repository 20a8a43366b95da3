-- ===== src/Examples/Importing.antt =====
-- The table of imports (internal/core/core.go, `importBindings`) at concrete inputs.
use wasi.Prelude.{◌≡◌, [], ◌∷◌, All}
use wasi.Dispatch.{call}
use wasi.Imports.{import_bindings, params}
use wasi.Imports.Arity.{cut, call-cut}
use wasi.Examples.Setting.{plugin, words}

call-cut_example :
    All
      (λ b.
        call plugin 3 b.handler (cut (params b) (words (3 ∷ 0 ∷ 1 ∷ 8 ∷ 9 ∷ [])))
        ≡ call plugin 3 b.handler (words (3 ∷ 0 ∷ 1 ∷ 8 ∷ 9 ∷ [])))
      import_bindings
call-cut_example = call-cut plugin 3 (words (3 ∷ 0 ∷ 1 ∷ 8 ∷ 9 ∷ []))
