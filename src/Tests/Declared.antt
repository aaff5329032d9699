-- ===== src/Tests/Declared.antt =====
-- The declared options of a service that adds none of its own.
use libservice.Prelude.{lit, true, [], ◌∷◌, ◌≡◌, refl}
use libservice.Program.Declarations.{Declared, service_options, full, are_distinct}

abbrev nothing : Declared
nothing = record { cmdline = []; config = [] }

-- No option of a service is declared twice.
service_distinct : are_distinct (full 18 (lit "signals" ∷ []) service_options nothing) ≡ true
unfolding full service_options
service_distinct = refl
