-- ===== src/Tests/Elevated.antt =====
-- Calls with elevated rights at concrete inputs.
use libservice.Prelude.{some, [], ◌≡◌, refl, lit}
use libservice.Os.{Returns, Throws, ◌>>◌, throw, catch, tell, chdir, runtime_error}
use libservice.Persona.{Persona}
use libservice.Persona.Elevation.{
  Guard, run_elevated, IsBack, then_back, elevated, run_elevated-IsBack,
}
use libservice.Tests.Environments.{calm}

-- A process that was started by root and runs as a user.
abbrev persona : Persona
persona = record { start = record { uid = 0; gid = 0 }; running = record { uid = 1000; gid = 50 } }

abbrev guarded : Guard
guarded before call after = before >> (catch call (λ e. after >> throw e) >> after)

run_elevated-IsBack_example :
    (run_elevated calm guarded (some persona) (tell (chdir (lit "/")) >> throw runtime_error) []
      ≡ then_back calm guarded persona
          ((tell (chdir (lit "/")) >> throw runtime_error) (elevated calm guarded persona [])))
    × Returns
        (λ u t. IsBack calm guarded persona [] t)
        (run_elevated calm guarded
          (some persona)
          (tell (chdir (lit "/")) >> throw runtime_error)
          [])
    × Throws
        (λ e t. IsBack calm guarded persona [] t)
        (run_elevated calm guarded
          (some persona)
          (tell (chdir (lit "/")) >> throw runtime_error)
          [])
run_elevated-IsBack_example =
    run_elevated-IsBack calm guarded persona (tell (chdir (lit "/")) >> throw runtime_error) []
      (λ before call after h. refl) (λ t uid gid. refl) (λ t. refl)
