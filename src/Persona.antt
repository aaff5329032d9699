-- ===== src/Persona.antt =====
-- service/service.cpp, `switchPersona` and `loginEnv`, and service/persona.hpp: the user that the
-- service runs as.
pub mod Switching
pub mod Elevation
use libservice.Prelude.{
  ℕ, Text, lit, Bool, true, false, ◌&&◌, Option, none, some, List, [], ◌∷◌, is_empty, if◌then◌else◌,
}
use libservice.Os.{
  Env, Error, runtime_error, PersonaSwitchMode, set_real_id, set_effective_id,
  set_effective_and_saved_id, Passwd, Identity, Call, getpwnam, getgrnam, getpwuid, setuid, seteuid,
  setreuid, setgid, setegid, setregid, initgroups, log_file_owner, apply_environment, M, ◌>>=◌,
  ◌>>◌, pure, throw, ask, tell, look, attempt,
}

-- `Service::Config`.
pub record Config : Type 0 where
  pub username : Text
  pub groupname : Text
  pub login_env : Bool

pub record Persona : Type 0 where
  pub start : Identity
  pub running : Identity

-- `uidSetter` and `gidSetter`. The two-argument calls keep the real id.
abbrev pub uid_setter : PersonaSwitchMode → ℕ → Call
uid_setter set_real_id uid = setuid uid
uid_setter set_effective_id uid = seteuid uid
uid_setter set_effective_and_saved_id uid = setreuid uid

abbrev pub gid_setter : PersonaSwitchMode → ℕ → Call
gid_setter set_real_id gid = setgid gid
gid_setter set_effective_id gid = setegid gid
gid_setter set_effective_and_saved_id gid = setregid gid

module _ (env : Env) where
  -- The user's entry sets both ids; without a user name the ids stay.
  pub find_user : Text → Identity → M Identity
  find_user username running = if is_empty username then pure running else (do
    r ← ask (getpwnam username) (λ h. env.users h username)
    elim r [
      | none ↦ throw runtime_error
      | some pwd ↦ pure (record { uid = pwd.uid; gid = pwd.gid })
    ])

  -- A group name overrides the group.
  pub find_group : Text → Identity → M Identity
  find_group groupname running = if is_empty groupname then pure running else (do
    r ← ask (getgrnam groupname) (λ h. env.groups h groupname)
    elim r [ none ↦ throw runtime_error | some gid ↦ pure (record running { gid = gid }) ])

  -- `switchUid` is set by a user name; `switchGid` by either name, so always here.
  pub switch_uid : PersonaSwitchMode → Text → Identity → M (Unit {0})
  switch_uid mode username running = if is_empty username then pure tt else (do
    attempt env (initgroups username running.gid)
    attempt env (uid_setter mode running.uid))

  pub switch_named : PersonaSwitchMode → Config → Identity → M Persona
  unfolding find_user find_group switch_uid
  switch_named mode config start = do
    user ← find_user config.username start
    running ← find_group config.groupname user
    tell (log_file_owner running.uid running.gid)
    attempt env (gid_setter mode running.gid)
    switch_uid mode config.username running
    pure (record { start = start; running = running })

  unfoldable pub switch_persona : PersonaSwitchMode → Config → M Persona
  unfolding switch_named
  switch_persona mode config = do
    start ← look env.effective
    if is_empty config.username && is_empty config.groupname
        then pure (record { start = start; running = start })
        else switch_named mode config start

  -- `loginEnv`: the variables of a login shell.
  unfoldable pub login_env : Config → Persona → M (Unit {0})
  login_env config persona =
      if config.login_env
      then (do
        r ← ask (getpwuid persona.running.uid) (λ h. env.users_by_id h persona.running.uid)
        elim r [
          | none ↦ throw runtime_error
          | some pwd ↦ tell (
              apply_environment (
                (lit "LOGNAME", pwd.name)
                ∷ (lit "USER", pwd.name)
                ∷ (lit "HOME", pwd.dir)
                ∷ (lit "SHELL", pwd.shell)
                ∷ []))
        ])
      else pure tt
