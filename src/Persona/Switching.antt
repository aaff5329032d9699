-- ===== src/Persona/Switching.antt =====
-- service/service.cpp, `switchPersona`: the order in which privileges are given up, and that a
-- failure leaves the user unchanged.
use libservice.Prelude.{ℕ, take, suc, false, [], ◌∷◌, ◌≡◌, arith, is_empty}
use libservice.Os.{
  Env, PersonaSwitchMode, set_real_id, set_effective_id, set_effective_and_saved_id, Call, setuid,
  seteuid, setreuid, initgroups, log_file_owner, Trace, ok, fail, Returns, Throws,
}
use libservice.Persona.{Config, uid_setter, gid_setter, switch_persona}

module _ (env : Env) where
  -- How many calls of a trace changed the user.
  abbrev pub succeeded : Trace → Call → ℕ → ℕ
  succeeded t c n = elim (env.succeeds t c) [ ok u ↦ suc n | fail e ↦ n ]

  abbrev pub user_switches : Trace → ℕ
  user_switches [] = 0
  user_switches (setuid n ∷ t) = succeeded t (setuid n) (user_switches t)
  user_switches (seteuid n ∷ t) = succeeded t (seteuid n) (user_switches t)
  user_switches (setreuid n ∷ t) = succeeded t (setreuid n) (user_switches t)
  user_switches (_ ∷ t) = user_switches t

  -- When the switch throws, at whatever point, no call that changes the user has succeeded.
  pub switch_persona-fails :
      (mode : PersonaSwitchMode) (config : Config) (h : Trace)
      → Throws (λ e t. user_switches t ≡ user_switches h) (switch_persona env mode config h)
  unfolding switch_persona
  switch_persona-fails mode config h = ground arith

  -- When it returns for a named user, the last calls were, in this order: the log file is handed
  -- over, the group is set, the supplementary groups are set, and only then the user, once; the ids
  -- are those that the returned persona runs at.
  pub switch_persona_order :
      (mode : PersonaSwitchMode) (config : Config) (h : Trace)
      → is_empty config.username ≡ false
      → Returns
          (λ p t.
            (take 4 t
              ≡ uid_setter mode p.running.uid
                ∷ initgroups config.username p.running.gid
                ∷ gid_setter mode p.running.gid
                ∷ log_file_owner p.running.uid p.running.gid
                ∷ [])
            × (user_switches t ≡ suc (user_switches h))
            × (p.start ≡ env.effective h))
          (switch_persona env mode config h)
  unfolding switch_persona
  switch_persona_order set_real_id config h named = ground arith
  switch_persona_order set_effective_id config h named = ground arith
  switch_persona_order set_effective_and_saved_id config h named = ground arith
