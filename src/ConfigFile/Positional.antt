-- ===== src/ConfigFile/Positional.antt =====
-- service/config.hpp: the positional arguments, and a request for help.
use libservice.Prelude.{
  ℕ, zero, suc, ◌≤◌, pos, negsuc, Text, none, some, List, [], ◌∷◌, ◌++◌, ◌≡◌, refl, arith, length,
}
use libservice.Os.{runtime_error, Trace, done, threw, undefined}
use libservice.ConfigFile.{item_at, get_positional}

item_at-append :
    (before after : List Text) (s : Text) → item_at (length before) (before ++ s ∷ after) ≡ some s
unfolding item_at
item_at-append [] after s = refl
item_at-append (b ∷ before) after s = item_at-append before after s

item_at-past : (i : ℕ) (args : List Text) → length args ≤ i → item_at i args ≡ none
unfolding item_at
item_at-past i [] past = refl
item_at-past zero (s ∷ ss) past = absurd (omega arith)
item_at-past (suc i) (s ∷ ss) past = item_at-past i ss (omega arith)

-- An index within the positional arguments gives the argument, one past them is refused with an
-- exception, and one below 0 is not refused but undefined.
get_positional_lem :
    (before after : List Text) (s : Text) (i n : ℕ) (h : Trace)
    → let args = before ++ s ∷ after in
      length args ≤ i
      → (get_positional (pos (length before)) args h ≡ done s h)
        × (get_positional (pos i) args h ≡ threw runtime_error h)
        × (get_positional (negsuc n) args h ≡ undefined h)
unfolding get_positional
get_positional_lem before after s i n h past = (
  rw (item_at-append before after s) refl,
  rw (item_at-past i (before ++ s ∷ after) past) refl,
  refl,
)
