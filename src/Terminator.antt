-- ===== src/Terminator.antt =====
-- service/detail/signalhandler.hpp, `Terminator`: the shared table of processes whose terminate
-- signal is meant for all. A slot holds a process id, or 0 when it is free. The mutex makes each
-- operation one step.
pub mod Slots
use libservice.Prelude.{
  ℕ, zero, suc, Bool, true, false, Option, none, some, List, [], ◌∷◌, ◌==◌, if◌then◌else◌,
  replicate,
}

abbrev pub Table : Type 0
Table = List ℕ

-- The constructor: all slots free.
unfoldable pub init : ℕ → Table
init size = replicate size 0

-- `find(pid)`: the slot, if there is one, stands for the pointer that the source returns.
unfoldable pub find_slot : ℕ → Table → Option ℕ
find_slot pid [] = none
find_slot pid (p ∷ slots) =
    if p == pid then some 0 else elim (find_slot pid slots) [ none ↦ none | some i ↦ some (suc i) ]

abbrev pub is_some {ℓ} : {A : Type ℓ} → Option A → Bool
is_some none = false
is_some (some a) = true

-- `find()` of the process `self`.
unfoldable pub find : ℕ → Table → Bool
unfolding find_slot
find self slots = is_some (find_slot self slots)

-- 0 names the calling process.
abbrev pub named : ℕ → ℕ → ℕ
named self pid = if pid == 0 then self else pid

-- The loop over the slots: the first free one takes the process id.
unfoldable pub fill : ℕ → Table → Table × Bool
fill pid [] = ([], false)
fill pid (p ∷ slots) =
    let rest = fill pid slots in if p == 0 then (pid ∷ slots, true) else (p ∷ rest.0, rest.1)

unfoldable pub add : ℕ → ℕ → Table → Table × Bool
add self pid slots =
    if find (named self pid) slots then (slots, true) else fill (named self pid) slots

-- `p` is a local copy of the pointer to the slot: `p = 0` clears the pointer, and not the slot.
unfoldable pub clear_pointer : Option ℕ → Table → Option ℕ × Table
clear_pointer none slots = (none, slots)
clear_pointer (some p) slots = (none, slots)

unfoldable pub remove : ℕ → ℕ → Table → Table
unfolding clear_pointer
remove self pid slots = (clear_pointer (find_slot (named self pid) slots) slots).1
