-- ===== src/Terminator/Slots.antt =====
-- service/detail/signalhandler.hpp, `Terminator`: what the table holds after each operation.
use libservice.Prelude.{
  ℕ, suc, ◌≤◌, Bool, true, false, Option-cases, [], ◌∷◌, ◌==◌, ◌≡◌, ◌≢◌, ◌&&◌, ◌||◌, refl, arith,
  if◌then◌else◌, length,
}
use libservice.Terminator.{Table, find_slot, find, fill, add, remove, named}

abbrev pub contains : ℕ → Table → Bool
contains q [] = false
contains q (p ∷ s) = (p == q) || contains q s

pub find-contains : (q : ℕ) (s : Table) → find q s ≡ contains q s
unfolding find find_slot
find-contains q [] = refl
find-contains q (p ∷ s) = ground (arith, find-contains q s)

-- How many slots hold the process id.
abbrev pub count : ℕ → Table → ℕ
count q [] = 0
count q (p ∷ s) = let n = count q s in if p == q then suc n else n

count_absent : (q : ℕ) (s : Table) → contains q s ≡ false → count q s ≡ 0
count_absent q [] h = refl
count_absent q (p ∷ s) h = ground (arith, count_absent q s)

fill-count :
    (pid q : ℕ) (s : Table)
    → q ≢ 0
    → count q (fill pid s).0 ≡ (if (fill pid s).1 && (q == pid) then suc (count q s) else count q s)
unfolding fill
fill-count pid q [] h = refl
fill-count pid q (p ∷ s) h = ground (arith, fill-count pid q s h)

fill-contains :
    (pid q : ℕ) (s : Table)
    → q ≢ 0
    → contains q (fill pid s).0 ≡ ((fill pid s).1 && (q == pid)) || contains q s
unfolding fill
fill-contains pid q [] h = refl
fill-contains pid q (p ∷ s) h = ground (arith, fill-contains pid q s h)

fill_full : (pid : ℕ) (s : Table) → (fill pid s).1 ≡ contains 0 s
unfolding fill
fill_full pid [] = refl
fill_full pid (p ∷ s) = ground (arith, fill_full pid s)

fill-length : (pid : ℕ) (s : Table) → length (fill pid s).0 ≡ length s
unfolding fill
fill-length pid [] = refl
fill-length pid (p ∷ s) = ground (arith, fill-length pid s)

-- `add` answers true exactly when the process is in the table afterwards; it fails only on a full
-- table that lacks it; every other process stays in or out, and the size stays.
pub add_lem :
    (self pid q : ℕ) (s : Table)
    → self ≢ 0
    → q ≢ 0
    → ((add self pid s).1 ≡ find (named self pid) s || find 0 s)
      × (find q (add self pid s).0 ≡ ((add self pid s).1 && (q == named self pid)) || find q s)
      × (length (add self pid s).0 ≡ length s)
unfolding add
add_lem self pid q s a b =
    let p : ℕ = named self pid in
    ground (
      arith,
      find-contains p s,
      find-contains 0 s,
      find-contains q s,
      find-contains q (fill p s).0,
      fill-contains p q s b,
      fill_full p s,
      fill-length p s,
    )

-- `add` never gives a process a second slot.
add_once : (self pid q : ℕ) (s : Table) → q ≢ 0 → count q s ≤ 1 → count q (add self pid s).0 ≤ 1
unfolding add
add_once self pid q s nonzero once =
    let p : ℕ = named self pid in
    ground (arith, find-contains p s, count_absent q s, fill-count p q s nonzero)

-- A process that `add` has registered is still found after a `remove`, whichever process makes that
-- call and whatever process it names.
pub find-remove-add :
    (self caller pid other : ℕ) (s : Table)
    → self ≢ 0
    → (add self pid s).1 ≡ true
    → find (named self pid) (remove caller other (add self pid s).0) ≡ true
unfolding remove
find-remove-add self caller pid other s nonzero added = ground (
  arith,
  Option-cases (find_slot (named caller other) (add self pid s).0),
  (add_lem self pid (named self pid) s nonzero (ground arith)).1,
)

-- `remove` leaves the table as it is.
pub remove_same : (self pid : ℕ) (s : Table) → remove self pid s ≡ s
unfolding remove
remove_same self pid s = ground (arith, Option-cases (find_slot (named self pid) s))
