-- ===== src/Allocator/Layout.antt =====
-- service/detail/signalhandler.hpp, `Allocator`: objects are aligned, apart, and within the memory.
use native.Mathlib.Nat.{mod-lt, mod-add-mod, mod_self}
use libservice.Prelude.{ℕ, ◌+◌, ◌-◌, ◌*◌, ◌%◌, ◌≤◌, ◌<◌, ◌≡◌, arith, sym, ap, ◌∙◌}
use libservice.Allocator.{Object, aligned, get, place, memory_size}

padded-mod : (offset align : ℕ) → 0 < align → (offset + (align - offset % align)) % align ≡ 0
padded-mod offset align h =
    sym (mod-add-mod offset align (align - offset % align))
    ∙ ap (λ n. n % align) whole
    ∙ mod_self align
  where
    whole : offset % align + (align - offset % align) ≡ align
    whole = omega (arith, mod-lt offset h)

-- Every object starts at a multiple of its alignment, less than one alignment above the offset, and
-- the offset moves to its end.
get_lem :
    (o : Object) (offset : ℕ)
    → 0 < o.align
    → ((get o offset).0 % o.align ≡ 0)
      × (offset ≤ (get o offset).0)
      × ((get o offset).0 < offset + o.align)
      × ((get o offset).1 ≡ (get o offset).0 + o.size * o.number)
unfolding get aligned
get_lem o offset h = ground (arith, padded-mod offset o.align h, mod-lt offset h)

-- The five parts lie one after the other, none over another, the atomic counters and the process ids
-- are aligned, and all fit into the memory, whenever the mutex takes at most 3900 bytes.
pub place_fits :
    (mutex : Object)
    → 0 < mutex.align
    → mutex.size * mutex.number ≤ 3900
    → let p = place mutex in
      (p.lock ≡ 0)
      × (p.lock + mutex.size * mutex.number ≤ p.slots)
      × (p.slots + 128 ≤ p.terminated)
      × (p.terminated + 1 ≤ p.log_rotate_event)
      × (p.log_rotate_event + 8 ≤ p.stat_event)
      × (p.stat_event + 8 ≤ memory_size)
      × (p.slots % 4 ≡ 0)
      × (p.log_rotate_event % 8 ≡ 0)
      × (p.stat_event % 8 ≡ 0)
unfolding place
place_fits mutex pos small = ground arith
