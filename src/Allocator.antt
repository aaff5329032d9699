-- ===== src/Allocator.antt =====
-- service/detail/signalhandler.hpp, `Allocator`: objects placed one after the other in the shared
-- memory of the signal handler, and what its constructor places there.
pub mod Layout
use libservice.Prelude.{ℕ, ◌+◌, ◌-◌, ◌*◌, ◌%◌, ◌==◌, if◌then◌else◌}

-- What the allocator is asked for: the alignment and the size of a type, and how many.
pub record Object : Type 0 where
  pub align : ℕ
  pub size : ℕ
  pub number : ℕ

-- `offset_` moved up to the alignment.
pub aligned : ℕ → ℕ → ℕ
aligned offset align =
    let misalign : ℕ = offset % align in
    if misalign == 0 then offset else offset + (align - misalign)

-- `get`: where the object starts, and the offset after it.
pub get : Object → ℕ → ℕ × ℕ
unfolding aligned
get o offset = let start = aligned offset o.align in (start, start + o.size * o.number)

-- `mem_(4096)`.
abbrev pub memory_size : ℕ
memory_size = 4096

abbrev pub slots_number : ℕ
slots_number = 32

abbrev pub pids : Object
pids = record { align = 4; size = 4; number = slots_number }

abbrev pub atomic_bool : Object
atomic_bool = record { align = 1; size = 1; number = 1 }

abbrev pub atomic_uint64 : Object
atomic_uint64 = record { align = 8; size = 8; number = 1 }

-- Where the constructor of `SignalHandler` puts the lock and the slots of the terminator, the
-- `terminated` flag and the two event counters, and the offset after them.
pub record Placed : Type 0 where
  pub lock : ℕ
  pub slots : ℕ
  pub terminated : ℕ
  pub log_rotate_event : ℕ
  pub stat_event : ℕ
  pub end : ℕ

-- The lock is an `interprocess_mutex`, whose alignment and size are parameters.
pub place : Object → Placed
unfolding get
place mutex =
    let lock = get mutex 0 in
    let slots = get pids lock.1 in
    let terminated = get atomic_bool slots.1 in
    let log_rotate_event = get atomic_uint64 terminated.1 in
    let stat_event = get atomic_uint64 log_rotate_event.1 in
    record {
      lock = lock.0;
      slots = slots.0;
      terminated = terminated.0;
      log_rotate_event = log_rotate_event.0;
      stat_event = stat_event.0;
      end = stat_event.1;
    }
