-- ===== src/ReaderWriterLock.antt =====
-- src/main/cpp/it/d4np/util/reader_writer_lock.hpp: `ReaderWriterLock`. Each critical section under
-- the mutex is one function on the fields that the mutex guards; `System` has the threads that call
-- them.
pub mod System
pub mod Safety
pub mod Wakeup
mod Tests
use egl_utils_cpp.Prelude.{
  ℕ, Bool, true, false, not, ◌&&◌, ◌||◌, ltb, ◌==◌, if◌then◌else◌, add_size, sub_size,
}

pub record ReaderWriterLock : Type 0 where
  pub active_readers : ℕ
  pub waiting_writers : ℕ
  pub writer_active : Bool

abbrev pub unlocked : ReaderWriterLock
unlocked = record { active_readers = 0; waiting_writers = 0; writer_active = false }

-- The predicate of the waits on `writer_turn_`.
abbrev pub writer_turn : ReaderWriterLock → Bool
writer_turn l = not l.writer_active && l.active_readers == 0

-- The predicate of the waits on `readers_allowed_`.
abbrev pub readers_allowed : ReaderWriterLock → Bool
readers_allowed l = not l.writer_active && l.waiting_writers == 0

-- `lock` and `writer_wait` up to the wait.
pub await_write : ReaderWriterLock → ReaderWriterLock
await_write l = record l { waiting_writers = add_size l.waiting_writers 1 }

-- `lock` and `writer_wait` from the end of a wait whose predicate holds.
pub take_write : ReaderWriterLock → ReaderWriterLock
take_write l = record l { waiting_writers = sub_size l.waiting_writers 1; writer_active = true }

-- `writer_wait` from a timeout at which the predicate does not hold, with `wake_readers`.
pub give_up_write : ReaderWriterLock → Bool × ReaderWriterLock
give_up_write l =
    let waiting_writers = sub_size l.waiting_writers 1 in
    (waiting_writers == 0 && not l.writer_active, record l { waiting_writers = waiting_writers })

pub try_lock : ReaderWriterLock → Bool × ReaderWriterLock
try_lock l =
    if l.writer_active || ltb 0 l.active_readers
    then (false, l)
    else (true, record l { writer_active = true })

-- With `writers_waiting`.
pub unlock : ReaderWriterLock → Bool × ReaderWriterLock
unlock l = (ltb 0 l.waiting_writers, record l { writer_active = false })

-- `lock_shared` and its timed forms from the end of a wait whose predicate holds.
pub take_read : ReaderWriterLock → ReaderWriterLock
take_read l = record l { active_readers = add_size l.active_readers 1 }

pub try_lock_shared : ReaderWriterLock → Bool × ReaderWriterLock
unfolding take_read
try_lock_shared l =
    if l.writer_active || ltb 0 l.waiting_writers then (false, l) else (true, take_read l)

-- With `wake_writer`.
pub unlock_shared : ReaderWriterLock → Bool × ReaderWriterLock
unlock_shared l =
    let active_readers = sub_size l.active_readers 1 in
    (active_readers == 0 && ltb 0 l.waiting_writers, record l { active_readers = active_readers })
