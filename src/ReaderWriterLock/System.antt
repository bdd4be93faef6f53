-- ===== src/ReaderWriterLock/System.antt =====
-- Any number of threads that share a `ReaderWriterLock`: each member is the critical sections and the
-- notification that it makes, in any interleaving. Threads of one phase are interchangeable, so the
-- system counts them.
use egl_utils_cpp.Prelude.{ℕ, ◌+◌, ◌-◌, ◌≡◌, Option, none, some, ltb, if◌then◌else◌}
use egl_utils_cpp.ReaderWriterLock.{
  ReaderWriterLock, unlocked, writer_turn, readers_allowed, await_write, take_write, give_up_write,
  try_lock, unlock, take_read, try_lock_shared, unlock_shared,
}

-- The threads outside the lock, asleep on a condition variable, woken and about to test the
-- predicate again, holding the lock, or between an unlock and its notification.
pub record System : Type 0 where
  pub lock : ReaderWriterLock
  pub open lock use *
  pub idle : ℕ
  pub writers_asleep : ℕ
  pub writers_woken : ℕ
  pub writing : ℕ
  pub readers_asleep : ℕ
  pub readers_woken : ℕ
  pub reading : ℕ
  pub notifying_writer : ℕ
  pub notifying_readers : ℕ

abbrev pub start : ℕ → System
start threads = record {
  lock = unlocked;
  idle = threads;
  writers_asleep = 0;
  writers_woken = 0;
  writing = 0;
  readers_asleep = 0;
  readers_woken = 0;
  reading = 0;
  notifying_writer = 0;
  notifying_readers = 0;
}

-- What one thread does next, from one point where it holds no mutex to the next.
pub data Move : Type 0 where
  -- `lock`, `try_lock_for`, `try_lock_until`: into the critical section, to the lock or to sleep
  call_lock : Move
  -- a sleeping writer or reader wakes without a notification, or at its deadline
  writer_wakes reader_wakes : Move
  -- a woken writer or reader tests the predicate, and takes the lock or sleeps again
  writer_tests reader_tests : Move
  -- ... or, past its deadline, takes the lock or gives up
  writer_times_out reader_times_out : Move
  call_try_lock call_unlock : Move
  call_lock_shared call_try_lock_shared call_unlock_shared : Move
  -- `notify_one` on `writer_turn_`, `notify_all` on `readers_allowed_`
  notify_writer notify_readers : Move

-- `none` where no thread is at that point.
abbrev when : ℕ → System → Option System
when threads t = if ltb 0 threads then some t else none

unfoldable pub step : Move → System → Option System
unfolding await_write take_write give_up_write try_lock unlock take_read try_lock_shared
    unlock_shared
step call_lock s =
    let l = await_write s.lock in
    when s.idle (
      if writer_turn l
      then record s { lock = take_write l; idle = s.idle - 1; writing = s.writing + 1 }
      else record s { lock = l; idle = s.idle - 1; writers_asleep = s.writers_asleep + 1 })
step writer_wakes s =
    when s.writers_asleep
      (record s { writers_asleep = s.writers_asleep - 1; writers_woken = s.writers_woken + 1 })
step writer_tests s = when s.writers_woken (
    if writer_turn s.lock
    then record s {
      lock = take_write s.lock;
      writers_woken = s.writers_woken - 1;
      writing = s.writing + 1;
    }
    else record s { writers_woken = s.writers_woken - 1; writers_asleep = s.writers_asleep + 1 })
step writer_times_out s =
    let (wake_readers, l) = give_up_write s.lock in
    when s.writers_woken (
      if writer_turn s.lock
      then record s {
        lock = take_write s.lock;
        writers_woken = s.writers_woken - 1;
        writing = s.writing + 1;
      }
      else if wake_readers
      then record s {
        lock = l;
        writers_woken = s.writers_woken - 1;
        notifying_readers = s.notifying_readers + 1;
      }
      else record s { lock = l; writers_woken = s.writers_woken - 1; idle = s.idle + 1 })
step call_try_lock s =
    let (taken, l) = try_lock s.lock in
    when s.idle
      (if taken then record s { lock = l; idle = s.idle - 1; writing = s.writing + 1 } else s)
step call_unlock s =
    let (writers_waiting, l) = unlock s.lock in
    when s.writing (
      if writers_waiting
      then record s { lock = l; writing = s.writing - 1; notifying_writer = s.notifying_writer + 1 }
      else record s {
        lock = l;
        writing = s.writing - 1;
        notifying_readers = s.notifying_readers + 1;
      })
step call_lock_shared s = when s.idle (
    if readers_allowed s.lock
    then record s { lock = take_read s.lock; idle = s.idle - 1; reading = s.reading + 1 }
    else record s { idle = s.idle - 1; readers_asleep = s.readers_asleep + 1 })
step reader_wakes s =
    when s.readers_asleep
      (record s { readers_asleep = s.readers_asleep - 1; readers_woken = s.readers_woken + 1 })
step reader_tests s = when s.readers_woken (
    if readers_allowed s.lock
    then record s {
      lock = take_read s.lock;
      readers_woken = s.readers_woken - 1;
      reading = s.reading + 1;
    }
    else record s { readers_woken = s.readers_woken - 1; readers_asleep = s.readers_asleep + 1 })
step reader_times_out s = when s.readers_woken (
    if readers_allowed s.lock
    then record s {
      lock = take_read s.lock;
      readers_woken = s.readers_woken - 1;
      reading = s.reading + 1;
    }
    else record s { readers_woken = s.readers_woken - 1; idle = s.idle + 1 })
step call_try_lock_shared s =
    let (taken, l) = try_lock_shared s.lock in
    when s.idle
      (if taken then record s { lock = l; idle = s.idle - 1; reading = s.reading + 1 } else s)
step call_unlock_shared s =
    let (wake_writer, l) = unlock_shared s.lock in
    when s.reading (
      if wake_writer
      then record s { lock = l; reading = s.reading - 1; notifying_writer = s.notifying_writer + 1 }
      else record s { lock = l; reading = s.reading - 1; idle = s.idle + 1 })
step notify_writer s = when s.notifying_writer (
    if ltb 0 s.writers_asleep
    then record s {
      notifying_writer = s.notifying_writer - 1;
      idle = s.idle + 1;
      writers_asleep = s.writers_asleep - 1;
      writers_woken = s.writers_woken + 1;
    }
    else record s { notifying_writer = s.notifying_writer - 1; idle = s.idle + 1 })
step notify_readers s = when s.notifying_readers (record s {
  notifying_readers = s.notifying_readers - 1;
  idle = s.idle + 1;
  readers_asleep = 0;
  readers_woken = s.readers_woken + s.readers_asleep;
})

-- The systems that some interleaving of moves leads to.
pub data Reach (s : System) : System → Type 0 where
  here : Reach s s
  next : {t u : System} (m : Move) → Reach s t → step m t ≡ some u → Reach s u
