-- ===== src/ReaderWriterLock/Tests.antt =====
-- A writer holds the lock, another and a reader come to wait, and the first lets go.
use egl_utils_cpp.Prelude.{◌+◌, ◌≤◌, ◌<◌, ◌≡◌, refl, false, some, arith}
use egl_utils_cpp.ReaderWriterLock.System.{
  System, start, call_lock, call_lock_shared, call_unlock, notify_writer, step, Reach, here, next,
}
use egl_utils_cpp.ReaderWriterLock.Safety.{mutual_exclusion}
use egl_utils_cpp.ReaderWriterLock.Wakeup.{no_lost_wakeup, writer_preference}

abbrev released : System
released = record {
  lock = record { active_readers = 0; waiting_writers = 1; writer_active = false };
  idle = 0;
  writers_asleep = 1;
  writers_woken = 0;
  writing = 0;
  readers_asleep = 1;
  readers_woken = 0;
  reading = 0;
  notifying_writer = 1;
  notifying_readers = 0;
}

Reach-released : Reach (start 3) released
unfolding step
Reach-released =
    next call_unlock (next call_lock_shared (next call_lock (next call_lock here refl) refl) refl)
      refl

mutual_exclusion_example : (released.writing ≤ 1) × (0 < released.writing → released.reading ≡ 0)
mutual_exclusion_example = mutual_exclusion (omega arith) Reach-released

no_lost_wakeup_example :
    (released.writing ≡ 0
      → released.reading ≡ 0
      → 0 < released.writers_asleep
      → 0 < released.writers_woken + released.notifying_writer)
    × (released.writing ≡ 0
        → released.writers_asleep + released.writers_woken ≡ 0
        → 0 < released.readers_asleep
        → 0 < released.notifying_readers)
no_lost_wakeup_example = no_lost_wakeup (omega arith) Reach-released

abbrev notified : System
notified = record released { idle = 1; writers_asleep = 0; writers_woken = 1; notifying_writer = 0 }

step-released : step notify_writer released ≡ some notified
unfolding step
step-released = refl

writer_preference_example : notified.reading ≤ released.reading
writer_preference_example =
    writer_preference notify_writer (omega arith) Reach-released (omega arith) step-released
