-- ===== src/ReaderWriterLock/Wakeup.antt =====
-- No wakeup is lost: whoever could go on is awake, or is about to be notified; and a waiting writer
-- keeps new readers out.
use egl_utils_cpp.Prelude.{ℕ, ◌+◌, ◌≤◌, ◌<◌, ◌≡◌, true, some, arith, max_size}
use egl_utils_cpp.ReaderWriterLock.{writer_turn, readers_allowed}
use egl_utils_cpp.ReaderWriterLock.System.{System, start, Move, call_lock, step, Reach, here, next}
use egl_utils_cpp.ReaderWriterLock.Safety.{IsSafe, Reach-IsSafe}

pub record IsAwake (s : System) : Type 0 where
  pub writer_comes :
      writer_turn s.lock ≡ true → 0 < s.writers_asleep → 0 < s.writers_woken + s.notifying_writer
  pub readers_come : readers_allowed s.lock ≡ true → 0 < s.readers_asleep → 0 < s.notifying_readers

step-IsAwake :
    {threads : ℕ} (m : Move) {s t : System}
    → threads ≤ max_size
    → IsSafe threads s
    → IsAwake s
    → step m s ≡ some t
    → IsAwake t
unfolding step
step-IsAwake call_lock h v a e = ground arith
step-IsAwake _ h v a e = ground arith

Reach-IsAwake :
    {threads : ℕ} {s : System} → threads ≤ max_size → Reach (start threads) s → IsAwake s
Reach-IsAwake h here = ground arith
Reach-IsAwake h (next m r e) = step-IsAwake m h (Reach-IsSafe h r) (Reach-IsAwake h r) e

-- However the calls of at most `max_size` threads interleave: where the lock is free and a writer
-- sleeps, another writer is awake or a `notify_one` is on its way; and where no thread holds the
-- lock for writing, no writer waits and a reader sleeps, a `notify_all` is on its way.
pub no_lost_wakeup :
    {threads : ℕ} {s : System}
    → threads ≤ max_size
    → Reach (start threads) s
    → (s.writing ≡ 0
        → s.reading ≡ 0
        → 0 < s.writers_asleep
        → 0 < s.writers_woken + s.notifying_writer)
      × (s.writing ≡ 0
          → s.writers_asleep + s.writers_woken ≡ 0
          → 0 < s.readers_asleep
          → 0 < s.notifying_readers)
no_lost_wakeup h r = let v = Reach-IsSafe h r in let a = Reach-IsAwake h r in ground arith

-- Writer preference, for at most `max_size` threads: from any state that they reach, while a writer
-- waits, no move of any thread lets a reader in.
pub writer_preference :
    {threads : ℕ} (m : Move) {s t : System}
    → threads ≤ max_size
    → Reach (start threads) s
    → 0 < s.writers_asleep + s.writers_woken
    → step m s ≡ some t
    → t.reading ≤ s.reading
unfolding step
writer_preference call_lock h r w e = let v = Reach-IsSafe h r in ground arith
writer_preference _ h r w e = let v = Reach-IsSafe h r in ground arith
