-- ===== src/ReaderWriterLock/Safety.antt =====
-- Mutual exclusion: the fields count the threads, and readers and a writer never hold the lock
-- together.
use egl_utils_cpp.Prelude.{ℕ, ◌+◌, ◌≤◌, ◌<◌, ◌≡◌, true, some, arith, if◌then◌else◌, max_size}
use egl_utils_cpp.ReaderWriterLock.System.{System, start, Move, call_lock, step, Reach, here, next}

pub record IsSafe (threads : ℕ) (s : System) : Type 0 where
  pub all_threads :
      s.idle + s.writers_asleep + s.writers_woken + s.writing + s.readers_asleep + s.readers_woken
        + s.reading + s.notifying_writer + s.notifying_readers
      ≡ threads
  pub readers_counted : s.active_readers ≡ s.reading
  pub waiting_counted : s.waiting_writers ≡ s.writers_asleep + s.writers_woken
  pub writer_counted : s.writing ≡ (if s.writer_active then 1 else 0)
  pub exclusive : s.writer_active ≡ true → s.reading ≡ 0

step-IsSafe :
    {threads : ℕ} (m : Move) {s t : System}
    → threads ≤ max_size
    → IsSafe threads s
    → step m s ≡ some t
    → IsSafe threads t
unfolding step
step-IsSafe call_lock h v e = ground arith
step-IsSafe _ h v e = ground arith

start-IsSafe : (threads : ℕ) → IsSafe threads (start threads)
start-IsSafe threads = ground arith

pub Reach-IsSafe :
    {threads : ℕ} {s : System} → threads ≤ max_size → Reach (start threads) s → IsSafe threads s
Reach-IsSafe {threads} h here = start-IsSafe threads
Reach-IsSafe h (next m r e) = step-IsSafe m h (Reach-IsSafe h r) e

-- However the calls of at most `max_size` threads interleave, at most one thread holds the lock for
-- writing, and while one does none holds it for reading.
pub mutual_exclusion :
    {threads : ℕ} {s : System}
    → threads ≤ max_size
    → Reach (start threads) s
    → (s.writing ≤ 1) × (0 < s.writing → s.reading ≡ 0)
mutual_exclusion {s = s} h r = let v = Reach-IsSafe h r in ground arith
