-- ===== src/ObjectPool/World.antt =====
-- A pool with every handle object that its clients have: what each call of the public interface
-- does to them. The mutex makes the calls one after another.
use egl_utils_cpp.Prelude.{
  ℕ, Option, none, some, List, [], ◌∷◌, ◌++◌, get_elem?, set, ◌==◌, if◌then◌else◌,
}
use egl_utils_cpp.ObjectPool.{Handle, ObjectPool, create, try_acquire, release_slot, disengaged}

-- A handle that is gone stays in the list, disengaged.
pub record World : Type 0 where
  pub pool : ObjectPool
  pub handles : List Handle

abbrev pub start : ℕ → World
start capacity = record { pool = create capacity; handles = [] }

pub data Call : Type 0 where
  acquire : Call
  -- `Handle b{std::move(a)}` for the `a` at an index
  move_construct : ℕ → Call
  -- `a = std::move(b)` for the `a` and the `b` at two indices
  move_assign : ℕ → ℕ → Call
  -- `~Handle()` of the handle at an index
  destroy : ℕ → Call

unfoldable pub acquired : World → Option Handle × ObjectPool → World
acquired w (none, p) = record w { pool = p }
acquired w (some h, p) = record { pool = p; handles = w.handles ++ (h ∷ []) }

unfoldable pub constructed : World → ℕ → Option Handle → World
constructed w from none = w
constructed w from (some h) = record w { handles = set w.handles from (disengaged h) ++ (h ∷ []) }

unfoldable pub destroyed : World → ℕ → Option Handle → World
unfolding release_slot
destroyed w at none = w
destroyed w at (some h) =
    let (p, h') = release_slot w.pool h in record { pool = p; handles = set w.handles at h' }

-- The target releases its slot, and takes over from the source.
unfoldable pub take_over : World → ℕ → ℕ → Option Handle → World
take_over w to from none = w
take_over w to from (some h) = record w { handles = set (set w.handles to h) from (disengaged h) }

unfoldable pub assigned : World → ℕ → ℕ → Option Handle → World
unfolding destroyed take_over
assigned w to from none = w
assigned w to from (some target) =
    take_over (destroyed w to (some target)) to from (get_elem? w.handles from)

unfoldable pub call : Call → World → World
unfolding acquired constructed assigned destroyed
call acquire w = acquired w (try_acquire w.pool)
call (move_construct from) w = constructed w from (get_elem? w.handles from)
call (move_assign to from) w = if to == from then w else elim (get_elem? w.handles from) [
  | none ↦ w
  | some h ↦ assigned w to from (get_elem? w.handles to)
]
call (destroy at) w = destroyed w at (get_elem? w.handles at)

unfoldable pub call_all : List Call → World → World
call_all [] w = w
call_all (c ∷ cs) w = call_all cs (call c w)
