-- ===== src/ObjectPool/Ownership.antt =====
-- Every slot of a pool is on the free list once or owned by one handle, whatever the calls.
use native.Mathlib.Numerals.{add-one}
use egl_utils_cpp.Prelude.{
  ℕ, zero, suc, ◌+◌, ◌-◌, ◌≤◌, ◌<◌, ◌≡◌, ◌≢◌, refl, ap, ◌∙◌, true, false, some, List, [], ◌∷◌,
  length, take, get_elem?, get_elem?-eq-some, get_elem?-set_self, get_elem?-set_ne, set, length-set,
  arith, ◌==◌, ltb, Bool-cases, Option-cases, inl, inr,
}
use egl_utils_cpp.ObjectPool.{
  Handle, ObjectPool, create, slots_from, try_acquire, release_slot, disengaged,
}
use egl_utils_cpp.ObjectPool.World.{
  World, start, Call, acquire, move_construct, move_assign, destroy, acquired, constructed,
  destroyed, take_over, assigned, call, call_all,
}
use egl_utils_cpp.ObjectPool.Counts.{
  one_if, occurrences, lent, engaged_count, lent-append, engaged_count-append, lent-set,
  engaged_count-set, occurrences-take-suc, take-set, occurrences-slots_from,
}

pub record IsValid (w : World) : Type 0 where
  pub size : length w.pool.free_slots ≡ w.pool.capacity
  pub counted : w.pool.free_count + engaged_count w.handles ≡ w.pool.capacity
  pub once :
      (i : ℕ)
      → occurrences i (take w.pool.free_count w.pool.free_slots) + lent i w.handles
        ≡ one_if (ltb i w.pool.capacity)

get_elem?-lt : {A : Type 0} (l : List A) (k : ℕ) (x : A) → get_elem? l k ≡ some x → k < length l
get_elem?-lt [] k x e = cc
get_elem?-lt (y ∷ l) zero x e = omega arith
get_elem?-lt (y ∷ l) (suc k) x e = omega (arith, get_elem?-lt l k x e)

engaged-of :
    (l : List Handle) (k : ℕ) (h : Handle)
    → get_elem? l k ≡ some h
    → one_if h.engaged ≤ engaged_count l
engaged-of [] k h e = cc
engaged-of (g ∷ l) zero h e = ground arith
engaged-of (g ∷ l) (suc k) h e = omega (arith, engaged-of l k h e)

acquire-IsValid : {w : World} → IsValid w → IsValid (acquired w (try_acquire w.pool))
unfolding acquired try_acquire
acquire-IsValid {w} v = elim (Bool-cases (w.pool.free_count == 0)) [
  | inl none_left ↦ rw none_left record { size = v.size; counted = v.counted; once = v.once }
  | inr some_left ↦
      let n = w.pool.free_count - 1 in
      let next : w.pool.free_count ≡ suc n = ground arith in
      let (j, e) = get_elem?-eq-some w.pool.free_slots n (ground (arith, v.size, v.counted)) in
      let h : Handle = record { engaged = true; index = j } in
      rw (some_left, e)
        record {
          size = v.size;
          counted = omega (arith, v.counted, engaged_count-append w.handles h);
          once = λ i.
              (let gone = occurrences-take-suc i w.pool.free_slots n j e in
                let before = ap (λ m. occurrences i (take m w.pool.free_slots)) next in
                ground (arith, v.once i, gone, before, lent-append i w.handles h));
        }
]

destroyed-IsValid :
    {w : World} (k : ℕ) (h : Handle)
    → get_elem? w.handles k ≡ some h
    → IsValid w
    → IsValid (destroyed w k (some h))
unfolding destroyed
destroyed-IsValid {w} k h e v = elim (Bool-cases h.engaged) [
  | inl on ↦
      let left = engaged-of w.handles k h e in
      let n = w.pool.free_count in
      let room : n < length w.pool.free_slots = ground (arith, v.size, v.counted) in
      rw on record {
        size = length-set w.pool.free_slots n h.index ∙ v.size;
        counted = ground (arith, v.counted, engaged_count-set w.handles k h (disengaged h) e);
        once = λ i.
            (let back =
                occurrences-take-suc i (set w.pool.free_slots n h.index) n h.index
                  (get_elem?-set_self w.pool.free_slots n h.index room) in
              let same = ap (occurrences i) (take-set w.pool.free_slots n h.index) in
              rw (add-one n)
                (ground (arith, v.once i, back, same, lent-set i w.handles k h (disengaged h) e)));
      }
  | inr off ↦ rw off record {
    size = v.size;
    counted = ground (arith, v.counted, engaged_count-set w.handles k h h e);
    once = λ i. ground (arith, v.once i, lent-set i w.handles k h h e);
  }
]

constructed-IsValid :
    {w : World} (from : ℕ) (h : Handle)
    → get_elem? w.handles from ≡ some h
    → IsValid w
    → IsValid (constructed w from (some h))
unfolding constructed
constructed-IsValid {w} from h e v =
    let moved = set w.handles from (disengaged h) in
    record {
      size = v.size;
      counted = ground (
        arith,
        v.counted,
        engaged_count-set w.handles from h (disengaged h) e,
        engaged_count-append moved h,
      );
      once = λ i.
          ground
            (arith, v.once i, lent-set i w.handles from h (disengaged h) e, lent-append i moved h);
    }

take_over-IsValid :
    {w : World} (to from : ℕ) (target h : Handle)
    → to ≢ from
    → get_elem? w.handles to ≡ some target
    → target.engaged ≡ false
    → get_elem? w.handles from ≡ some h
    → IsValid w
    → IsValid (take_over w to from (some h))
unfolding take_over
take_over-IsValid {w} to from target h ne t off e v =
    let taken = set w.handles to h in
    let e' : get_elem? taken from ≡ some h = get_elem?-set_ne w.handles h ne ∙ e in
    record {
      size = v.size;
      counted = ground (
        arith,
        v.counted,
        engaged_count-set w.handles to target h t,
        engaged_count-set taken from h (disengaged h) e',
      );
      once = λ i. ground (
        arith,
        v.once i,
        lent-set i w.handles to target h t,
        lent-set i taken from h (disengaged h) e',
      );
    }

-- After its slot is released the handle stands at its place, disengaged.
released-handle :
    (p : ObjectPool) (t : Handle)
    → ((release_slot p t).1.engaged ≡ false) × ((release_slot p t).1.index ≡ t.index)
unfolding release_slot
released-handle p t = ground arith

assigned-IsValid :
    {w : World} (to from : ℕ) (target h : Handle)
    → to ≢ from
    → get_elem? w.handles to ≡ some target
    → get_elem? w.handles from ≡ some h
    → IsValid w
    → IsValid (assigned w to from (some target))
unfolding assigned destroyed
assigned-IsValid {w} to from target h ne t e v =
    let gone = (release_slot w.pool target).1 in
    let there = get_elem?-lt w.handles to target t in
    rw e (
      take_over-IsValid to from gone h ne (get_elem?-set_self w.handles to gone there)
        (released-handle w.pool target).0 (get_elem?-set_ne w.handles gone ne ∙ e)
        (destroyed-IsValid to target t v))

move_assign-IsValid : {w : World} (to from : ℕ) → IsValid w → IsValid (call (move_assign to from) w)
unfolding call
move_assign-IsValid {w} to from v = elim (Bool-cases (to == from)) [
  | inl self ↦ rw self v
  | inr other ↦ rw other (elim (Option-cases (get_elem? w.handles from)) [
    | inl no_source ↦ rw no_source v
    | inr (h, e) ↦ rw e (elim (Option-cases (get_elem? w.handles to)) [
      | inl no_target ↦ rw (no_target, assigned) v
      | inr (target, t) ↦ rw t (assigned-IsValid to from target h (ground arith) t e v)
    ])
  ])
]

call-IsValid : (c : Call) {w : World} → IsValid w → IsValid (call c w)
unfolding call
call-IsValid acquire v = acquire-IsValid v
call-IsValid (move_construct from) {w} v = elim (Option-cases (get_elem? w.handles from)) [
  | inl gone ↦ rw (gone, constructed) v
  | inr (h, e) ↦ rw e (constructed-IsValid from h e v)
]
call-IsValid (move_assign to from) v = move_assign-IsValid to from v
call-IsValid (destroy at) {w} v = elim (Option-cases (get_elem? w.handles at)) [
  | inl gone ↦ rw (gone, destroyed) v
  | inr (h, e) ↦ rw e (destroyed-IsValid at h e v)
]

pub call_all-IsValid : (cs : List Call) {w : World} → IsValid w → IsValid (call_all cs w)
unfolding call_all
call_all-IsValid [] v = v
call_all-IsValid (c ∷ cs) v = call_all-IsValid cs (call-IsValid c v)

length-slots_from : (from n : ℕ) → length (slots_from from n) ≡ n
unfolding slots_from
length-slots_from from zero = refl
length-slots_from from (suc n) = ap suc (length-slots_from (from + 1) n)

take-all : (l : List ℕ) (n : ℕ) → length l ≡ n → take n l ≡ l
take-all [] zero h = refl
take-all [] (suc n) h = refl
take-all (x ∷ l) zero h = absurd (omega arith)
take-all (x ∷ l) (suc n) h = ap (λ t. x ∷ t) (take-all l n (omega arith))

pub start-IsValid : (capacity : ℕ) → IsValid (start capacity)
unfolding create
start-IsValid capacity =
    let size = length-slots_from 0 capacity in
    record {
      size = size;
      counted = omega arith;
      once = λ i.
          rw (take-all (slots_from 0 capacity) capacity size)
            (ground (arith, occurrences-slots_from i 0 capacity));
    }
