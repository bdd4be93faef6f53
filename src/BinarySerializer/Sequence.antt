-- ===== src/BinarySerializer/Sequence.antt =====
-- A sequence of writes against the wire format, with and without room for all of them.
use egl_utils_cpp.Prelude.{
  ℕ, ◌+◌, ◌-◌, ◌≤◌, ◌<◌, ◌≡◌, refl, sym, ap, ◌∙◌, Bool, true, false, List, [], ◌∷◌, ◌++◌, ◌||◌, not,
  length, arith, leb, drop, drop-drop, Bool-cases, inl, inr, append_assoc, append-nil,
}
use egl_utils_cpp.BinarySerializer.{BinarySerializer, written}
use egl_utils_cpp.BinarySerializer.Bytes.{Endian}
use egl_utils_cpp.BinarySerializer.Wire.{
  Field, wire, wire_all, field_size, accepted, verdicts, all_true, length-wire,
}
use egl_utils_cpp.BinarySerializer.Write.{
  IsValid, room, appended, appended_lem, write_all, write_field-fits, write_field-full,
}

-- What the writes of `fs` have done when they end.
pub record Wrote (s : BinarySerializer) (fs : List Field) (answers : List Bool)
    (t : BinarySerializer) : Type 0 where
  pub answered : answers ≡ verdicts (room s) fs
  pub bytes : written t ≡ written s ++ wire_all s.order (accepted (room s) fs)
  pub latched : t.overflowed ≡ (s.overflowed || not (all_true answers))
  pub beyond : drop t.pos t.buffer ≡ drop t.pos s.buffer
  pub onward : s.pos ≤ t.pos
  pub size_kept : length t.buffer ≡ length s.buffer
  pub order_kept : t.order ≡ s.order
  pub valid : IsValid t

drop_past : (m n : ℕ) (xs ys : List ℕ) → m ≤ n → drop m xs ≡ drop m ys → drop n xs ≡ drop n ys
drop_past m n xs ys h e =
    let split : n ≡ m + (n - m) = omega arith in
    rw split (sym (drop-drop m (n - m) xs) ∙ ap (drop (n - m)) e ∙ drop-drop m (n - m) ys)

appended-IsValid :
    {s : BinarySerializer} (f : Field)
    → IsValid s
    → field_size f ≤ room s
    → IsValid (appended s (wire s.order f))
appended-IsValid {s} f v h =
    let l = length-wire s.order f in
    let (_, _, size) = appended_lem (wire s.order f) v (omega arith) in
    record { small = omega arith; pos_in = omega arith }

overflowed-IsValid : {s : BinarySerializer} → IsValid s → IsValid (record s { overflowed = true })
overflowed-IsValid v = record { small = v.small; pos_in = v.pos_in }

or-true : (a : Bool) → true ≡ (a || true)
or-true true = refl
or-true false = refl

or-false : (a : Bool) → a ≡ (a || false)
or-false true = refl
or-false false = refl

-- A write that fits, before the rest.
Wrote-kept :
    {s : BinarySerializer} (f : Field) (fs : List Field) (answers : List Bool)
    (t : BinarySerializer)
    → IsValid s
    → field_size f ≤ room s
    → Wrote (appended s (wire s.order f)) fs answers t
    → Wrote s (f ∷ fs) (true ∷ answers) t
unfolding wire_all accepted verdicts
Wrote-kept {s} f fs answers t v h w =
    let l = length-wire s.order f in
    let (put, past, size) = appended_lem (wire s.order f) v (omega arith) in
    let fits : leb (field_size f) (room s) ≡ true = ground arith in
    let left : room (appended s (wire s.order f)) ≡ room s - field_size f = omega arith in
    record {
      answered = rw fits (ap (λ r. true ∷ r) (rw left at w.answered));
      bytes = rw fits (w.bytes ∙ rw (left, put, append_assoc));
      latched = w.latched;
      beyond = w.beyond ∙ drop_past (s.pos + length (wire s.order f)) t.pos _ _ w.onward past;
      onward = omega arith;
      size_kept = w.size_kept ∙ size;
      order_kept = w.order_kept;
      valid = w.valid;
    }

-- A write that does not fit, before the rest.
Wrote-left :
    {s : BinarySerializer} (f : Field) (fs : List Field) (answers : List Bool)
    (t : BinarySerializer)
    → room s < field_size f
    → Wrote (record s { overflowed = true }) fs answers t
    → Wrote s (f ∷ fs) (false ∷ answers) t
unfolding accepted verdicts
Wrote-left {s} f fs answers t h w =
    let full : leb (field_size f) (room s) ≡ false = ground arith in
    record {
      answered = rw full (ap (λ r. false ∷ r) w.answered);
      bytes = rw full w.bytes;
      latched = w.latched ∙ or-true s.overflowed;
      beyond = w.beyond;
      onward = w.onward;
      size_kept = w.size_kept;
      order_kept = w.order_kept;
      valid = w.valid;
    }

-- From a valid serializer the writes answer as the sizes and the room decide, append in wire order
-- exactly the fields that fit, latch `overflowed` exactly if one did not, and touch no byte beyond.
pub write_all-Wrote :
    (native : Endian) (fs : List Field) {s : BinarySerializer}
    → IsValid s
    → let (answers, t) = write_all native s fs in Wrote s fs answers t
unfolding write_all wire_all accepted verdicts
write_all-Wrote native [] {s} v = record {
  answered = refl;
  bytes = sym (append-nil (written s));
  latched = or-false s.overflowed;
  beyond = refl;
  onward = omega arith;
  size_kept = refl;
  order_kept = refl;
  valid = v;
}
write_all-Wrote native (f ∷ fs) {s} v = elim (Bool-cases (leb (field_size f) (room s))) [
  | inl fits ↦ rw (write_field-fits native f v (ground arith)) (
      Wrote-kept f fs _ _ v (ground arith)
        (write_all-Wrote native fs (appended-IsValid f v (ground arith))))
  | inr full ↦
      rw (write_field-full native f v (ground arith))
        (Wrote-left f fs _ _ (ground arith) (write_all-Wrote native fs (overflowed-IsValid v)))
]
