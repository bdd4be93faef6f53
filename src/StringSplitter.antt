-- ===== src/StringSplitter.antt =====
-- src/main/cpp/it/d4np/util/string_splitter.hpp: `StringSplitter` and its iterator, over the bytes of
-- the text and of the delimiter.
pub mod Search
pub mod Laws
mod Tests
use egl_utils_cpp.Prelude.{
  ℕ, zero, suc, ◌+◌, ◌-◌, Bool, true, false, ◌&&◌, Option, none, some, List, [], ◌∷◌, length, take,
  drop, ◌==◌, if◌then◌else◌, add_size,
}

-- Whether `d` stands at the front.
pub starts_with : List ℕ → List ℕ → Bool
starts_with [] t = true
starts_with (a ∷ d) [] = false
starts_with (a ∷ d) (b ∷ t) = let rest = starts_with d t in a == b && rest

pub shifted : ℕ → Option ℕ → Option ℕ
shifted n none = none
shifted n (some k) = some (n + k)

-- How many bytes stand before the first occurrence of `d`.
pub offset_of : List ℕ → List ℕ → Option ℕ
offset_of d [] = if starts_with d [] then some 0 else none
offset_of d (c ∷ t) =
    let rest = offset_of d t in if starts_with d (c ∷ t) then some 0 else shifted 1 rest

-- `text.find(d, cursor)` for a cursor inside the text; `none` is `npos`.
pub find : List ℕ → List ℕ → ℕ → Option ℕ
unfolding shifted
find text d cursor = shifted cursor (offset_of d (drop cursor text))

pub record Iterator : Type 0 where
  pub text : List ℕ
  pub delimiter : List ℕ
  pub current : List ℕ
  pub cursor : ℕ
  pub final : Bool
  pub done : Bool

pub advance_to : Iterator → Option ℕ → Iterator
advance_to it none = record it { current = drop it.cursor it.text; final = true }
advance_to it (some pos) = record it {
  current = take (pos - it.cursor) (drop it.cursor it.text);
  cursor = add_size pos (length it.delimiter);
}

pub advance : Iterator → Iterator
unfolding advance_to
advance it =
    let next = advance_to it (find it.text it.delimiter it.cursor) in
    if it.final then record it { done = true; current = [] } else next

-- The iterator's constructor, up to its call of `advance`.
abbrev pub at_cursor : List ℕ → List ℕ → List ℕ → ℕ → Iterator
at_cursor text delimiter current cursor = record {
  text = text;
  delimiter = delimiter;
  current = current;
  cursor = cursor;
  final = false;
  done = false;
}

pub begin : List ℕ → List ℕ → Iterator
unfolding advance
begin text delimiter = advance (at_cursor text delimiter [] 0)

-- A loop over the range; the fuel counts rounds, and a comparison with `end()` is a test of `done`.
pub tokens : ℕ → Iterator → List (List ℕ)
tokens zero it = []
tokens (suc fuel) it =
    let rest = tokens fuel (advance it) in if it.done then [] else it.current ∷ rest
