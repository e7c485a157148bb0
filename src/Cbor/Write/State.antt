-- ===== src/Cbor/Write/State.antt =====
-- The CBOR sink, class `writer` of include/vcodec/cbor/write.hpp, but for `close`. A call takes the options and the
-- writer's state and returns the new state, or the code of the `encode_error` that it throws.
use v_codec.Base.{
  ℕ, ◌+◌, Bool, true, false, not, ◌&&◌, ◌||◌, Option, none, some, List, [], ◌∷◌, ◌++◌, Bytes,
  length, ltb, leb, if◌then◌else◌, bit_or,
}
use v_codec.Base.Int.{ℤ, pos, negsuc}
use v_codec.Core.Error.{
  Errc, depth_exceeded, invalid_utf8, unsupported_simple_value, Result, ok, err, ◌>>=◌,
}
use v_codec.Core.Utf8.{validate_utf8}
use v_codec.Cbor.Head.{Major, make_head, make_indefinite_head}
use v_codec.Cbor.Options.{Options}

-- `frame::entry`
pub record Entry : Type 0 where
  pub start : ℕ
  pub key_end : ℕ

pub record Frame : Type 0 where
  pub is_map : Bool
  pub buffered : Bool
  pub indefinite : Bool
  pub items : ℕ
  pub body : Bytes
  pub entries : List Entry

-- `frames` has the innermost frame, `frames_.back()`, in front.
pub record Writer : Type 0 where
  pub out : Bytes
  pub frames : List Frame

abbrev pub new_writer : Bytes → Writer
new_writer out = record { out = out; frames = [] }

abbrev pub new_frame : Bool → Bool → Bool → Frame
new_frame is_map buffered indefinite = record {
  is_map = is_map;
  buffered = buffered;
  indefinite = indefinite;
  items = 0;
  body = [];
  entries = [];
}

unfoldable pub push_frame : Bool → Bool → Bool → Writer → Writer
push_frame is_map buffered indefinite w = record w {
  frames = new_frame is_map buffered indefinite ∷ w.frames;
}

-- Appending to `cur()`: the body of the innermost buffered frame, or the output.
unfoldable pub append_frames : List Frame → Bytes → Bytes → Writer
append_frames [] out bs = record { out = out ++ bs; frames = [] }
append_frames (f ∷ fs) out bs =
    let outer = append_frames fs out bs in
    if f.buffered
    then record { out = out; frames = record f { body = f.body ++ bs } ∷ fs }
    else record { out = outer.out; frames = f ∷ outer.frames }

unfoldable pub append : Bytes → Writer → Writer
unfolding append_frames
append bs w = append_frames w.frames w.out bs

abbrev pub put : ℕ → Writer → Writer
put b = append (b ∷ [])

-- The member function `head`.
abbrev pub put_head : Major → ℕ → Writer → Writer
put_head m v = append (make_head m v)

abbrev pub count_item : List Frame → List Frame
count_item [] = []
count_item (f ∷ fs) = record f { items = f.items + 1 } ∷ fs

-- `if (!frames_.empty()) ++frames_.back().items;`
unfoldable pub item : Writer → Writer
item w = record w { frames = count_item w.frames }

-- `check_utf8`
unfoldable pub check_utf8 : Options → Bytes → Writer → Result Errc Writer
check_utf8 o t w =
    if o.validate_utf8
    then elim (validate_utf8 t) [ none ↦ ok w | some bad ↦ err invalid_utf8 ]
    else ok w

-- ---- the sink ----

unfoldable pub null : Writer → Writer
null w = put 0xF6 (item w)

unfoldable pub boolean : Bool → Writer → Writer
boolean b w = put (if b then 0xF5 else 0xF4) (item w)

unfoldable pub uint : ℕ → Writer → Writer
uint u w = put_head Major.uint u (item w)

-- `negative(n)`: the integer -1 - n.
unfoldable pub negative : ℕ → Writer → Writer
negative n w = put_head Major.nint n (item w)

unfoldable pub text : Options → Bytes → Writer → Result Errc Writer
unfolding check_utf8
text o t w = do w' ← check_utf8 o t (item w); ok (append t (put_head Major.text (length t) w'))

unfoldable pub bytes : Bytes → Writer → Writer
bytes b w = append b (put_head Major.bytes (length b) (item w))

-- `tag(t)`: not an item, it prefixes one.
unfoldable pub tag : ℕ → Writer → Writer
tag t w = put_head Major.tag t w

unfoldable pub simple : ℕ → Writer → Result Errc Writer
simple v w =
    if leb 20 v && leb v 31
    then err unsupported_simple_value
    else if ltb v 24
    then ok (put (bit_or 0xE0 v) (item w))
    else ok (put v (put 0xF8 (item w)))

abbrev pub begin_entry : List Frame → List Frame
begin_entry [] = []
begin_entry (f ∷ fs) =
    if f.buffered
    then record f { entries = f.entries ++ record { start = length f.body; key_end = 0 } ∷ [] } ∷ fs
    else f ∷ fs

-- `back().key_end = n`
abbrev pub set_key_end : ℕ → List Entry → List Entry
set_key_end n [] = []
set_key_end n (e ∷ []) = record e { key_end = n } ∷ []
set_key_end n (e ∷ e' ∷ es) = e ∷ set_key_end n (e' ∷ es)

abbrev pub end_entry : List Frame → List Frame
end_entry [] = []
end_entry (f ∷ fs) =
    if f.buffered then record f { entries = set_key_end (length f.body) f.entries } ∷ fs else f ∷ fs

-- `key_start` and `key_end` read `frames_.back()`: the program calls them inside a map only.
unfoldable pub key_start : Writer → Writer
key_start w = record w { frames = begin_entry w.frames }

unfoldable pub key_end : Writer → Writer
key_end w = record w { frames = end_entry w.frames }

-- `key(std::string_view)`, `key(std::uint64_t)`, and the negative case of `key(std::int64_t)`.
unfoldable pub key_text : Options → Bytes → Writer → Result Errc Writer
unfolding key_start key_end check_utf8
key_text o k w = do
  w' ← check_utf8 o k (key_start w)
  ok (key_end (append k (put_head Major.text (length k) w')))

unfoldable pub key_uint : ℕ → Writer → Writer
unfolding key_start key_end
key_uint k w = key_end (put_head Major.uint k (key_start w))

unfoldable pub key_negative : ℕ → Writer → Writer
unfolding key_start key_end
key_negative n w = key_end (put_head Major.nint n (key_start w))

-- `sint(std::int64_t)` and `key(std::int64_t)` branch on the sign.
unfoldable pub sint : ℤ → Writer → Writer
sint (pos n) w = uint n w
sint (negsuc n) w = negative n w

unfoldable pub key_sint : ℤ → Writer → Writer
key_sint (pos n) w = key_uint n w
key_sint (negsuc n) w = key_negative n w

-- The member function `open`, with the size if it is known. Under `deterministic`, maps are
-- buffered to be sorted, and arrays of unknown size to be counted.
abbrev pub open_definite : Major → ℕ → Bool → Writer → Writer
open_definite m k is_map w = push_frame is_map false false (put_head m k w)

abbrev pub open_indefinite : Major → Bool → Writer → Writer
open_indefinite m is_map w = push_frame is_map false true (append (make_indefinite_head m) w)

unfoldable pub open_container : Options → Major → Option ℕ → Bool → Writer → Result Errc Writer
unfolding push_frame
open_container o m n is_map w =
    if leb o.max_depth (length w.frames)
    then err depth_exceeded
    else if o.deterministic
    then (elim n [
      | none ↦ ok (push_frame is_map true false w)
      | some k ↦
          if is_map then ok (push_frame is_map true false w) else ok (open_definite m k is_map w)
    ])
    else (elim n [
      | none ↦ ok (open_indefinite m is_map w)
      | some k ↦
          if o.indefinite then ok (open_indefinite m is_map w) else ok (open_definite m k is_map w)
    ])

unfoldable pub begin_array : Options → Option ℕ → Writer → Result Errc Writer
unfolding open_container
begin_array o n w = open_container o Major.array n false (item w)

unfoldable pub begin_map : Options → Option ℕ → Writer → Result Errc Writer
unfolding open_container
begin_map o n w = open_container o Major.map n true (item w)

-- `begin_map_ordered`: the members of a struct arrive in canonical order and are not buffered.
unfoldable pub begin_map_ordered : Options → Option ℕ → Writer → Result Errc Writer
unfolding open_container
begin_map_ordered o none w = open_container o Major.map none true (item w)
begin_map_ordered o (some n) w =
    if o.deterministic || not o.indefinite
    then (if leb o.max_depth (length (item w).frames)
        then err depth_exceeded
        else ok (open_definite Major.map n true (item w)))
    else open_container o Major.map (some n) true (item w)
