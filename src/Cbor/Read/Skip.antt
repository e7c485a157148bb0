-- ===== src/Cbor/Read/Skip.antt =====
-- `skip_value` of include/vcodec/cbor/read.hpp: the generic validator, with its own stack.
pub mod Steps
pub mod Items
pub mod Containers
pub mod Leaves
pub mod Brackets
pub mod Fits
pub mod Accepts
use v_codec.Base.{
  ℕ, zero, suc, ◌+◌, ◌-◌, ◌*◌, ◌%◌, ◌^◌, Bool, true, false, not, ◌||◌, ◌&&◌, Option, none, some,
  List, [], ◌∷◌, ◌++◌, Bytes, length, drop, take, ltb, leb, ◌==◌, if◌then◌else◌,
}
use v_codec.Core.Error.{
  Errc, Error, Result, ok, err, truncated, malformed_item, invalid_utf8, non_deterministic,
  depth_exceeded,
}
use v_codec.Core.Utf8.{validate_utf8}
use v_codec.Cbor.Head.{Major, major_eq, ParsedHead, parse_head, break_byte}
use v_codec.Cbor.Options.{Options}
use v_codec.Cbor.Read.State.{
  Reader, Call, error, advance, is_break_at, check_head_deterministic, key_order_error,
}
use v_codec.Cbor.Read.Strings.{Span, subspan, read_string}

-- The local `struct level`.
pub record Level : Type 0 where
  pub is_map : Bool
  pub remaining : Option ℕ
  pub key_next : Bool
  pub key_start : ℕ
  pub prev_start : ℕ
  pub prev_end : ℕ
  pub in_key : Bool
  pub have_prev : Bool

abbrev pub new_level : Bool → Option ℕ → Level
new_level is_map remaining = record {
  is_map = is_map;
  remaining = remaining;
  key_next = true;
  key_start = 0;
  prev_start = 0;
  prev_end = 0;
  in_key = false;
  have_prev = false;
}

-- What a round of the loop comes to: another round, a return, or an error. `stack` has its
-- `back()` in front.
pub data Next : Type 0 where
  go : Reader → List Level → Next
  done : Reader → Next
  failed : Error → Reader → Next

-- The key of a map is complete: its order against the key before it, when that is required.
unfoldable pub check_key : Options → Bytes → Level → Reader → Option Error
check_key o in' top r =
    if o.require_deterministic && (top.is_map && (top.key_next && top.have_prev))
    then key_order_error (subspan in' top.key_start (r.pos - top.key_start))
        (subspan in' top.prev_start (top.prev_end - top.prev_start)) top.key_start
    else none

unfoldable pub close_key : Options → Level → Reader → Level
close_key o top r =
    if o.require_deterministic && (top.is_map && top.key_next)
    then record top {
      prev_start = top.key_start;
      prev_end = r.pos;
      have_prev = true;
      in_key = false;
    }
    else top

abbrev pub toggle_key : Level → Level
toggle_key top = if top.is_map then record top { key_next = not top.key_next } else top

abbrev pub or_failed : Option Error → Reader → Next → Next
or_failed none r next = next
or_failed (some e) r next = failed e r

-- `if (top.remaining) …` with what the containers further out come to; the count is in 64 bits.
abbrev pub count_down : Option ℕ → Level → List Level → Reader → Next → Next
count_down none top rest r outer = go r (top ∷ rest)
count_down (some n) top rest r outer =
    if (n + 2 ^ 64 - 1) % 2 ^ 64 == 0
    then outer
    else go r (record top { remaining = some ((n + 2 ^ 64 - 1) % 2 ^ 64) } ∷ rest)

-- The label `item_done`: an item ended, and with it the containers that it was the last item of.
unfoldable pub item_done : Options → Bytes → Reader → List Level → Next
item_done o in' r [] = done r
item_done o in' r (top ∷ rest) =
    let outer = item_done o in' (record r { depth = r.depth - 1 }) rest in
    or_failed (check_key o in' top r) r
      (count_down top.remaining (toggle_key (close_key o top r)) rest r outer)

-- At the start of a round, deterministic mode notes where a key begins.
unfoldable pub note_key : Options → Reader → List Level → List Level
note_key o r [] = []
note_key o r (top ∷ rest) =
    if o.require_deterministic && (top.is_map && (top.key_next && not top.in_key))
    then record top { key_start = r.pos; in_key = true } ∷ rest
    else top ∷ rest

-- A break byte.
unfoldable pub skip_break : Options → Bytes → Reader → List Level → Next
skip_break o in' r [] = failed (record { code = malformed_item; offset = r.pos }) r
skip_break o in' r (top ∷ rest) = elim top.remaining [
  | some n ↦ failed (record { code = malformed_item; offset = r.pos }) r
  | none ↦
      if top.is_map && not top.key_next
      then failed (record { code = malformed_item; offset = r.pos }) r
      else item_done o in' (record r { pos = r.pos + 1; depth = r.depth - 1 }) rest
]

-- The bytes of a text string must be UTF-8: `at` is where its head stands.
unfoldable pub check_skipped_text : Options → ParsedHead → ℕ → Span → Option Error
check_skipped_text o h at s =
    if o.validate_utf8 && major_eq h.mt Major.text
    then (elim (validate_utf8 s.content) [
      | none ↦ none
      | some bad ↦
          some (record {
            code = invalid_utf8;
            offset = if s.assembled then at else at + h.length + bad;
          })
    ])
    else none

abbrev pub after_string :
    Options → Bytes → ParsedHead → ℕ → List Level → Result Error Span × Reader → Next
after_string o in' h at stack (err e, r) = failed e r
after_string o in' h at stack (ok s, r) =
    or_failed (check_skipped_text o h at s) r (item_done o in' r stack)

-- The head of an array or a map, with the size of a map doubled in 64 bits.
unfoldable pub skip_container : Options → Bytes → ParsedHead → Reader → List Level → Next
skip_container o in' h r stack =
    let is_map = major_eq h.mt Major.map in
    let r' = record r { pos = r.pos + h.length; depth = r.depth + 1 } in
    if leb o.max_depth r.depth
    then failed (record { code = depth_exceeded; offset = r.pos }) r
    else if h.indefinite
    then go r' (new_level is_map none ∷ stack)
    else if h.value == 0
    then item_done o in' (advance h.length r) stack
    else go r' (new_level is_map (some (if is_map then h.value * 2 % 2 ^ 64 else h.value)) ∷ stack)

unfoldable pub skip_tag : Bytes → ParsedHead → Reader → List Level → Next
skip_tag in' h r stack =
    let r' = advance h.length r in
    if leb (length in') r'.pos
    then failed (record { code = truncated; offset = r'.pos }) r'
    else if is_break_at in' r'.pos
    then failed (record { code = malformed_item; offset = r'.pos }) r'
    else go r' stack

-- `is_preferred ai raw` is that `check_preferred_float` has no complaint about the float of that
-- width and those bits.
module _ (is_preferred : ℕ → ℕ → Bool) where
  unfoldable pub skip_simple : Options → Bytes → ParsedHead → Reader → List Level → Next
  skip_simple o in' h r stack =
      if (h.ai == 24) && ltb h.value 32
      then failed (record { code = malformed_item; offset = r.pos }) r
      else if o.require_deterministic && (leb 25 h.ai && not (is_preferred h.ai h.value))
      then failed (record { code = non_deterministic; offset = r.pos }) r
      else item_done o in' (advance h.length r) stack

  -- The `switch` on the major type.
  unfoldable pub skip_major : Options → Bytes → ParsedHead → Reader → List Level → Major → Next
  skip_major o in' h r stack Major.uint = item_done o in' (advance h.length r) stack
  skip_major o in' h r stack Major.nint = item_done o in' (advance h.length r) stack
  skip_major o in' h r stack Major.simple = skip_simple o in' h r stack
  skip_major o in' h r stack Major.bytes =
      after_string o in' h r.pos stack (read_string o in' h h.mt r)
  skip_major o in' h r stack Major.text =
      after_string o in' h r.pos stack (read_string o in' h h.mt r)
  skip_major o in' h r stack Major.tag = skip_tag in' h r stack
  skip_major o in' h r stack Major.array = skip_container o in' h r stack
  skip_major o in' h r stack Major.map = skip_container o in' h r stack

  -- A head that is read, whatever it is.
  unfoldable pub skip_head : Options → Bytes → ParsedHead → Reader → List Level → Next
  skip_head o in' h r stack =
      if h.length == 0
      then failed (record { code = truncated; offset = r.pos }) r
      else if h.is_break
      then skip_break o in' r stack
      else if h.reserved
      then failed (record { code = malformed_item; offset = r.pos }) r
      else if o.require_deterministic
      then or_failed (check_head_deterministic h r.pos) r (skip_major o in' h r stack h.mt)
      else skip_major o in' h r stack h.mt

  -- One round of the loop.
  unfoldable pub skip_step : Options → Bytes → Reader → List Level → Next
  skip_step o in' r stack =
      if leb (length in') r.pos
      then failed (record { code = truncated; offset = r.pos }) r
      else skip_head o in' (parse_head in' r.pos) r (note_key o r stack)

  -- The loop. A round reads a byte at least, and where the fuel runs out no byte is left.
  unfoldable pub skip_loop :
      Options → Bytes → ℕ → Reader → List Level → Result Error (Unit {0}) × Reader
  skip_loop o in' zero r stack = (error truncated r.pos, r)
  skip_loop o in' (suc fuel) r stack = elim (skip_step o in' r stack) [
    | go r' stack' ↦ skip_loop o in' fuel r' stack'
    | done r' ↦ (ok tt, r')
    | failed e r' ↦ (err e, r')
  ]

  unfoldable pub skip_value : Options → Bytes → Call (Unit {0})
  skip_value o in' r = skip_loop o in' (length in' - r.pos) r []
