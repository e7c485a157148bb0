-- ===== src/Cbor/Read/Expect.antt =====
-- The typed calls of the reader, and its cursors: include/vcodec/cbor/read.hpp.

use v_codec.Base.{
  ℕ, zero, suc, ◌+◌, ◌-◌, ◌%◌, ◌^◌, Bool, true, false, not, ◌||◌, ◌&&◌, Option, none, some, List,
  [], ◌∷◌, Bytes, length, ltb, leb, ◌==◌, if◌then◌else◌,
}
use v_codec.Base.Int.{ℤ, pos, negsuc}
use v_codec.Core.Kind.{Kind, TextRef}
use v_codec.Core.Error.{
  Errc, Error, Result, ok, err, truncated, type_mismatch, tag_mismatch, invalid_utf8, out_of_range,
}
use v_codec.Core.Utf8.{validate_utf8}
use v_codec.Cbor.Head.{Major, major_eq, ParsedHead, parse_head}
use v_codec.Cbor.Options.{Options}
use v_codec.Cbor.Read.State.{
  Reader, Call, error, ◌>>=◌, advance, is_break_at, enter, item_head, raw_head, save, restore,
  key_order_error,
}
use v_codec.Cbor.Read.Strings.{Span, subspan, read_string}
use v_codec.Cbor.Read.Skip.{skip_value}

-- The kind of a simple value or float, by its additional information.
abbrev pub simple_kind : Options → ℕ → Kind
simple_kind o ai =
    if (ai == 20) || (ai == 21)
    then Kind.boolean
    else if ai == 22
    then Kind.null
    else if ai == 23
    then (if o.undefined_as_null then Kind.null else Kind.undefined)
    else if leb 25 ai && leb ai 27
    then Kind.real
    else Kind.undefined

-- The `switch` of `peek`, for a head that is no tag.
abbrev pub kind_of : Options → ℕ → Major → Kind
kind_of o ai Major.uint = Kind.uint
kind_of o ai Major.nint = Kind.sint
kind_of o ai Major.bytes = Kind.bytes
kind_of o ai Major.text = Kind.text
kind_of o ai Major.array = Kind.array
kind_of o ai Major.map = Kind.map
kind_of o ai Major.tag = Kind.tag
kind_of o ai Major.simple = simple_kind o ai

-- The loop of `peek` at `p`. Each round passes a byte at least, and past the end the head is empty,
-- so that the bytes left and one more round are enough.
unfoldable pub peek_loop : Options → Bytes → ℕ → ℕ → Kind
peek_loop o in' zero p = Kind.undefined
peek_loop o in' (suc fuel) p =
    let h = parse_head in' p in
    let next = peek_loop o in' fuel (p + h.length) in
    if (h.length == 0) || (h.reserved || h.is_break)
    then Kind.undefined
    else if major_eq h.mt Major.tag
    then (if o.ignore_unknown_tags then next else Kind.tag)
    else kind_of o h.ai h.mt

unfoldable pub peek : Options → Bytes → Reader → Kind
unfolding peek_loop
peek o in' r = peek_loop o in' (suc (length in' - r.pos)) r.pos

-- `pos_ += h->length; return a;`
abbrev pub take_item : {A : Type 0} → ParsedHead → A → Call A
take_item h a r = (ok a, advance h.length r)

-- `return std::unexpected(error(code, pos_))`, as for `type_error`.
abbrev pub refuse : {A : Type 0} → Errc → Call A
refuse code r = (error code r.pos, r)

unfoldable pub expect_null : Options → Bytes → Call (Unit {0})
expect_null o in' = item_head o in' >>= λ h.
    if major_eq h.mt Major.simple && ((h.ai == 22) || (o.undefined_as_null && (h.ai == 23)))
    then take_item h tt
    else refuse type_mismatch

unfoldable pub expect_boolean : Options → Bytes → Call Bool
expect_boolean o in' = item_head o in' >>= λ h.
    if major_eq h.mt Major.simple && ((h.ai == 20) || (h.ai == 21))
    then take_item h (h.ai == 21)
    else refuse type_mismatch

unfoldable pub expect_uint : Options → Bytes → Call ℕ
expect_uint o in' = item_head o in' >>= λ h.
    if major_eq h.mt Major.uint
    then take_item h h.value
    else if major_eq h.mt Major.nint
    then refuse out_of_range
    else refuse type_mismatch

-- `-1 - n` is `negsuc n`; `INT64_MAX` is `2 ^ 63 - 1`.
unfoldable pub expect_sint : Options → Bytes → Call ℤ
expect_sint o in' = item_head o in' >>= λ h.
    if major_eq h.mt Major.uint
    then (if ltb (2 ^ 63 - 1) h.value then refuse out_of_range else take_item h (pos h.value))
    else if major_eq h.mt Major.nint
    then (if ltb (2 ^ 63 - 1) h.value then refuse out_of_range else take_item h (negsuc h.value))
    else refuse type_mismatch

unfoldable pub expect_simple : Options → Bytes → Call ℕ
expect_simple o in' = item_head o in' >>= λ h.
    if not (major_eq h.mt Major.simple)
      || ((leb 20 h.ai && leb h.ai 23) || (leb 25 h.ai && leb h.ai 27))
    then refuse type_mismatch
    else take_item h (h.value % 256)

unfoldable pub expect_nint : Options → Bytes → Call ℕ
expect_nint o in' = item_head o in' >>= λ h.
    if not (major_eq h.mt Major.nint) then refuse type_mismatch else take_item h h.value

abbrev pub text_ref : Options → ParsedHead → Span → Call TextRef
text_ref o h s r = elim (if o.validate_utf8 then validate_utf8 s.content else none) [
  | none ↦
      (ok (record { content = s.content; borrowed = not s.assembled; extent = r.pos - r.start }), r)
  | some bad ↦ (error invalid_utf8 (r.start + (if s.assembled then 0 else h.length + bad)), r)
]

unfoldable pub expect_text : Options → Bytes → Call TextRef
expect_text o in' = item_head o in' >>= λ h.
    if not (major_eq h.mt Major.text)
    then refuse type_mismatch
    else (read_string o in' h Major.text >>= text_ref o h)

-- The bytes, and whether they were assembled.
unfoldable pub expect_bytes : Options → Bytes → Call Span
expect_bytes o in' = item_head o in' >>= λ h.
    if not (major_eq h.mt Major.bytes)
    then refuse type_mismatch
    else read_string o in' h Major.bytes

-- An error puts the position back.
abbrev pub or_back : {A : Type 0} → ℕ → Result Error A × Reader → Result Error A × Reader
or_back at (ok a, r) = (ok a, r)
or_back at (err e, r) = (err e, record r { pos = at })

-- Whether the number is negative, and its magnitude.
unfoldable pub expect_bignum : Options → Bytes → Call (Bool × Bytes)
expect_bignum o in' = raw_head in' >>= λ h r.
    if not (major_eq h.mt Major.tag) || (not (h.value == 2) && not (h.value == 3))
    then (error tag_mismatch r.pos, r)
    else or_back r.pos
        ((expect_bytes o in' >>= λ b r'. (ok (h.value == 3, b.content), r')) (advance h.length r))

unfoldable pub expect_tags : Bytes → List ℕ → Call (Unit {0})
expect_tags in' [] r = (ok tt, r)
expect_tags in' (t ∷ ts) r =
    (raw_head in' >>= λ h.
    if not (major_eq h.mt Major.tag) || not (h.value == t) then refuse tag_mismatch else λ r'.
    expect_tags in' ts (advance h.length r'))
      r

-- A cursor's `remaining_`, of a head.
abbrev pub remaining_of : ParsedHead → Option ℕ
remaining_of h = if h.indefinite then none else some h.value

unfoldable pub expect_container : Options → Bytes → Major → Call (Option ℕ)
expect_container o in' m = item_head o in' >>= λ h.
    if not (major_eq h.mt m)
    then refuse type_mismatch
    else (enter o >>= λ _. take_item h (remaining_of h))

abbrev pub expect_array : Options → Bytes → Call (Option ℕ)
expect_array o in' = expect_container o in' Major.array

abbrev pub expect_map : Options → Bytes → Call (Option ℕ)
expect_map o in' = expect_container o in' Major.map

-- `seq_cursor::next`: whether there is an item, and what remains then.
unfoldable pub seq_next : Bytes → Option ℕ → Call (Bool × Option ℕ)
seq_next in' (some zero) r = (ok (false, some 0), record r { depth = r.depth - 1 })
seq_next in' (some (suc n)) r =
    if leb (length in') r.pos then (error truncated r.pos, r) else (ok (true, some n), r)
seq_next in' none r =
    if leb (length in') r.pos
    then (error truncated r.pos, r)
    else if is_break_at in' r.pos
    then (ok (false, none), record r { pos = r.pos + 1; depth = r.depth - 1 })
    else (ok (true, none), r)

-- `map_cursor`; after an error it is not used again.
pub record MapCursor : Type 0 where
  pub remaining : Option ℕ
  pub prev_start : ℕ
  pub prev_end : ℕ
  pub have_prev : Bool

abbrev pub new_map_cursor : Option ℕ → MapCursor
new_map_cursor n = record { remaining = n; prev_start = 0; prev_end = 0; have_prev = false }

-- `check_key_order`: the error, if there is one.
unfoldable pub check_key_order : Bytes → MapCursor → ℕ → ℕ → Option Error
check_key_order in' c start end =
    if c.have_prev
    then key_order_error (subspan in' start (end - start))
        (subspan in' c.prev_start (c.prev_end - c.prev_start)) start
    else none

abbrev pub after_order : Option Error → MapCursor → Call (Bool × MapCursor)
after_order (some e) c r = (err e, r)
after_order none c r = (ok (true, c), r)

-- What a skip over the key found, and the state that was restored behind it: a malformed key is
-- left for the caller's decode to report.
abbrev pub after_skip :
    Bytes
    → MapCursor
    → ℕ
    → Reader
    → Result Error (Unit {0}) × Reader
    → Result Error (Bool × MapCursor) × Reader
after_skip in' c saved r (err e, r') = (ok (true, c), restore saved r')
after_skip in' c saved r (ok u, r') =
    after_order (check_key_order in' c r.pos r'.pos)
      (record c { prev_start = r.pos; prev_end = r'.pos; have_prev = true }) (restore saved r')

module _ (is_preferred : ℕ → ℕ → Bool) where
  unfoldable pub key_ahead : Options → Bytes → MapCursor → Call (Bool × MapCursor)
  key_ahead o in' c r =
      if o.require_deterministic
      then after_skip in' c (save r) r (skip_value is_preferred o in' r)
      else (ok (true, c), r)

  -- A key must be ahead, where the input has not ended.
  abbrev pub key_or_end : Options → Bytes → MapCursor → Call (Bool × MapCursor)
  key_or_end o in' c r =
      if leb (length in') r.pos then (error truncated r.pos, r) else key_ahead o in' c r

  -- `map_cursor::next`: whether there is an entry, and the cursor then.
  unfoldable pub map_next : Options → Bytes → MapCursor → Call (Bool × MapCursor)
  map_next o in' c r = elim c.remaining [
    | some n ↦
        if n == 0
        then (ok (false, c), record r { depth = r.depth - 1 })
        else key_or_end o in' (record c { remaining = some (n - 1) }) r
    | none ↦
        if not (leb (length in') r.pos) && is_break_at in' r.pos
        then (ok (false, c), record r { pos = r.pos + 1; depth = r.depth - 1 })
        else key_or_end o in' c r
  ]
