-- ===== src/Cbor/Read/Strings.antt =====
-- `read_string` of include/vcodec/cbor/read.hpp: a borrowed span, or chunks put together.
use v_codec.Base.{
  ℕ, zero, suc, ◌+◌, ◌-◌, Bool, true, false, not, ◌||◌, ◌&&◌, Option, none, some, [], ◌++◌, Bytes,
  length, drop, take, ltb, leb, ◌==◌, if◌then◌else◌,
}
use v_codec.Core.Error.{
  Error, Result, ok, err, truncated, malformed_item, invalid_utf8, non_deterministic,
}
use v_codec.Core.Utf8.{validate_utf8}
use v_codec.Cbor.Head.{Major, major_eq, ParsedHead, parse_head}
use v_codec.Cbor.Options.{Options}
use v_codec.Cbor.Read.State.{Reader, Call, error, advance, is_break_at}

-- The bytes of a string, and whether they were assembled in `scratch`.
pub record Span : Type 0 where
  pub content : Bytes
  pub assembled : Bool

-- `in_.subspan(p, n)`
abbrev pub subspan : Bytes → ℕ → ℕ → Bytes
subspan in' p n = take n (drop p in')

-- The first invalid byte of a chunk, when chunks are checked.
abbrev pub bad_chunk : Options → Major → Bytes → Option ℕ
bad_chunk o m t = if o.validate_utf8 && major_eq m Major.text then validate_utf8 t else none

-- The chunks from `r` on, behind `scratch`. Each round reads a byte at least, so that the bytes
-- left are fuel enough.
unfoldable pub read_chunks : Options → Bytes → Major → ℕ → Bytes → Call Bytes
read_chunks o in' m zero scratch r = (error truncated r.pos, r)
read_chunks o in' m (suc fuel) scratch r =
    let c = parse_head in' r.pos in
    let chunk = subspan in' (r.pos + c.length) c.value in
    let next = read_chunks o in' m fuel (scratch ++ chunk) (advance (c.length + c.value) r) in
    if leb (length in') r.pos
    then (error truncated r.pos, r)
    else if is_break_at in' r.pos
    then (ok scratch, advance 1 r)
    else if c.length == 0
    then (error truncated r.pos, r)
    else if not (major_eq c.mt m) || c.indefinite
    then (error malformed_item r.pos, r)
    else if ltb (length in' - r.pos - c.length) c.value
    then (error truncated r.pos, r)
    else (elim (bad_chunk o m chunk) [
      | none ↦ next
      | some bad ↦ (error invalid_utf8 (r.pos + c.length + bad), r)
    ])

abbrev pub assembled_span : Result Error Bytes × Reader → Result Error Span × Reader
assembled_span (ok b, r) = (ok (record { content = b; assembled = true }), r)
assembled_span (err e, r) = (err e, r)

-- `read_string`, with the head `h` at the position.
unfoldable pub read_string : Options → Bytes → ParsedHead → Major → Call Span
unfolding read_chunks
read_string o in' h m r =
    if not h.indefinite
    then (if ltb (length in' - r.pos - h.length) h.value then (error truncated r.pos, r) else (
      ok (record { content = subspan in' (r.pos + h.length) h.value; assembled = false }),
      advance (h.length + h.value) r,
    ))
    else if o.require_deterministic
    then (error non_deterministic r.pos, r)
    else assembled_span
        (read_chunks o in' m (length in' - (r.pos + h.length)) [] (advance h.length r))
