-- ===== src/Cbor/Read/State.antt =====
-- The reader's state, its errors, and the heads it reads: include/vcodec/cbor/read.hpp.
use v_codec.Base.{
  ℕ, zero, suc, ◌+◌, ◌-◌, ◌*◌, ◌/◌, ◌%◌, ◌^◌, Bool, false, not, ◌&&◌, Option, none, some, [], ◌∷◌,
  Bytes, length, drop, ltb, leb, ◌==◌, if◌then◌else◌, bytes_less, bytes_equal,
}
pub use v_codec.Core.Call.{error, and_then, ◌>>=◌}
use v_codec.Core.Error.{
  Error, Result, ok, err, truncated, malformed_item, tag_mismatch, non_deterministic,
  depth_exceeded, trailing_content,
}
use v_codec.Cbor.Head.{Major, major_eq, ParsedHead, parse_head, shortest, break_byte}
use v_codec.Cbor.Options.{Options}
use v_codec.Cbor.Encode.{self_describe_tag}

-- The members that the calls change: `pos_`, `depth_` and `start_`. The input is an argument of
-- each call, and the scratch buffers are part of what a call returns.
pub record Reader : Type 0 where
  pub pos : ℕ
  pub depth : ℕ
  pub start : ℕ

-- `explicit reader(input)`
abbrev pub new_reader : Reader
new_reader = record { pos = 0; depth = 0; start = 0 }

-- A member function: its result, and the state that it leaves, after an error as well.
abbrev pub Call : Type 0 → Type 0
Call A = Reader → Result Error A × Reader

-- `save`: the depth stands above bit 48; a position is below 2^48, so that `|` is a sum.
unfoldable pub save : Reader → ℕ
save r = (r.pos + r.depth * 2 ^ 48) % 2 ^ 64

-- `restore`
unfoldable pub restore : ℕ → Reader → Reader
restore s r = record r { pos = s % 2 ^ 48; depth = s / 2 ^ 48 }

unfoldable pub at_end : Bytes → Reader → Bool
at_end in' r = leb (length in') r.pos

abbrev pub is_break_front : Bytes → Bool
is_break_front [] = false
is_break_front (b ∷ bs) = b == break_byte

-- `in_[p] == std::byte(break_byte)`, where `p` is in range.
abbrev pub is_break_at : Bytes → ℕ → Bool
is_break_at in' p = is_break_front (drop p in')

-- `depth_error` and `enter`
unfoldable pub enter : Options → Call (Unit {0})
enter o r =
    if leb o.max_depth r.depth
    then (error depth_exceeded r.pos, r)
    else (ok tt, record r { depth = r.depth + 1 })

-- `check_head_deterministic`: the error, if there is one.
unfoldable pub check_head_deterministic : ParsedHead → ℕ → Option Error
check_head_deterministic h at =
    if h.indefinite
    then some (record { code = non_deterministic; offset = at })
    else if not (shortest h) && not (major_eq h.mt Major.simple)
    then some (record { code = non_deterministic; offset = at })
    else none

-- `key_order_error`, for the bytes of a key and of the key before it.
unfoldable pub key_order_error : Bytes → Bytes → ℕ → Option Error
key_order_error cur prev start =
    let less = bytes_less cur prev in
    let equal = bytes_equal cur prev in
    if not less && not equal
    then none
    else some (record { code = non_deterministic; offset = start })

-- The loop of `item_head`, at `p`: a head that is no tag, and where it stands. Each round reads a
-- byte at least, so that the bytes left are fuel enough, and none is left where it runs out.
unfoldable pub item_head_loop : Options → Bytes → ℕ → ℕ → Result Error (ParsedHead × ℕ)
item_head_loop o in' zero p = error truncated p
item_head_loop o in' (suc fuel) p =
    let h = parse_head in' p in
    let next = item_head_loop o in' fuel (p + h.length) in
    if leb (length in') p
    then error truncated p
    else if h.length == 0
    then error truncated p
    else if h.is_break
    then error malformed_item p
    else if h.reserved
    then error malformed_item p
    else if major_eq h.mt Major.tag
    then (if o.ignore_unknown_tags then next else error tag_mismatch p)
    else if major_eq h.mt Major.simple && ((h.ai == 24) && ltb h.value 32)
    then error malformed_item p
    else if o.require_deterministic
    then (elim (check_head_deterministic h p) [ none ↦ ok (h, p) | some e ↦ err e ])
    else ok (h, p)

-- What the loop found becomes the position; an error leaves the state as it was.
abbrev pub found_head : Result Error (ParsedHead × ℕ) → Call ParsedHead
found_head (ok (h, p)) r = (ok h, record r { pos = p; start = p })
found_head (err e) r = (err e, r)

-- `item_head`
unfoldable pub item_head : Options → Bytes → Call ParsedHead
unfolding item_head_loop
item_head o in' r = found_head (item_head_loop o in' (length in' - r.pos) r.pos) r

-- `raw_head`
unfoldable pub raw_head : Bytes → Call ParsedHead
raw_head in' r =
    let h = parse_head in' r.pos in
    if leb (length in') r.pos
    then (error truncated r.pos, r)
    else if h.length == 0
    then (error truncated r.pos, r)
    else if h.reserved
    then (error malformed_item r.pos, r)
    else if h.is_break
    then (error malformed_item r.pos, r)
    else (ok h, r)

-- `pos_ += n`
abbrev pub advance : ℕ → Reader → Reader
advance n r = record r { pos = r.pos + n }

-- `finish`
unfoldable pub finish : Bytes → Call (Unit {0})
finish in' r = if ltb r.pos (length in') then (error trailing_content r.pos, r) else (ok tt, r)

-- `start`: a leading self-describe tag is skipped.
unfoldable pub start_reader : Bytes → Reader → Reader
start_reader in' r =
    let h = parse_head in' r.pos in
    if not (h.length == 0) && (major_eq h.mt Major.tag && (h.value == self_describe_tag))
    then advance h.length r
    else r
