-- ===== src/Cbor/Head.antt =====
-- CBOR item heads: include/vcodec/cbor/head.hpp.
pub mod RoundTrip
pub mod Canonical
use v_codec.Base.{
  ℕ, zero, suc, ◌+◌, ◌-◌, ◌*◌, ◌/◌, ◌%◌, ◌^◌, ◌≤◌, ◌<◌, Bool, true, false, ◌||◌, ◌&&◌, List, [],
  ◌∷◌, ◌++◌, ltb, leb, ◌==◌, if◌then◌else◌, length, take, drop, Bytes, bit_or,
}

pub data Major : Type 0 where
  uint nint bytes text array map tag simple : Major

-- `static_cast<std::uint8_t>(m)`
abbrev pub major_code : Major → ℕ
major_code uint = 0
major_code nint = 1
major_code bytes = 2
major_code text = 3
major_code array = 4
major_code map = 5
major_code tag = 6
major_code simple = 7

-- `static_cast<major>(c)` of a code below 8.
abbrev pub major_of : ℕ → Major
major_of c =
    if c == 0
    then uint
    else if c == 1
    then nint
    else if c == 2
    then bytes
    else if c == 3
    then text
    else if c == 4
    then array
    else if c == 5
    then map
    else if c == 6
    then tag
    else simple

abbrev pub ai_indefinite : ℕ
ai_indefinite = 31

abbrev pub break_byte : ℕ
break_byte = 0xff

-- The initial byte `mt | ai`, with `mt` the code shifted left by five in a byte.
unfoldable pub initial_byte : Major → ℕ → ℕ
initial_byte m ai = bit_or (major_code m * 32 % 256) ai

-- The lambda `be`: the low `n` bytes of `x`, most significant first.
unfoldable pub be : ℕ → ℕ → Bytes
be x zero = []
be x (suc n) = (x / 2 ^ (8 * n) % 256) ∷ be x n

-- The bytes of the `encoded_head`, `bytes[0 .. size)`.
unfoldable pub make_head : Major → ℕ → Bytes
make_head m v =
    if ltb v 24
    then initial_byte m v ∷ []
    else if leb v 0xff
    then initial_byte m 24 ∷ be v 1
    else if leb v 0xffff
    then initial_byte m 25 ∷ be v 2
    else if leb v 0xffff_ffff
    then initial_byte m 26 ∷ be v 4
    else initial_byte m 27 ∷ be v 8

unfoldable pub make_indefinite_head : Major → Bytes
make_indefinite_head m = initial_byte m ai_indefinite ∷ []

unfoldable pub append_head : Bytes → Major → ℕ → Bytes
append_head out m v = out ++ make_head m v

pub record ParsedHead : Type 0 where
  pub mt : Major
  pub ai : ℕ
  pub value : ℕ
  pub indefinite : Bool
  pub length : ℕ
  pub reserved : Bool
  pub is_break : Bool

-- `==` on the enumeration.
abbrev pub major_eq : Major → Major → Bool
major_eq a b = major_code a == major_code b

-- `parsed_head::shortest`: the smallest `ai` that could have encoded `value`.
unfoldable pub shortest : ParsedHead → Bool
shortest h =
    if h.indefinite || (h.is_break || h.reserved)
    then false
    else if major_eq h.mt simple && leb 25 h.ai
    then true
    else if ltb h.ai 24
    then true
    else if h.ai == 24
    then leb 24 h.value
    else if h.ai == 25
    then ltb 0xff h.value
    else if h.ai == 26
    then ltb 0xffff h.value
    else ltb 0xffff_ffff h.value

-- `parsed_head h;`
abbrev pub empty_head : ParsedHead
empty_head = record {
  mt = uint;
  ai = 0;
  value = 0;
  indefinite = false;
  length = 0;
  reserved = false;
  is_break = false;
}

-- `for (i < n) v = (v << 8) | in[pos + 1 + i]` over the bytes that follow, in 64 bits.
unfoldable pub read_be : ℕ → ℕ → Bytes → ℕ
read_be v zero bs = v
read_be v (suc n) [] = v
read_be v (suc n) (b ∷ bs) = read_be (v * 256 % 2 ^ 64 + b) n bs

-- The number of argument bytes for an `ai` of 24 to 27.
abbrev pub argument_size : ℕ → ℕ
argument_size ai = if ai == 24 then 1 else if ai == 25 then 2 else if ai == 26 then 4 else 8

-- `parse_head` with the initial byte read; the list is what follows it.
unfoldable pub parse_after : Major → ℕ → ℕ → Bytes → ParsedHead
parse_after m a ib rest =
    let h = record empty_head { mt = m; ai = a } in
    if ib == break_byte
    then record h { is_break = true; length = 1 }
    else if ltb a 24
    then record h { value = a; length = 1 }
    else if a == 31
    then record h {
      indefinite = true;
      length = 1;
      reserved = major_eq m uint || (major_eq m nint || major_eq m tag);
    }
    else if leb 28 a
    then record h { reserved = true; length = 1 }
    else if ltb (length rest) (argument_size a)
    then h
    else record h { value = read_be 0 (argument_size a) rest; length = 1 + argument_size a }

-- The head at the front of the bytes that begin at `pos`.
unfoldable pub parse_front : Bytes → ParsedHead
unfolding parse_after
parse_front [] = empty_head
parse_front (ib ∷ rest) = parse_after (major_of (ib / 32)) (ib % 32) ib rest

-- `parse_head(in, pos)`: the bytes from `pos` on are `drop pos in`, none if `pos` is past the end.
unfoldable pub parse_head : Bytes → ℕ → ParsedHead
unfolding parse_front
parse_head in' pos = parse_front (drop pos in')
