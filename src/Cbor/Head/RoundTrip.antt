-- ===== src/Cbor/Head/RoundTrip.antt =====
-- Writing a head and parsing it back.
use v_codec.Base.{
  ℕ, zero, suc, ◌+◌, ◌-◌, ◌*◌, ◌/◌, ◌%◌, ◌^◌, ◌≤◌, ◌<◌, true, false, ◌∷◌, ◌++◌, ltb, leb, ◌==◌,
  if◌then◌else◌, length, drop-append, length-append, Bytes, ◌≡◌, refl, ◌∙◌, arith, lt→ltb,
}
use native.Mathlib.Decide.{dec_lt}
use v_codec.Base.Bits.{or_is_sum, bit_or-eq-add}
use v_codec.Cbor.Head.{
  Major, uint, nint, bytes, text, array, map, tag, simple, major_code, major_of, initial_byte, be,
  make_head, ParsedHead, shortest, empty_head, read_be, argument_size, parse_after, parse_front,
  parse_head, break_byte,
}

-- `mt | ai` is a sum: the two do not share a bit.
or_tables : (m : Major) → or_is_sum (major_code m * 32 % 256) 32 ≡ true
unfolding or_is_sum
or_tables uint = refl
or_tables _ = refl

code_times : (m : Major) (x a : ℕ) → x ≡ major_code m * 32 % 256 + a → x ≡ major_code m * 32 + a
code_times uint x a e = omega arith
code_times _ x a e = omega arith

pub initial_byte_lem : (m : Major) (a : ℕ) → a < 32 → initial_byte m a ≡ major_code m * 32 + a
unfolding initial_byte
initial_byte_lem m a h = code_times m _ a (bit_or-eq-add _ 32 a (or_tables m) h)

pub initial_byte_parts :
    (m : Major) (a : ℕ)
    → a < 32
    → (major_of (initial_byte m a / 32) ≡ m) × (initial_byte m a % 32 ≡ a)
initial_byte_parts uint a h = ground (arith, initial_byte_lem uint a)
initial_byte_parts nint a h = ground (arith, initial_byte_lem nint a)
initial_byte_parts bytes a h = ground (arith, initial_byte_lem bytes a)
initial_byte_parts text a h = ground (arith, initial_byte_lem text a)
initial_byte_parts array a h = ground (arith, initial_byte_lem array a)
initial_byte_parts map a h = ground (arith, initial_byte_lem map a)
initial_byte_parts tag a h = ground (arith, initial_byte_lem tag a)
initial_byte_parts simple a h = ground (arith, initial_byte_lem simple a)

pub initial_byte-ne-break : (m : Major) (a : ℕ) → a < 31 → (initial_byte m a == break_byte) ≡ false
initial_byte-ne-break uint a h = ground (arith, initial_byte_lem uint a)
initial_byte-ne-break nint a h = ground (arith, initial_byte_lem nint a)
initial_byte-ne-break bytes a h = ground (arith, initial_byte_lem bytes a)
initial_byte-ne-break text a h = ground (arith, initial_byte_lem text a)
initial_byte-ne-break array a h = ground (arith, initial_byte_lem array a)
initial_byte-ne-break map a h = ground (arith, initial_byte_lem map a)
initial_byte-ne-break tag a h = ground (arith, initial_byte_lem tag a)
initial_byte-ne-break simple a h = ground (arith, initial_byte_lem simple a)

-- Reading `k` big-endian bytes of `v`, for the widths that a head has.
read_be-be_one : (v : ℕ) (rest : Bytes) → v < 2 ^ 8 → read_be 0 1 (be v 1 ++ rest) ≡ v
unfolding read_be be
read_be-be_one v rest h = omega arith

read_be-be_two : (v : ℕ) (rest : Bytes) → v < 2 ^ 16 → read_be 0 2 (be v 2 ++ rest) ≡ v
unfolding read_be be
read_be-be_two v rest h = omega arith

read_be-be_four : (v : ℕ) (rest : Bytes) → v < 2 ^ 32 → read_be 0 4 (be v 4 ++ rest) ≡ v
unfolding read_be be
read_be-be_four v rest h = omega arith

read_be-be_eight : (v : ℕ) (rest : Bytes) → v < 2 ^ 64 → read_be 0 8 (be v 8 ++ rest) ≡ v
unfolding read_be be
read_be-be_eight v rest h = omega arith

length-be : (x n : ℕ) → length (be x n) ≡ n
unfolding be
length-be x zero = refl
length-be x (suc n) = omega (arith, length-be x n)

-- The additional information that the encoder chooses.
abbrev pub head_ai : ℕ → ℕ
head_ai v =
    if ltb v 24
    then v
    else if leb v 0xff
    then 24
    else if leb v 0xffff
    then 25
    else if leb v 0xffff_ffff
    then 26
    else 27

abbrev pub head_size : ℕ → ℕ
head_size v =
    if ltb v 24
    then 1
    else if leb v 0xff
    then 2
    else if leb v 0xffff
    then 3
    else if leb v 0xffff_ffff
    then 5
    else 9

-- What a parser should report of the head that stands for `m` and `v`.
abbrev pub plain_head : Major → ℕ → ParsedHead
plain_head m v = record {
  mt = m;
  ai = head_ai v;
  value = v;
  indefinite = false;
  length = head_size v;
  reserved = false;
  is_break = false;
}

-- Parsing an initial byte that the encoder wrote, with a definite argument.
parse_front-initial :
    (m : Major) (a : ℕ) (rest : Bytes)
    → a < 31
    → parse_front (initial_byte m a ∷ rest) ≡ parse_after m a (initial_byte m a) rest
unfolding parse_front
parse_front-initial m a rest h =
    let (m_same, a_same) = initial_byte_parts m a (omega arith) in
    λ i. parse_after (m_same i) (a_same i) (initial_byte m a) rest

parse_after-inline :
    (m : Major) (a : ℕ) (rest : Bytes)
    → a < 24
    → parse_after m a (initial_byte m a) rest
      ≡ record empty_head { mt = m; ai = a; value = a; length = 1 }
unfolding parse_after
parse_after-inline m a rest h = rw (initial_byte-ne-break m a (omega arith)) (ground arith)

parse_after-wide :
    (m : Major) (a v : ℕ) (rest : Bytes)
    → 24 ≤ a
    → a < 28
    → read_be 0 (argument_size a) (be v (argument_size a) ++ rest) ≡ v
    → parse_after m a (initial_byte m a) (be v (argument_size a) ++ rest)
      ≡ record empty_head { mt = m; ai = a; value = v; length = 1 + argument_size a }
unfolding parse_after
parse_after-wide m a v rest lo hi e =
    rw (initial_byte-ne-break m a (omega arith)) (
      ground (arith, length-append (be v (argument_size a)) rest, length-be v (argument_size a), e))

-- One width of argument, end to end.
parse_front-wide :
    (m : Major) (a v : ℕ) (rest : Bytes)
    → 24 ≤ a
    → a < 28
    → read_be 0 (argument_size a) (be v (argument_size a) ++ rest) ≡ v
    → parse_front (initial_byte m a ∷ (be v (argument_size a) ++ rest))
      ≡ record empty_head { mt = m; ai = a; value = v; length = 1 + argument_size a }
parse_front-wide m a v rest lo hi e =
    parse_front-initial m a _ (omega arith) ∙ parse_after-wide m a v rest lo hi e

-- A head is its initial byte and the argument in `head_size v - 1` bytes.
pub make_head_shape :
    (m : Major) (v : ℕ) → make_head m v ≡ initial_byte m (head_ai v) ∷ be v (head_size v - 1)
unfolding make_head be
make_head_shape m v = ground arith

read_be-be :
    (v : ℕ) (rest : Bytes)
    → v < 2 ^ 64
    → 24 ≤ v
    → read_be 0 (argument_size (head_ai v)) (be v (argument_size (head_ai v)) ++ rest) ≡ v
read_be-be v rest h big = ground (
  arith,
  read_be-be_one v rest,
  read_be-be_two v rest,
  read_be-be_four v rest,
  read_be-be_eight v rest,
)

parse_shape :
    (m : Major) (v : ℕ) (rest : Bytes)
    → v < 2 ^ 64
    → parse_front (initial_byte m (head_ai v) ∷ (be v (head_size v - 1) ++ rest)) ≡ plain_head m v
parse_shape m v rest h = elim (dec_lt v 24) [
  | yes small ↦
      rw (lt→ltb v 24 small)
        (parse_front-initial m v _ (omega arith) ∙ parse_after-inline m v _ small)
  | no big ↦ ground (
    arith,
    parse_front-wide m (head_ai v) v rest (ground arith) (ground arith)
        (read_be-be v rest h (omega arith)),
  )
]

pub parse_front-make_head :
    (m : Major) (v : ℕ) (rest : Bytes)
    → v < 2 ^ 64
    → parse_front (make_head m v ++ rest) ≡ plain_head m v
parse_front-make_head m v rest h = rw (make_head_shape m v) (parse_shape m v rest h)

pub length-make_head : (m : Major) (v : ℕ) → length (make_head m v) ≡ head_size v
unfolding make_head
length-make_head m v = ground (arith, length-be v 1, length-be v 2, length-be v 4, length-be v 8)

shortest-plain_head : (m : Major) (v : ℕ) → shortest (plain_head m v) ≡ true
unfolding shortest
shortest-plain_head m v = ground arith

-- For an argument below 2^64, wherever the head that `make_head` writes stands in an input,
-- `parse_head` reads back its major type and argument, reports it as shortest, and its length is
-- the number of bytes written.
pub parse_head-make_head :
    (m : Major) (v : ℕ) (before rest : Bytes)
    → v < 2 ^ 64
    → (parse_head (before ++ (make_head m v ++ rest)) (length before) ≡ plain_head m v)
      × (shortest (parse_head (before ++ (make_head m v ++ rest)) (length before)) ≡ true)
      × (length (make_head m v) ≡ head_size v)
unfolding parse_head
parse_head-make_head m v before rest h =
    rw (drop-append before (make_head m v ++ rest))
      (rw (parse_front-make_head m v rest h) (refl, shortest-plain_head m v, length-make_head m v))
