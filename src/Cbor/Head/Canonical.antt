-- ===== src/Cbor/Head/Canonical.antt =====
-- What a parsed head says of the bytes it was read from.
use v_codec.Base.{
  ℕ, zero, suc, ◌+◌, ◌-◌, ◌*◌, ◌/◌, ◌%◌, ◌^◌, ◌≤◌, ◌<◌, true, [], ◌∷◌, ◌++◌, length, drop, Bytes,
  IsByte, All, ◌≡◌, sym, ◌∙◌, ap, arith, ◌⊎◌, inl, inr, subst,
}
use v_codec.Cbor.Head.{
  Major, simple, major_code, major_of, initial_byte, be, make_head, ParsedHead, shortest, read_be,
  argument_size, parse_after, parse_front, parse_head,
}
use v_codec.Cbor.Head.RoundTrip.{initial_byte_lem, head_ai, head_size, make_head_shape}

read_be-bound : (bs : Bytes) (v n : ℕ) → v < 2 ^ 64 → All IsByte bs → read_be v n bs < 2 ^ 64
unfolding read_be
read_be-bound [] v zero hv hb = hv
read_be-bound [] v (suc n) hv hb = hv
read_be-bound (b ∷ bs) v zero hv hb = hv
read_be-bound (b ∷ bs) v (suc n) hv (hb, hbs) =
    read_be-bound bs (v * 256 % 2 ^ 64 + b) n (omega arith) hbs

pub record InBounds (h : ParsedHead) (available : ℕ) : Type 0 where
  pub consumed : h.length ≤ available
  pub at_most_nine : h.length ≤ 9
  pub value_fits : h.value < 2 ^ 64
  pub ai_fits : h.ai < 32

parse_after-InBounds :
    (m : Major) (a ib : ℕ) (rest : Bytes)
    → a < 32
    → All IsByte rest
    → InBounds (parse_after m a ib rest) (length rest + 1)
unfolding parse_after
parse_after-InBounds m a ib rest ha hb =
    ground (arith, read_be-bound rest 0 (argument_size a) (omega arith) hb)

-- On any input of bytes, the head at its front takes no more bytes than there are and at most
-- nine, its argument fits 64 bits and its additional information five.
pub parse_front-InBounds : (in' : Bytes) → All IsByte in' → InBounds (parse_front in') (length in')
unfolding parse_front
parse_front-InBounds [] h = omega arith
parse_front-InBounds (ib ∷ rest) (hi, hr) =
    ground (arith, parse_after-InBounds (major_of (ib / 32)) (ib % 32) ib rest (omega arith) hr)

-- What one, two and four bytes can hold.
read_be-lt_one :
    (bs : Bytes) (v : ℕ) → v < 2 ^ 56 → All IsByte bs → read_be v 1 bs < (v + 1) * 2 ^ 8
unfolding read_be
read_be-lt_one [] v hv hb = omega arith
read_be-lt_one (b ∷ bs) v hv hb = omega arith

read_be-lt_two :
    (bs : Bytes) (v : ℕ) → v < 2 ^ 48 → All IsByte bs → read_be v 2 bs < (v + 1) * 2 ^ 16
unfolding read_be
read_be-lt_two [] v hv hb = omega arith
read_be-lt_two (b ∷ bs) v hv hb =
    omega (arith, read_be-lt_one bs (v * 256 % 2 ^ 64 + b) (omega arith) hb.1)

read_be-lt_three :
    (bs : Bytes) (v : ℕ) → v < 2 ^ 40 → All IsByte bs → read_be v 3 bs < (v + 1) * 2 ^ 24
unfolding read_be
read_be-lt_three [] v hv hb = omega arith
read_be-lt_three (b ∷ bs) v hv hb =
    omega (arith, read_be-lt_two bs (v * 256 % 2 ^ 64 + b) (omega arith) hb.1)

read_be-lt_four : (bs : Bytes) → All IsByte bs → read_be 0 4 bs < 2 ^ 32
unfolding read_be
read_be-lt_four [] hb = omega arith
read_be-lt_four (b ∷ bs) hb = omega (arith, read_be-lt_three bs (0 + b) (omega arith) hb.1)

-- The argument bytes are the big-endian bytes of the value.
be-read_be_one : (l : Bytes) → 1 ≤ length l → All IsByte l → be (read_be 0 1 l) 1 ++ drop 1 l ≡ l
unfolding be read_be
be-read_be_one (a ∷ r) n h = ground arith
be-read_be_one _ n h = absurd (omega arith)

be-read_be_two : (l : Bytes) → 2 ≤ length l → All IsByte l → be (read_be 0 2 l) 2 ++ drop 2 l ≡ l
unfolding be read_be
be-read_be_two (a ∷ b ∷ r) n h = ground arith
be-read_be_two _ n h = absurd (omega arith)

be-read_be_four : (l : Bytes) → 4 ≤ length l → All IsByte l → be (read_be 0 4 l) 4 ++ drop 4 l ≡ l
unfolding be read_be
be-read_be_four (a ∷ b ∷ c ∷ d ∷ r) n h = ground arith
be-read_be_four _ n h = absurd (omega arith)

be-read_be_eight : (l : Bytes) → 8 ≤ length l → All IsByte l → be (read_be 0 8 l) 8 ++ drop 8 l ≡ l
unfolding be read_be
be-read_be_eight (a ∷ b ∷ c ∷ d ∷ e ∷ f ∷ g ∷ h ∷ r) n hb = ground arith
be-read_be_eight _ n h = absurd (omega arith)

-- A shortest head, other than a float, that is not an error.
pub record IsShortest (h : ParsedHead) : Type 0 where
  pub present : 0 < h.length
  pub is_short : shortest h ≡ true
  pub no_float : h.mt ≡ simple → h.ai < 25

major_code-of : (c : ℕ) → c < 8 → major_code (major_of c) ≡ c
major_code-of c h = ground arith

initial_byte-split : (ib : ℕ) → ib < 256 → initial_byte (major_of (ib / 32)) (ib % 32) ≡ ib
initial_byte-split ib h = omega (
  arith,
  initial_byte_lem (major_of (ib / 32)) (ib % 32) (omega arith),
  major_code-of (ib / 32) (omega arith),
)

-- The additional information is the one that the encoder would choose.
record Chosen (m : Major) (a : ℕ) (h : ParsedHead) : Type 0 where
  major_same : h.mt ≡ m
  ai_same : h.ai ≡ a
  ai_chosen : head_ai h.value ≡ a
  size_chosen : h.length ≡ head_size h.value

parse_after-Chosen :
    (m : Major) (a ib : ℕ) (rest : Bytes)
    → a < 32
    → All IsByte rest
    → IsShortest (parse_after m a ib rest)
    → Chosen m a (parse_after m a ib rest)
unfolding parse_after shortest
parse_after-Chosen m a ib rest ha hb s = ground (
  arith,
  s.no_float,
  read_be-lt_one rest 0 (omega arith) hb,
  read_be-lt_two rest 0 (omega arith) hb,
  read_be-lt_four rest hb,
)

parse_after-cases :
    (m : Major) (a ib : ℕ) (rest : Bytes)
    → a < 32
    → IsShortest (parse_after m a ib rest)
    → ((a < 24) × ((parse_after m a ib rest).value ≡ a))
      ⊎ ((24 ≤ a)
          × (a < 28)
          × (argument_size a ≤ length rest)
          × ((parse_after m a ib rest).value ≡ read_be 0 (argument_size a) rest))
unfolding parse_after shortest
parse_after-cases m a ib rest ha s = ground arith

be-read_be :
    (a : ℕ) (rest : Bytes)
    → 24 ≤ a
    → a < 28
    → argument_size a ≤ length rest
    → All IsByte rest
    → be (read_be 0 (argument_size a) rest) (argument_size a) ++ drop (argument_size a) rest ≡ rest
be-read_be a rest lo hi l hb =
    ground
      (arith, be-read_be_one rest, be-read_be_two rest, be-read_be_four rest, be-read_be_eight rest)

head_size-argument : (v : ℕ) → 24 ≤ head_ai v → head_size v - 1 ≡ argument_size (head_ai v)
head_size-argument v h = ground arith

-- After the initial byte the argument bytes of the value stand at the front of `rest`.
argument_shape :
    (v a : ℕ) (rest : Bytes)
    → head_ai v ≡ a
    → All IsByte rest
    → ((a < 24) × (v ≡ a))
      ⊎ ((24 ≤ a)
          × (a < 28)
          × (argument_size a ≤ length rest)
          × (v ≡ read_be 0 (argument_size a) rest))
    → be v (head_size v - 1) ++ drop (head_size v - 1) rest ≡ rest
unfolding be
argument_shape v a rest e hb (inl (small, same)) = ground arith
argument_shape v a rest e hb (inr (lo, hi, l, same)) =
    let k : head_size v - 1 ≡ argument_size a =
      head_size-argument v (omega (arith, e)) ∙ ap argument_size e in
    rw (k) (
      subst (λ w. be w (argument_size a) ++ drop (argument_size a) rest ≡ rest) (sym same)
        (be-read_be a rest lo hi l hb))

drop-head_size :
    (v ib : ℕ) (rest : Bytes) → drop (head_size v) (ib ∷ rest) ≡ drop (head_size v - 1) rest
drop-head_size v ib rest = ground arith

assemble :
    (m : Major) (v len ib : ℕ) (rest : Bytes)
    → initial_byte m (head_ai v) ≡ ib
    → len ≡ head_size v
    → be v (head_size v - 1) ++ drop (head_size v - 1) rest ≡ rest
    → ib ∷ rest ≡ make_head m v ++ drop len (ib ∷ rest)
assemble m v len ib rest hi hl e = rw (hl, make_head_shape m v, drop-head_size v ib rest, hi, e)

parse_after-canonical :
    (ib : ℕ) (rest : Bytes)
    → ib < 256
    → All IsByte rest
    → IsShortest (parse_after (major_of (ib / 32)) (ib % 32) ib rest)
    → ib ∷ rest
      ≡ make_head
          (parse_after (major_of (ib / 32)) (ib % 32) ib rest).mt
          (parse_after (major_of (ib / 32)) (ib % 32) ib rest).value
        ++ drop (parse_after (major_of (ib / 32)) (ib % 32) ib rest).length (ib ∷ rest)
parse_after-canonical ib rest hi hb s =
    let m = major_of (ib / 32) in
    let a = ib % 32 in
    let c = parse_after-Chosen m a ib rest (omega arith) hb s in
    assemble _ _ _ ib rest (rw (c.major_same, c.ai_chosen) (initial_byte-split ib hi)) c.size_chosen
      (argument_shape _ a rest c.ai_chosen hb (parse_after-cases m a ib rest (omega arith) s))

parse_front-canonical :
    (l : Bytes)
    → All IsByte l
    → IsShortest (parse_front l)
    → l ≡ make_head (parse_front l).mt (parse_front l).value ++ drop (parse_front l).length l
unfolding parse_front
parse_front-canonical [] hb s = absurd (omega (arith, s.present))
parse_front-canonical (ib ∷ rest) (hi, hb) s = parse_after-canonical ib rest hi hb s

-- In an input of bytes, a head at a position that `shortest` reports as shortest (floats apart) is
-- exactly what `make_head` writes for its major type and argument: no other bytes stand for that
-- pair.
pub parse_head-canonical :
    (in' : Bytes) (pos : ℕ)
    → All IsByte (drop pos in')
    → IsShortest (parse_head in' pos)
    → drop pos in'
      ≡ make_head (parse_head in' pos).mt (parse_head in' pos).value
        ++ drop (parse_head in' pos).length (drop pos in')
unfolding parse_head
parse_head-canonical in' pos hb s = parse_front-canonical (drop pos in') hb s
