-- ===== src/Cbor/Encode/Containers.antt =====
-- One container, scalar or key of the writer against the specification.
use v_codec.Base.{
  ℕ, suc, Bool, true, false, none, some, [], ◌∷◌, Bytes, ◌++◌, length, ◌≡◌, refl, sym, ap, ◌∙◌, leb,
  Bool-cases, Option-cases, inl, inr,
}
use v_codec.Base.Int.{ℤ, pos, negsuc}
use v_codec.Core.Error.{Errc, Result, ok, ◌>>=◌, >>=_cong, >>=_assoc}
use v_codec.Core.Utf8.{validate_utf8}
use v_codec.Core.Value.{Key}
use v_codec.Cbor.Options.{Options}
use v_codec.Cbor.Head.{Major, make_head, make_indefinite_head, break_byte}
use v_codec.Cbor.Write.State
use v_codec.Cbor.Write.State.{
  Frame, Writer, append, put_head, item, push_frame, check_utf8, key_start, key_end, begin_array,
  open_container,
}
use v_codec.Cbor.Write.Laws.{append-append, item-append, depth-append, depth-item}
use v_codec.Cbor.Write.Close.{close}
use v_codec.Cbor.Encode.{encode_key}
use v_codec.Cbor.Encode.Spec.{text_bytes, int_bytes, key_bytes, array_bytes, within}
use v_codec.Cbor.Encode.Frames.{
  emit, items, filled, close-definite, close-indefinite, close-counted,
}

check_utf8-text :
    (o : Options) (t : Bytes) (w : Writer) (g : Writer → Writer)
    → (check_utf8 o t w >>= λ w'. ok (g (append t (put_head Major.text (length t) w'))))
      ≡ (text_bytes o t >>= λ bs. ok (g (append bs w)))
unfolding check_utf8
check_utf8-text o t w g = elim (Bool-cases o.validate_utf8) [
  | inl on ↦ elim (Option-cases (validate_utf8 t)) [
    | inl good ↦ rw (on, good) (ap (λ x. ok (g x)) joined)
    | inr (i, bad) ↦ rw (on, bad)
  ]
  | inr off ↦ rw off (ap (λ x. ok (g x)) joined)
]
  where
    joined :
        append t (put_head Major.text (length t) w)
        ≡ append (make_head Major.text (length t) ++ t) w
    joined = append-append (make_head Major.text (length t)) t w

pub text-emit : (o : Options) (t : Bytes) (w : Writer) → State.text o t w ≡ emit (text_bytes o t) w
unfolding State.text
text-emit o t w = check_utf8-text o t (item w) (λ x. x)

pub sint-emit : (i : ℤ) (w : Writer) → ok (State.sint i w) ≡ emit (ok (int_bytes i)) w
unfolding State.sint State.uint State.negative
sint-emit (pos n) w = refl
sint-emit (negsuc n) w = refl

pub bytes-emit :
    (b : Bytes) (w : Writer)
    → ok (State.bytes b w) ≡ emit (ok (make_head Major.bytes (length b) ++ b)) w
unfolding State.bytes
bytes-emit b w = ap ok (append-append (make_head Major.bytes (length b)) b (item w))

pub tag-emit :
    (t : ℕ) (r : Result Errc Bytes) (w : Writer)
    → emit r (State.tag t w) ≡ emit (r >>= λ bs. ok (make_head Major.tag t ++ bs)) w
unfolding State.tag
tag-emit t r w = step ∙ sym (>>=_assoc r _ _)
  where
    prefix : Bytes
    prefix = make_head Major.tag t

    step : emit r (append prefix w) ≡ (r >>= λ bs. ok (append (prefix ++ bs) (item w)))
    step =
        >>=_cong r _ _
          (λ bs. ap ok (ap (append bs) (item-append prefix w) ∙ append-append prefix bs (item w)))

-- A key's bytes between `key_start` and `key_end`.
abbrev pub key_call : Bytes → Writer → Writer
key_call kb w = key_end (append kb (key_start w))

pub encode_key-key_call :
    (o : Options) (k : Key) (w : Writer)
    → encode_key o k w ≡ (key_bytes o k >>= λ kb. ok (key_call kb w))
unfolding encode_key State.key_text State.key_uint State.key_sint State.key_negative
encode_key-key_call o (Key.text k) w = check_utf8-text o k (key_start w) key_end
encode_key-key_call o (Key.uint k) w = refl
encode_key-key_call o (Key.sint (pos n)) w = refl
encode_key-key_call o (Key.sint (negsuc n)) w = refl

-- The items of an array, as a step that appends `r` and counts `n` items one level down.
module _ (n d : ℕ) (r : Result Errc Bytes) (fill : Writer → Result Errc Writer)
    (fills : (w : Writer)
      → length w.frames ≡ suc d
      → fill w ≡ (r >>= λ bs. ok (append bs (items n w)))) where
  -- Opening a frame on `w`, filling and closing it.
  filled_frame :
      (m buffered indefinite : Bool) (w : Writer) (g : Bytes → Bytes)
      → length w.frames ≡ d
      → ((bs : Bytes) → close (filled m buffered indefinite n bs w) ≡ ok (append (g bs) w))
      → (fill (push_frame m buffered indefinite w) >>= close) ≡ (r >>= λ bs. ok (append (g bs) w))
  filled_frame m buffered indefinite w g h closes =
      ap (λ x. x >>= close)
        (fills (push_frame m buffered indefinite w) (unfold push_frame in ap suc h))
      ∙ >>=_assoc r _ close
      ∙ >>=_cong r _ _ closes

  -- The same after a prefix, on top of the bytes of the prefix.
  pub prefixed_frame :
      (m buffered indefinite : Bool) (prefix : Bytes) (w : Writer) (g : Bytes → Bytes)
      → length w.frames ≡ d
      → ((bs : Bytes)
          → close (filled m buffered indefinite n bs (append prefix w))
            ≡ ok (append (g bs) (append prefix w)))
      → (fill (push_frame m buffered indefinite (append prefix w)) >>= close)
        ≡ (r >>= λ bs. ok (append (prefix ++ g bs) w))
  prefixed_frame m buffered indefinite prefix w g h closes =
      filled_frame m buffered indefinite (append prefix w) g (depth-append prefix w ∙ h) closes
      ∙ >>=_cong r _ _ (λ bs. ap ok (append-append prefix (g bs) w))

  pub definite :
      (m : Bool) (p : Bytes) (w : Writer)
      → length w.frames ≡ d
      → (fill (push_frame m false false (append p w)) >>= close)
        ≡ (r >>= λ bs. ok (append (p ++ bs) w))
  definite m p w h =
      prefixed_frame m false false p w (λ bs. bs) h (λ bs. close-definite m n bs (append p w))

  pub indefinite_frame :
      (m : Bool) (p : Bytes) (w : Writer)
      → length w.frames ≡ d
      → (fill (push_frame m false true (append p w)) >>= close)
        ≡ (r >>= λ bs. ok (append (p ++ (bs ++ (break_byte ∷ []))) w))
  indefinite_frame m p w h =
      prefixed_frame m false true p w (λ bs. bs ++ (break_byte ∷ [])) h
        (λ bs. close-indefinite m n bs (append p w))

  pub sequence-emit :
      (o : Options) (w : Writer)
      → length w.frames ≡ d
      → (begin_array o (some n) w >>= λ w'. fill w' >>= close)
        ≡ emit (within o d (r >>= λ body. ok (array_bytes o true n body))) w
  unfolding begin_array open_container
  sequence-emit o w h = elim (Bool-cases (leb o.max_depth d)) [
    | inl deep ↦ rw (depth-item w, h, deep)
    | inr fits ↦ elim (Bool-cases o.deterministic) [
      | inl det ↦
          rw (depth-item w, h, fits, det)
            (definite false (make_head Major.array n) (item w) (depth-item w ∙ h)
              ∙ sym (>>=_assoc r _ _))
      | inr free ↦ elim (Bool-cases o.indefinite) [
        | inl ind ↦
            rw (depth-item w, h, fits, free, ind)
              (indefinite_frame false (make_indefinite_head Major.array) (item w) (depth-item w ∙ h)
                ∙ sym (>>=_assoc r _ _))
        | inr def ↦
            rw (depth-item w, h, fits, free, def)
              (definite false (make_head Major.array n) (item w) (depth-item w ∙ h)
                ∙ sym (>>=_assoc r _ _))
      ]
    ]
  ]

  pub unsized-emit :
      (o : Options) (w : Writer)
      → length w.frames ≡ d
      → (begin_array o none w >>= λ w'. fill w' >>= close)
        ≡ emit (within o d (r >>= λ body. ok (array_bytes o false n body))) w
  unfolding begin_array open_container
  unsized-emit o w h = elim (Bool-cases (leb o.max_depth d)) [
    | inl deep ↦ rw (depth-item w, h, deep)
    | inr fits ↦ elim (Bool-cases o.deterministic) [
      | inl det ↦
          rw (depth-item w, h, fits, det)
            (filled_frame false true false (item w) (λ bs. make_head Major.array n ++ bs)
                (depth-item w ∙ h) (λ bs. close-counted n bs (item w))
              ∙ sym (>>=_assoc r _ _))
      | inr free ↦ elim (Bool-cases o.indefinite) [
        | inl ind ↦
            rw (depth-item w, h, fits, free, ind)
              (indefinite_frame false (make_indefinite_head Major.array) (item w) (depth-item w ∙ h)
                ∙ sym (>>=_assoc r _ _))
        | inr def ↦
            rw (depth-item w, h, fits, free, def)
              (indefinite_frame false (make_indefinite_head Major.array) (item w) (depth-item w ∙ h)
                ∙ sym (>>=_assoc r _ _))
      ]
    ]
  ]
