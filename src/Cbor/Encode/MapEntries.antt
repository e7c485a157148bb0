-- ===== src/Cbor/Encode/MapEntries.antt =====
-- The entries of a map, in a frame that is buffered and in one that is not.
use v_codec.Base.{
  ℕ, suc, ◌+◌, Bool, true, false, some, List, [], ◌∷◌, Bytes, ◌++◌, append_assoc, append-nil,
  length, length-append, ◌≡◌, refl, sym, ap, ◌∙◌, arith, leb, Bool-cases, inl, inr,
}
use v_codec.Core.Error.{Errc, Result, ok, ◌>>=◌, >>=_cong, >>=_assoc}
use v_codec.Core.Value.{Key}
use v_codec.Cbor.Options.{Options}
use v_codec.Cbor.Head.{Major, make_head, make_indefinite_head, break_byte}
use v_codec.Cbor.Write.State.{
  Entry, Frame, Writer, append_frames, append, count_item, item, push_frame, new_frame, key_start,
  key_end, begin_map, open_container,
}
use v_codec.Cbor.Write.Laws.{append-append, item-append, depth-append, depth-item}
use v_codec.Cbor.Write.Close.{close}
use v_codec.Cbor.Encode.Spec.{
  Pair, concat_pairs, sorted_map_bytes, map_bytes, within, bracket, key_bytes,
}
use v_codec.Cbor.Encode.Frames.{
  emit, items, item-items, items-append, filled, close-definite, close-indefinite,
}
use v_codec.Cbor.Encode.Maps.{offsets, key-buffered, close_map-sorted}
use v_codec.Cbor.Encode.{encode_key}
use v_codec.Cbor.Encode.Containers.{key_call, encode_key-key_call}

-- The innermost frame, if there is one, is not buffered.
abbrev pub Plain : List Frame → Type 0
Plain [] = Unit
Plain (f ∷ fs) = f.buffered ≡ false

pub Plain-append : (a : Bytes) (w : Writer) → Plain w.frames → Plain (append a w).frames
unfolding append
Plain-append a w = go w.frames w.out
  where
    go : (fs : List Frame) (out : Bytes) → Plain fs → Plain (append_frames fs out a).frames
    go [] out h = unfold append_frames in tt
    go (f ∷ fs) out h = unfold append_frames in rw (h)

pub Plain-item : (w : Writer) → Plain w.frames → Plain (item w).frames
unfolding item
Plain-item w = go w.frames
  where
    go : (fs : List Frame) → Plain fs → Plain (count_item fs)
    go [] h = h
    go (f ∷ fs) h = h

pub key_call-Plain : (kb : Bytes) (w : Writer) → Plain w.frames → key_call kb w ≡ append kb w
unfolding key_start key_end append append_frames
key_call-Plain kb w h = go w.frames w.out h
  where
    go :
        (fs : List Frame) (out : Bytes)
        → Plain fs
        → key_call kb (record { out = out; frames = fs })
          ≡ append kb (record { out = out; frames = fs })
    go [] out h = refl
    go (f ∷ fs) out h = ground arith

-- What a buffered frame holds after the pairs `ps`, `n` of them.
abbrev pub gathered : ℕ → List Pair → Frame → Frame
gathered n ps f = record f {
  items = f.items + n;
  body = f.body ++ concat_pairs ps;
  entries = f.entries ++ offsets (length f.body) ps;
}

-- The state after one entry in a buffered frame.
abbrev pub entered : Bytes → Bytes → Frame → Frame
entered kb vb f = gathered 1 ((kb, vb) ∷ []) f

pub entry-buffered :
    (kb vb out : Bytes) (f : Frame) (fs : List Frame)
    → f.buffered ≡ true
    → append vb (item (key_call kb (record { out = out; frames = f ∷ fs })))
      ≡ record { out = out; frames = entered kb vb f ∷ fs }
unfolding append append_frames item
entry-buffered kb vb out f fs b =
    rw (key-buffered kb out f fs b)
      (ground (arith, append_assoc f.body kb vb, append-nil (kb ++ vb), length-append f.body kb))

pub gathered-cons :
    (n : ℕ) (kb vb : Bytes) (ps : List Pair) (f : Frame)
    → gathered n ps (entered kb vb f) ≡ gathered (suc n) ((kb, vb) ∷ ps) f
gathered-cons n kb vb ps f = ground (
  arith,
  append-nil (kb ++ vb),
  append_assoc f.body (kb ++ vb) (concat_pairs ps),
  append_assoc f.entries (key_slot ∷ []) (offsets (length f.body + length (kb ++ vb)) ps),
  length-append f.body (kb ++ vb),
)
  where
    key_slot : Entry
    key_slot = record { start = length f.body; key_end = length f.body + length kb }

entry_depth :
    (kb vb : Bytes) (w : Writer) → length (append vb (item (append kb w))).frames ≡ length w.frames
entry_depth kb vb w = depth-append vb _ ∙ depth-item (append kb w) ∙ depth-append kb w

entry_state :
    (n : ℕ) (kb vb c : Bytes) (w : Writer)
    → append c (items n (append vb (item (append kb w))))
      ≡ append ((kb ++ vb) ++ c) (items (suc n) w)
entry_state n kb vb c w =
    ap (append c) (
      items-append n vb (item (append kb w))
      ∙ ap (λ x. append vb (items n x)) (item-append kb w)
      ∙ ap (append vb) (items-append n kb (item w) ∙ ap (append kb) (item-items n w))
      ∙ append-append kb vb (items (suc n) w))
    ∙ append-append (kb ++ vb) c (items (suc n) w)

-- One entry, and then the rest: `value` writes `r`, and `rest` writes the other entries.
module _ (o : Options) (k : Key) (r : Result Errc Bytes) (rs : Result Errc (List Pair))
    (value rest : Writer → Result Errc Writer) (d : ℕ)
    (value_emits : (w : Writer) → length w.frames ≡ d → value w ≡ emit r w) where
  -- The chain up to the value's bytes.
  entry_chain :
      (w : Writer)
      → ((kb : Bytes) → length (key_call kb w).frames ≡ d)
      → (encode_key o k w >>= λ w'. value w' >>= rest)
        ≡ (key_bytes o k >>= λ kb. r >>= λ vb. rest (append vb (item (key_call kb w))))
  entry_chain w depth =
      ap (λ x. x >>= λ w'. value w' >>= rest) (encode_key-key_call o k w)
      ∙ >>=_assoc (key_bytes o k) _ _
      ∙ >>=_cong (key_bytes o k) _ _
          (λ kb. ap (λ x. x >>= rest) (value_emits (key_call kb w) (depth kb)) ∙ >>=_assoc r _ rest)

  -- The specification's chain, with what is done to its pairs.
  spec_chain :
      (g : List Pair → Writer)
      → ((key_bytes o k >>= λ kb. r >>= λ vb. rs >>= λ ps. ok ((kb, vb) ∷ ps)) >>= λ ps. ok (g ps))
        ≡ (key_bytes o k >>= λ kb. r >>= λ vb. rs >>= λ ps. ok (g ((kb, vb) ∷ ps)))
  spec_chain g =
      >>=_assoc (key_bytes o k) _ _
      ∙ >>=_cong (key_bytes o k) _ _
          (λ kb. >>=_assoc r _ _ ∙ >>=_cong r _ _ (λ vb. >>=_assoc rs _ _))

  pub entry-emit_direct :
      (n : ℕ) (w : Writer)
      → length w.frames ≡ d
      → Plain w.frames
      → ((w : Writer)
          → length w.frames ≡ d
          → Plain w.frames
          → rest w ≡ (rs >>= λ ps. ok (append (concat_pairs ps) (items n w))))
      → (encode_key o k w >>= λ w'. value w' >>= rest) ≡ (
          (key_bytes o k >>= λ kb. r >>= λ vb. rs >>= λ ps. ok ((kb, vb) ∷ ps)) >>= λ ps.
          ok (append (concat_pairs ps) (items (suc n) w)))
  entry-emit_direct n w h plain rest_emits =
      entry_chain w
        (λ kb. ap (λ x. length x.frames) (key_call-Plain kb w plain) ∙ depth-append kb w ∙ h)
      ∙ >>=_cong (key_bytes o k) _ _ (λ kb. >>=_cong r _ _ (λ vb.
        ap (λ x. rest (append vb (item x))) (key_call-Plain kb w plain)
        ∙ rest_emits (append vb (item (append kb w))) (entry_depth kb vb w ∙ h) (
            Plain-append vb (item (append kb w))
              (Plain-item (append kb w) (Plain-append kb w plain)))
        ∙ >>=_cong rs _ _ (λ ps. ap ok (entry_state n kb vb (concat_pairs ps) w))))
      ∙ sym (spec_chain (λ ps. append (concat_pairs ps) (items (suc n) w)))

  pub entry-emit_buffered :
      (n : ℕ) (out : Bytes) (f : Frame) (fs : List Frame)
      → suc (length fs) ≡ d
      → f.buffered ≡ true
      → ((f : Frame)
          → f.buffered ≡ true
          → rest (record { out = out; frames = f ∷ fs })
            ≡ (rs >>= λ ps. ok (record { out = out; frames = gathered n ps f ∷ fs })))
      → (encode_key o k (record { out = out; frames = f ∷ fs }) >>= λ w'. value w' >>= rest) ≡ (
          (key_bytes o k >>= λ kb. r >>= λ vb. rs >>= λ ps. ok ((kb, vb) ∷ ps)) >>= λ ps.
          ok (record { out = out; frames = gathered (suc n) ps f ∷ fs }))
  entry-emit_buffered n out f fs h b rest_emits =
      entry_chain (record { out = out; frames = f ∷ fs })
        (λ kb. ap (λ x. length x.frames) (key-buffered kb out f fs b) ∙ h)
      ∙ >>=_cong (key_bytes o k) _ _ (λ kb. >>=_cong r _ _ (λ vb.
        ap rest (entry-buffered kb vb out f fs b)
        ∙ rest_emits (entered kb vb f) b
        ∙ >>=_cong rs _ _ (λ ps.
          ap (λ x. ok (record { out = out; frames = x ∷ fs })) (gathered-cons n kb vb ps f))))
      ∙ sym (spec_chain (λ ps. record { out = out; frames = gathered (suc n) ps f ∷ fs }))

-- A map, whose entries are written by `fill`.
module _ (o : Options) (n d : ℕ) (r : Result Errc (List Pair)) (fill : Writer → Result Errc Writer)
    (fills_plain : (w : Writer)
      → length w.frames ≡ suc d
      → Plain w.frames
      → fill w ≡ (r >>= λ ps. ok (append (concat_pairs ps) (items n w))))
    (fills_buffered : (out : Bytes) (f : Frame) (fs : List Frame)
      → suc (length fs) ≡ suc d
      → f.buffered ≡ true
      → fill (record { out = out; frames = f ∷ fs })
        ≡ (r >>= λ ps. ok (record { out = out; frames = gathered n ps f ∷ fs }))) where
  sorted_frame :
      (w : Writer)
      → length w.frames ≡ d
      → (fill (push_frame true true false w) >>= close)
        ≡ (r >>= λ ps. sorted_map_bytes ps >>= λ bs. ok (append bs w))
  unfolding close push_frame
  sorted_frame w h =
      ap (λ x. x >>= close)
        (fills_buffered w.out (new_frame true true false) w.frames (ap suc h) refl)
      ∙ >>=_assoc r _ close
      ∙ >>=_cong r _ _
          (λ ps. close_map-sorted ps (gathered n ps (new_frame true true false)) refl refl w)

  plain_frame :
      (indefinite : Bool) (prefix : Bytes) (w : Writer) (g : Bytes → Bytes)
      → length w.frames ≡ d
      → ((bs : Bytes)
          → close (filled true false indefinite n bs (append prefix w))
            ≡ ok (append (g bs) (append prefix w)))
      → (fill (push_frame true false indefinite (append prefix w)) >>= close)
        ≡ (r >>= λ ps. ok (append (prefix ++ g (concat_pairs ps)) w))
  unfolding push_frame
  plain_frame indefinite prefix w g h closes =
      ap (λ x. x >>= close)
        (fills_plain (push_frame true false indefinite (append prefix w))
          (ap suc (depth-append prefix w ∙ h)) refl)
      ∙ >>=_assoc r _ close
      ∙ >>=_cong r _ _
          (λ ps. closes (concat_pairs ps) ∙ ap ok (append-append prefix (g (concat_pairs ps)) w))

  definite_map :
      (w : Writer)
      → length w.frames ≡ d
      → (fill (push_frame true false false (append (make_head Major.map n) (item w))) >>= close)
        ≡ emit (r >>= λ ps. ok (make_head Major.map n ++ concat_pairs ps)) w
  definite_map w h =
      plain_frame false (make_head Major.map n) (item w) (λ bs. bs) (depth-item w ∙ h)
        (λ bs. close-definite true n bs (append (make_head Major.map n) (item w)))
      ∙ sym (>>=_assoc r _ _)

  indefinite_map :
      (w : Writer)
      → length w.frames ≡ d
      → (fill (push_frame true false true (append (make_indefinite_head Major.map) (item w)))
          >>= close)
        ≡ emit (r >>= λ ps. ok (bracket Major.map (concat_pairs ps))) w
  indefinite_map w h =
      plain_frame true (make_indefinite_head Major.map) (item w) (λ bs. bs ++ (break_byte ∷ []))
        (depth-item w ∙ h)
        (λ bs. close-indefinite true n bs (append (make_indefinite_head Major.map) (item w)))
      ∙ sym (>>=_assoc r _ _)

  pub map-emit :
      (w : Writer)
      → length w.frames ≡ d
      → (begin_map o (some n) w >>= λ w'. fill w' >>= close)
        ≡ emit (within o d (r >>= map_bytes o n)) w
  unfolding begin_map open_container
  map-emit w h = elim (Bool-cases (leb o.max_depth d)) [
    | inl deep ↦ rw (depth-item w, h, deep)
    | inr fits ↦ elim (Bool-cases o.deterministic) [
      | inl det ↦
          rw (depth-item w, h, fits, det)
            (sorted_frame (item w) (depth-item w ∙ h) ∙ sym (>>=_assoc r _ _))
      | inr free ↦ elim (Bool-cases o.indefinite) [
        | inl ind ↦ rw (depth-item w, h, fits, free, ind) (indefinite_map w h)
        | inr def ↦ rw (depth-item w, h, fits, free, def) (definite_map w h)
      ]
    ]
  ]
