-- ===== src/Cbor/Encode/Refines.antt =====
-- The writer, with its frames, buffers and slices, writes the bytes of the specification.
use v_codec.Base.{
  ℕ, suc, Bool, true, List, [], ◌∷◌, Bytes, ◌++◌, append-nil, length, if◌then◌else◌, ◌||◌,
  Bool-cases, inl, inr, ◌≡◌, refl, sym, ap, ◌∙◌, arith,
}
use v_codec.Core.Error.{Errc, Result, ok, ◌>>=◌, >>=_cong, >>=_assoc, >>=-eq-ok}
use v_codec.Core.Value.{
  Value, Values, Entries, null, boolean, tagged, sequence, unsized, nil, cons, end, entry,
  values_size, entries_size,
}
use v_codec.Cbor.Options.{Options}
use v_codec.Cbor.Write.State
use v_codec.Cbor.Write.State.{Frame, Writer, new_writer, append, append_frames, item}
use v_codec.Cbor.Write.Laws.{append-append, append-empty, depth-append, depth-item}
use v_codec.Cbor.Head.{Major, make_head, append_head}
use v_codec.Core.Sink.{encode_value, encode_values, encode_entries}
use v_codec.Cbor.Encode.{cbor_sink, encode_append, self_describe_tag, with_type_determinism_encode}
use v_codec.Cbor.Encode.Spec.{concat_pairs, encoded, encoded_values, encoded_entries}
use v_codec.Cbor.Encode.Frames.{emit, items, items-none, item-items, items-append}
use v_codec.Cbor.Encode.Containers.{
  text-emit, sint-emit, bytes-emit, tag-emit, sequence-emit, unsized-emit,
}
use v_codec.Cbor.Encode.MapEntries.{
  Plain, gathered, entry-emit_direct, entry-emit_buffered, map-emit,
}

-- A value and then the others, in a sequence.
values_chain :
    (n d : ℕ) (r rs : Result Errc Bytes) (rest : Writer → Result Errc Writer) (w : Writer)
    → length w.frames ≡ d
    → ((w : Writer) → length w.frames ≡ d → rest w ≡ (rs >>= λ bs. ok (append bs (items n w))))
    → (emit r w >>= rest)
      ≡ ((r >>= λ b. rs >>= λ bs. ok (b ++ bs)) >>= λ bs. ok (append bs (items (suc n) w)))
values_chain n d r rs rest w h rest_emits =
    >>=_assoc r _ rest
    ∙ >>=_cong r _ _ (λ b.
      rest_emits (append b (item w)) (depth-append b (item w) ∙ depth-item w ∙ h)
      ∙ >>=_cong rs _ _ (λ bs. ap ok (state b bs))
      ∙ sym (>>=_assoc rs _ _))
    ∙ sym (>>=_assoc r _ _)
  where
    state :
        (b bs : Bytes)
        → append bs (items n (append b (item w))) ≡ append (b ++ bs) (items (suc n) w)
    state b bs =
        ap (append bs) (items-append n b (item w) ∙ ap (append b) (item-items n w))
        ∙ append-append b bs (items (suc n) w)

gathered-none : (f : Frame) → f ≡ gathered 0 [] f
gathered-none f = ground (arith, append-nil f.body, append-nil f.entries)

mutual
  unfolding encode_value encode_values encode_entries encoded encoded_values encoded_entries
      values_size entries_size State.null State.boolean State.uint State.tag

  value-emit :
      (o : Options) (d : ℕ) (v : Value) (w : Writer)
      → length w.frames ≡ d
      → encode_value (cbor_sink o) v w ≡ emit (encoded o d v) w
  value-emit o d null w h = refl
  value-emit o d (boolean b) w h = refl
  value-emit o d (Value.uint n) w h = refl
  value-emit o d (Value.sint i) w h = sint-emit i w
  value-emit o d (Value.text t) w h = text-emit o t w
  value-emit o d (Value.bytes b) w h = bytes-emit b w
  value-emit o d (tagged t v) w h =
      value-emit o d v (State.tag t w) (depth-append (make_head Major.tag t) w ∙ h)
      ∙ tag-emit t (encoded o d v) w
  value-emit o d (sequence vs) w h =
      sequence-emit (values_size vs) d (encoded_values o (suc d) vs)
        (encode_values (cbor_sink o) vs) (values-emit o (suc d) vs) o w h
  value-emit o d (unsized vs) w h =
      unsized-emit (values_size vs) d (encoded_values o (suc d) vs) (encode_values (cbor_sink o) vs)
        (values-emit o (suc d) vs) o w h
  value-emit o d (Value.map es) w h =
      map-emit o (entries_size es) d (encoded_entries o (suc d) es)
        (encode_entries (cbor_sink o) es) (entries-emit_direct o (suc d) es)
        (entries-emit_buffered o (suc d) es) w h

  values-emit :
      (o : Options) (d : ℕ) (vs : Values) (w : Writer)
      → length w.frames ≡ d
      → encode_values (cbor_sink o) vs w
        ≡ (encoded_values o d vs >>= λ bs. ok (append bs (items (values_size vs) w)))
  values-emit o d nil w h = ap ok (sym (append-empty _ ∙ items-none w))
  values-emit o d (cons v vs) w h =
      ap (λ x. x >>= encode_values (cbor_sink o) vs) (value-emit o d v w h)
      ∙ values_chain (values_size vs) d (encoded o d v) (encoded_values o d vs)
          (encode_values (cbor_sink o) vs) w h (values-emit o d vs)

  entries-emit_direct :
      (o : Options) (d : ℕ) (es : Entries) (w : Writer)
      → length w.frames ≡ d
      → Plain w.frames
      → encode_entries (cbor_sink o) es w ≡ (
          encoded_entries o d es >>= λ ps.
          ok (append (concat_pairs ps) (items (entries_size es) w)))
  entries-emit_direct o d end w h plain = ap ok (sym (append-empty _ ∙ items-none w))
  entries-emit_direct o d (entry k v es) w h plain =
      entry-emit_direct o k (encoded o d v) (encoded_entries o d es) (encode_value (cbor_sink o) v)
        (encode_entries (cbor_sink o) es) d (value-emit o d v) (entries_size es) w h plain
        (entries-emit_direct o d es)

  entries-emit_buffered :
      (o : Options) (d : ℕ) (es : Entries) (out : Bytes) (f : Frame) (fs : List Frame)
      → suc (length fs) ≡ d
      → f.buffered ≡ true
      → encode_entries (cbor_sink o) es (record { out = out; frames = f ∷ fs }) ≡ (
          encoded_entries o d es >>= λ ps.
          ok (record { out = out; frames = gathered (entries_size es) ps f ∷ fs }))
  entries-emit_buffered o d end out f fs h b =
      ap (λ x. ok (record { out = out; frames = x ∷ fs })) (gathered-none f)
  entries-emit_buffered o d (entry k v es) out f fs h b =
      entry-emit_buffered o k (encoded o d v) (encoded_entries o d es)
        (encode_value (cbor_sink o) v) (encode_entries (cbor_sink o) es) d (value-emit o d v)
        (entries_size es) out f fs h b (λ f' b'. entries-emit_buffered o d es out f' fs h b')

-- In any state of the writer, at any depth and under all options, `encode_value` appends the bytes
-- that the recursive specification `encoded` gives, as one item, to the innermost buffer, or
-- throws what the specification says.
pub encode_value-encoded :
    (o : Options) (v : Value) (w : Writer)
    → encode_value (cbor_sink o) v w
      ≡ (encoded o (length w.frames) v >>= λ bs. ok (append bs (item w)))
encode_value-encoded o v w = value-emit o (length w.frames) v w refl

-- The self-describe tag, where the options or the type ask for it.
abbrev pub describe_prefix : Options → Bool → Bytes
describe_prefix o describe =
    if o.self_describe || describe then make_head Major.tag self_describe_tag else []

encode_fresh :
    (o : Options) (v : Value) (out : Bytes)
    → (encode_value (cbor_sink o) v (new_writer out) >>= λ w. ok w.out)
      ≡ (encoded o 0 v >>= λ bs. ok (out ++ bs))
unfolding append append_frames item
encode_fresh o v out =
    ap (λ x. x >>= λ w. ok w.out) (encode_value-encoded o v (new_writer out))
    ∙ >>=_assoc (encoded o 0 v) _ _

describe_prefix_lem :
    (o : Options) (describe : Bool) (out : Bytes)
    → (if o.self_describe || describe then append_head out Major.tag self_describe_tag else out)
      ≡ out ++ describe_prefix o describe
unfolding append_head
describe_prefix_lem o describe out = elim (Bool-cases (o.self_describe || describe)) [
  | inl e ↦ rw e
  | inr e ↦ rw e (sym (append-nil out))
]

-- `encode_append` leaves the bytes that it is given and appends the self-describe tag, if the
-- options or the type ask for it, and the encoding of the value by the recursive specification
-- `encoded`, under the options that the type's determinism sets; it throws what the specification
-- says.
pub encode_append-encoded :
    (opts : Options) (det describe : Bool) (v : Value) (out : Bytes)
    → encode_append opts det describe v out ≡ (
        encoded (with_type_determinism_encode opts det) 0 v >>= λ bs.
        ok ((out ++ describe_prefix (with_type_determinism_encode opts det) describe) ++ bs))
unfolding encode_append
encode_append-encoded opts det describe v out =
    let o = with_type_determinism_encode opts det in
    encode_fresh o v _
    ∙ ap (λ p. encoded o 0 v >>= λ bs. ok (p ++ bs)) (describe_prefix_lem o describe out)

-- When `encode_value` returns for the CBOR writer, as many frames are open as before.
pub frames-encode_value :
    (o : Options) (v : Value) (w w' : Writer)
    → encode_value (cbor_sink o) v w ≡ ok w'
    → length w'.frames ≡ length w.frames
frames-encode_value o v w w' h =
    let (bs, _, whole) =
      >>=-eq-ok (encoded o (length w.frames) v) _ (sym (encode_value-encoded o v w) ∙ h) in
    let same : append bs (item w) ≡ w' = cc whole in
    sym (ap (λ x. length x.frames) same) ∙ depth-append bs (item w) ∙ depth-item w
