-- ===== src/Json/Write/Refines.antt =====
-- The writer, with its stack of first elements, writes the text of the specification.
use v_codec.Base.{
  ℕ, suc, Bool, true, false, ◌&&◌, List, [], ◌∷◌, ◌++◌, append_assoc, append-nil, Bytes, length,
  leb, if◌then◌else◌, ◌≡◌, refl, sym, ap, ap₂, ◌∙◌, subst, Bool-cases, inl, inr,
}
use v_codec.Core.Error.{
  Errc, Result, ok, err, depth_exceeded, ◌>>=◌, >>=_cong, >>=_assoc, >>=-eq-ok,
}
use v_codec.Core.Value.{
  Key, Value, Values, Entries, null, boolean, tagged, sequence, unsized, nil, cons, end, entry,
}
use v_codec.Core.Sink.{encode_value, encode_values, encode_entries}
use v_codec.Json.Options.{Options}
use v_codec.Json.Number.{write_uint}
use v_codec.Json.Write
use v_codec.Json.Write.{
  Writer, new_writer, depth, put, before_value, before_item, newline, colon, json_sink, string_then,
  open_bracket, close, end_key, encode_append,
}
use v_codec.Json.Write.Spec.{
  key_chars, line_break, separator, bracketed, is_nil, is_end, text_of, elements, members, within,
}
use v_codec.Json.Write.Laws.{
  at, emit, before_value-at, before_value-separator_deep, not_behind_key, depth-before_value,
  string_then-put, sint-emit, bytes-emit, key-emit, close-at,
}

-- What is written between two brackets, in a state at depth `length fs`.
Inside : ℕ → Result Errc Bytes → (Writer → Result Errc Writer) → Bool → Type 0
Inside d r inner none_inside =
    (out : Bytes) (fs : List Bool)
    → length fs ≡ d
    → inner (at out (true ∷ fs)) ≡ (r >>= λ s. ok (at (out ++ s) (none_inside ∷ fs)))

opened : Options → ℕ → Writer → Result Errc Writer
opened o c w =
    if leb o.max_depth (depth w)
    then err depth_exceeded
    else ok (record w { out = w.out ++ (c ∷ []); first = true ∷ w.first })

container-at :
    (o : Options) (from to : ℕ) (out : Bytes) (fs : List Bool) (r : Result Errc Bytes)
    (inner : Writer → Result Errc Writer) (none_inside : Bool)
    → Inside (length fs) r inner none_inside
    → (opened o from (at out fs) >>= λ w. inner w >>= λ w'. ok (close o to w')) ≡ (
        within o (length fs) (r >>= λ s. ok (bracketed o (length fs) from to none_inside s))
        >>= λ s. ok (put s (at out fs)))
unfolding Inside opened
container-at o from to out fs r inner none_inside inside =
    elim (Bool-cases (leb o.max_depth (length fs))) [
      | inl over ↦ rw over refl
      | inr below ↦ rw below (
          ap (λ x. x >>= λ w'. ok (close o to w')) (inside (out ++ (from ∷ [])) fs refl)
          ∙ >>=_assoc r _ _
          ∙ >>=_cong r _ _ (λ s. ap ok (closed s))
          ∙ sym (>>=_assoc r _ _))
    ]
  where
    ending : Bytes
    ending = (if none_inside then [] else line_break o (length fs)) ++ (to ∷ [])

    closed :
        (s : Bytes)
        → close o to (at ((out ++ (from ∷ [])) ++ s) (none_inside ∷ fs))
          ≡ at (out ++ (from ∷ s ++ ending)) fs
    closed s =
        close-at o to ((out ++ (from ∷ [])) ++ s) none_inside fs
        ∙ ap (λ x. at x fs)
            (append_assoc (out ++ (from ∷ [])) s ending
              ∙ append_assoc out (from ∷ []) (s ++ ending))

container-emit :
    (o : Options) (from to d : ℕ) (w : Writer) (r : Result Errc Bytes)
    (inner : Writer → Result Errc Writer) (none_inside : Bool)
    → depth w ≡ d
    → Inside d r inner none_inside
    → (open_bracket o from w >>= λ w'. inner w' >>= λ w''. ok (close o to w''))
      ≡ emit o (within o d (r >>= λ s. ok (bracketed o d from to none_inside s))) w
unfolding open_bracket opened
container-emit o from to d w r inner none_inside h inside =
    let (out, fs, same, e) = before_value-at o w in
    let depths = same ∙ h in
    ap (λ x. opened o from x >>= λ w'. inner w' >>= λ w''. ok (close o to w'')) e
    ∙ container-at o from to out fs r inner none_inside
        (subst (λ n. Inside n r inner none_inside) (sym depths) inside)
    ∙ ap₂
        (λ n x.
          within o n (r >>= λ s. ok (bracketed o n from to none_inside s)) >>= λ s. ok (put s x))
        depths (sym e)

and_true : (f : Bool) → (f && true) ≡ f
and_true true = refl
and_true false = refl

and_false : (f : Bool) → (f && false) ≡ false
and_false true = refl
and_false false = refl

values_chain :
    (o : Options) (d : ℕ) (f : Bool) (out : Bytes) (fs : List Bool) (r rs : Result Errc Bytes)
    (rest : Writer → Result Errc Writer)
    → length fs ≡ d
    → ((out : Bytes) → rest (at out (false ∷ fs)) ≡ (rs >>= λ t. ok (at (out ++ t) (false ∷ fs))))
    → (emit o r (at out (f ∷ fs)) >>= rest) ≡ (
        (r >>= λ s. rs >>= λ t. ok (separator o (suc d) f ++ (s ++ t))) >>= λ b.
        ok (at (out ++ b) (false ∷ fs)))
values_chain o d f out fs r rs rest h follows =
    ap (λ w. (r >>= λ s. ok (put s w)) >>= rest) (before_value-separator_deep o d out f fs h)
    ∙ >>=_assoc r _ rest
    ∙ >>=_cong r _ _ (λ s.
      follows ((out ++ lead) ++ s)
      ∙ >>=_cong rs _ _ (λ t. ap (λ x. ok (at x (false ∷ fs))) (joined s t))
      ∙ sym (>>=_assoc rs _ _))
    ∙ sym (>>=_assoc r _ _)
  where
    lead : Bytes
    lead = separator o (suc d) f

    joined : (s t : Bytes) → ((out ++ lead) ++ s) ++ t ≡ out ++ (lead ++ (s ++ t))
    joined s t = append_assoc (out ++ lead) s t ∙ append_assoc out lead (s ++ t)

-- Behind a key.
keyed : Bytes → List Bool → Writer
keyed out fs = record { out = out; after_key = true; first = fs }

members_chain :
    (o : Options) (d : ℕ) (f : Bool) (out : Bytes) (fs : List Bool) (k : Key)
    (r rs : Result Errc Bytes) (value rest : Writer → Result Errc Writer)
    → length fs ≡ d
    → ((out : Bytes) → value (keyed out (false ∷ fs)) ≡ emit o r (keyed out (false ∷ fs)))
    → ((out : Bytes) → rest (at out (false ∷ fs)) ≡ (rs >>= λ t. ok (at (out ++ t) (false ∷ fs))))
    → (Write.key o k (at out (f ∷ fs)) >>= λ w. value w >>= rest) ≡ (
        (key_chars o k >>= λ n.
        r >>= λ s. rs >>= λ t. ok (separator o (suc d) f ++ (n ++ (colon o ++ (s ++ t)))))
        >>= λ b. ok (at (out ++ b) (false ∷ fs)))
unfolding before_value keyed
members_chain o d f out fs k r rs value rest h valued follows =
    ap (λ x. x >>= λ w. value w >>= rest)
      (key-emit o k (at out (f ∷ fs))
        ∙ ap (λ w. key_chars o k >>= λ n. ok (end_key o (put n w)))
            (before_value-separator_deep o d out f fs h))
    ∙ >>=_assoc (key_chars o k) _ _
    ∙ >>=_cong (key_chars o k) _ _ (λ n.
      ap (λ x. x >>= rest) (valued (((out ++ lead) ++ n) ++ colon o))
      ∙ >>=_assoc r _ rest
      ∙ >>=_cong r _ _ (λ s.
        follows ((((out ++ lead) ++ n) ++ colon o) ++ s)
        ∙ >>=_cong rs _ _ (λ t. ap (λ x. ok (at x (false ∷ fs))) (joined n s t))
        ∙ sym (>>=_assoc rs _ _))
      ∙ sym (>>=_assoc r _ _))
    ∙ sym (>>=_assoc (key_chars o k) _ _)
  where
    lead : Bytes
    lead = separator o (suc d) f

    joined :
        (n s t : Bytes)
        → ((((out ++ lead) ++ n) ++ colon o) ++ s) ++ t
          ≡ out ++ (lead ++ (n ++ (colon o ++ (s ++ t))))
    joined n s t =
        append_assoc (((out ++ lead) ++ n) ++ colon o) s t
        ∙ append_assoc ((out ++ lead) ++ n) (colon o) (s ++ t)
        ∙ append_assoc (out ++ lead) n (colon o ++ (s ++ t))
        ∙ append_assoc out lead (n ++ (colon o ++ (s ++ t)))

mutual
  unfolding encode_value encode_values encode_entries text_of elements members Inside Write.null
      Write.boolean Write.uint Write.text Write.tag write_uint keyed

  value-emit :
      (o : Options) (d : ℕ) (v : Value) (w : Writer)
      → depth w ≡ d
      → encode_value (json_sink o) v w ≡ emit o (text_of o d v) w
  value-emit o d null w h = refl
  value-emit o d (boolean b) w h = refl
  value-emit o d (Value.uint n) w h = refl
  value-emit o d (Value.sint i) w h = sint-emit o i w
  value-emit o d (Value.text t) w h = string_then-put o t (λ x. x) (before_value o w)
  value-emit o d (Value.bytes b) w h = bytes-emit o b w
  value-emit o d (tagged t v) w h = value-emit o d v w h
  value-emit o d (sequence vs) w h =
      container-emit o 0x5B 0x5D d w (elements o (suc d) true vs) (encode_values (json_sink o) vs)
        (is_nil vs) h (λ out fs same. values-emit o d true vs out fs same)
  value-emit o d (unsized vs) w h =
      container-emit o 0x5B 0x5D d w (elements o (suc d) true vs) (encode_values (json_sink o) vs)
        (is_nil vs) h (λ out fs same. values-emit o d true vs out fs same)
  value-emit o d (Value.map es) w h =
      container-emit o 0x7B 0x7D d w (members o (suc d) true es) (encode_entries (json_sink o) es)
        (is_end es) h (λ out fs same. entries-emit o d true es out fs same)

  values-emit :
      (o : Options) (d : ℕ) (f : Bool) (vs : Values) (out : Bytes) (fs : List Bool)
      → length fs ≡ d
      → encode_values (json_sink o) vs (at out (f ∷ fs))
        ≡ (elements o (suc d) f vs >>= λ s. ok (at (out ++ s) ((f && is_nil vs) ∷ fs)))
  values-emit o d f nil out fs h = rw (and_true f, append-nil out) refl
  values-emit o d f (cons v vs) out fs h = rw (and_false f) (
      ap (λ x. x >>= encode_values (json_sink o) vs)
        (value-emit o (suc d) v (at out (f ∷ fs)) (ap (λ n. suc n) h))
      ∙ values_chain o d f out fs (text_of o (suc d) v) (elements o (suc d) false vs)
          (encode_values (json_sink o) vs) h (λ out'. values-emit o d false vs out' fs h))

  entries-emit :
      (o : Options) (d : ℕ) (f : Bool) (es : Entries) (out : Bytes) (fs : List Bool)
      → length fs ≡ d
      → encode_entries (json_sink o) es (at out (f ∷ fs))
        ≡ (members o (suc d) f es >>= λ s. ok (at (out ++ s) ((f && is_end es) ∷ fs)))
  entries-emit o d f end out fs h = rw (and_true f, append-nil out) refl
  entries-emit o d f (entry k v es) out fs h = rw (and_false f) (
      members_chain o d f out fs k (text_of o (suc d) v) (members o (suc d) false es)
        (encode_value (json_sink o) v) (encode_entries (json_sink o) es) h
        (λ out'. value-emit o (suc d) v (keyed out' (false ∷ fs)) (ap (λ n. suc n) h))
        (λ out'. entries-emit o d false es out' fs h))

-- In any state of the writer, at any depth and under all options, `encode_value` appends the text
-- that the recursive specification `text_of` gives, after what `before_value` puts in front of a
-- value, and fails exactly as the specification does.
pub encode_value-text_of :
    (o : Options) (v : Value) (w : Writer)
    → encode_value (json_sink o) v w
      ≡ (text_of o (depth w) v >>= λ s. ok (put s (before_value o w)))
encode_value-text_of o v w = value-emit o (depth w) v w refl

-- `encode_append` leaves the bytes that it is given and appends the text of the value by the
-- recursive specification `text_of`, compact or pretty, or throws what the specification says.
pub encode_append-text_of :
    (o : Options) (v : Value) (out : Bytes)
    → encode_append o v out ≡ (text_of o 0 v >>= λ s. ok (out ++ s))
unfolding encode_append before_value
encode_append-text_of o v out =
    ap (λ x. x >>= λ w. ok w.out) (encode_value-text_of o v (new_writer out))
    ∙ >>=_assoc (text_of o 0 v) _ _

-- When `encode_value` returns for the JSON writer, the writer is at the depth where it began, and
-- not behind a key.
pub depth-encode_value :
    (o : Options) (v : Value) (w w' : Writer)
    → encode_value (json_sink o) v w ≡ ok w'
    → (depth w' ≡ depth w) × (w'.after_key ≡ false)
depth-encode_value o v w w' h =
    let (s, _, whole) =
      >>=-eq-ok (text_of o (depth w) v) _ (sym (encode_value-text_of o v w) ∙ h) in
    let same : put s (before_value o w) ≡ w' = cc whole in
    (
      sym (ap (λ x. depth x) same) ∙ depth-before_value o w,
      sym (ap (λ x. x.after_key) same) ∙ not_behind_key o w,
    )
