-- ===== src/Cbor/Read/Skip/Accepts.antt =====
-- The generic validator accepts what the encoder writes.
use v_codec.Base.{
  ℕ, suc, ◌+◌, ◌-◌, ◌*◌, ◌^◌, ◌≤◌, ◌<◌, Bool, true, false, List, [], ◌∷◌, ◌++◌, Bytes, length,
  length-append, if◌then◌else◌, ◌≡◌, refl, sym, ap, ◌∙◌, subst, arith, All,
}
use v_codec.Base.Int.{ℤ, pos, negsuc}
use v_codec.Core.Error.{Errc, Result, ok, err, ◌>>=◌, >>=-eq-ok}
use v_codec.Core.Value.{
  Key, Value, Values, Entries, null, boolean, tagged, sequence, unsized, nil, cons, end, entry,
  values_size, entries_size,
}
use v_codec.Cbor.Head.{Major, make_head, initial_byte, make_indefinite_head}
use v_codec.Cbor.Options.{Options}
use v_codec.Cbor.Write.Sort.{stable_sort, has_duplicate}
use v_codec.Cbor.Write.Sort.Laws.{length-stable_sort, All-stable_sort}
use v_codec.Cbor.Encode.Spec.{
  Pair, pair_key, text_bytes, int_bytes, key_bytes, concat_pairs, array_bytes, sorted_map_bytes,
  map_bytes, within, encoded, encoded_values, encoded_entries,
}
use v_codec.Cbor.Read.State.{Reader, advance}
use v_codec.Cbor.Read.Skip.{item_done, skip_major, skip_value}
use v_codec.Cbor.Read.Skip.Items.{concat, Skips}
use v_codec.Cbor.Read.Skip.Containers.{Skips-uint, Skips-nint, Skips-simple, Skips-container}
use v_codec.Cbor.Read.Skip.Leaves.{Skips-bytes, Skips-text, Skips-tag}
use v_codec.Cbor.Read.Skip.Brackets.{Skips-array_bracket, Skips-map_bracket}
use v_codec.Cbor.Read.Skip.Fits.{
  FitsInt, FitsKey, Fits, FitsValues, FitsEntries, flat, concat-flat, length-flat, within-ok,
  text_bytes-valid, either,
}

module _ (p : ℕ → ℕ → Bool) (o rd : Options) (free : rd.require_deterministic ≡ false)
    (deeper : o.max_depth ≤ rd.max_depth)
    (stricter : rd.validate_utf8 ≡ true → o.validate_utf8 ≡ true) where
  BothSkip : ℕ → Pair → Type 0
  BothSkip d (k, v) = Skips p rd d k × Skips p rd d v

  All-flat : (d : ℕ) (ps : List Pair) → All (BothSkip d) ps → All (Skips p rd d) (flat ps)
  unfolding BothSkip
  All-flat d [] h = tt
  All-flat d ((k, v) ∷ ps) ((hk, hv), h) = (hk, (hv, All-flat d ps h))

  text-Skips : (d : ℕ) (t bs : Bytes) → length t < 2 ^ 64 → text_bytes o t ≡ ok bs → Skips p rd d bs
  text-Skips d t bs fits h =
      let (e, valid) = text_bytes-valid o t bs h in
      subst (Skips p rd d) (sym e) (Skips-text p rd free d t fits (λ v. valid (stricter v)))

  int-Skips : (d : ℕ) (i : ℤ) → FitsInt i → Skips p rd d (int_bytes i)
  int-Skips d (pos n) fits = Skips-uint p rd free d n fits
  int-Skips d (negsuc n) fits = Skips-nint p rd free d n fits

  ok_bytes :
      (d : ℕ) (a bs : Bytes)
      → Path (Result Errc Bytes) (ok a) (ok bs)
      → Skips p rd d a
      → Skips p rd d bs
  ok_bytes d a bs h s = subst (Skips p rd d) (cc h) s

  key-Skips : (d : ℕ) (k : Key) (bs : Bytes) → FitsKey k → key_bytes o k ≡ ok bs → Skips p rd d bs
  key-Skips d (Key.text t) bs fits h = text-Skips d t bs fits h
  key-Skips d (Key.uint n) bs fits h = ok_bytes d _ bs h (Skips-uint p rd free d n fits)
  key-Skips d (Key.sint i) bs fits h = ok_bytes d _ bs h (int-Skips d i fits)

  -- An array, written under any of the options.
  array-Skips :
      (d : ℕ) (known : Bool) (n : ℕ) (xs : List Bytes)
      → d < o.max_depth
      → n < 2 ^ 64
      → length xs ≡ n
      → All (Skips p rd (suc d)) xs
      → Skips p rd d (array_bytes o known n (concat xs))
  unfolding skip_major
  array-Skips d known n xs room fits size h =
      either P o.deterministic _ _ definite
        (either P o.indefinite _ _ bracketed (either P known _ _ definite bracketed))
    where
      P : Bytes → Type 0
      P = Skips p rd d

      definite : Skips p rd d (make_head Major.array n ++ concat xs)
      definite =
          Skips-container p rd free d n Major.array (omega arith) (λ in' r stack. refl) fits xs h
            size (omega arith)

      bracketed : Skips p rd d (make_indefinite_head Major.array ++ (concat xs ++ (0xff ∷ [])))
      bracketed = Skips-array_bracket p rd free d xs (omega arith) h

  pairs-Skips :
      (d n : ℕ) (ps : List Pair)
      → d < o.max_depth
      → n * 2 < 2 ^ 64
      → length ps ≡ n
      → All (BothSkip (suc d)) ps
      → Skips p rd d (make_head Major.map n ++ concat_pairs ps)
  unfolding skip_major
  pairs-Skips d n ps room fits size h =
      subst (λ z. Skips p rd d (make_head Major.map n ++ z)) (concat-flat ps)
        (Skips-container p rd free d n Major.map (omega arith) (λ in' r stack. refl) (omega arith)
          (flat ps) (All-flat (suc d) ps h) (omega (arith, length-flat ps))
          (omega (arith, length-flat ps)))

  sorted-Skips :
      (d : ℕ) (ps : List Pair) (bs : Bytes)
      → d < o.max_depth
      → length ps * 2 < 2 ^ 64
      → All (BothSkip (suc d)) ps
      → sorted_map_bytes ps ≡ ok bs
      → Skips p rd d bs
  sorted-Skips d ps bs room fits h e = go (has_duplicate pair_key (stable_sort pair_key ps)) e
    where
      sorted : List Pair
      sorted = stable_sort pair_key ps

      go :
          (b : Bool)
          → (if b
              then err Errc.duplicate_key
              else ok (make_head Major.map (length ps) ++ concat_pairs sorted))
            ≡ ok bs
          → Skips p rd d bs
      go true e = absurd cc
      go false e = ok_bytes d _ bs e (
          pairs-Skips d (length ps) sorted room fits (length-stable_sort pair_key ps)
            (All-stable_sort pair_key (BothSkip (suc d)) ps h))

  -- A map, written under any of the options.
  map-Skips :
      (d n : ℕ) (ps : List Pair) (bs : Bytes)
      → d < o.max_depth
      → n * 2 < 2 ^ 64
      → length ps ≡ n
      → All (BothSkip (suc d)) ps
      → map_bytes o n ps ≡ ok bs
      → Skips p rd d bs
  map-Skips d n ps bs room fits size h = go o.deterministic o.indefinite
    where
      bracketed : Skips p rd d (make_indefinite_head Major.map ++ (concat_pairs ps ++ (0xff ∷ [])))
      bracketed =
          subst (λ z. Skips p rd d (make_indefinite_head Major.map ++ (z ++ (0xff ∷ []))))
            (concat-flat ps)
            (Skips-map_bracket p rd free d n (flat ps) (omega arith) (omega (arith, length-flat ps))
              (All-flat (suc d) ps h))

      go :
          (det indef : Bool)
          → (if det
              then sorted_map_bytes ps
              else if indef
              then ok (make_indefinite_head Major.map ++ (concat_pairs ps ++ (0xff ∷ [])))
              else ok (make_head Major.map n ++ concat_pairs ps))
            ≡ ok bs
          → Skips p rd d bs
      go true indef e = sorted-Skips d ps bs room (omega (arith, size)) h e
      go false true e = ok_bytes d _ bs e bracketed
      go false false e = ok_bytes d _ bs e (pairs-Skips d n ps room fits size h)

  PairParts : ℕ → ℕ → List Pair → Type 0
  PairParts d n ps = (length ps ≡ n) × All (BothSkip d) ps

  ok_pairs :
      (d n : ℕ) (qs ps : List Pair)
      → Path (Result Errc (List Pair)) (ok qs) (ok ps)
      → PairParts d n qs
      → PairParts d n ps
  ok_pairs d n qs ps h s = subst (PairParts d n) (cc h) s

  -- The bytes of `n` items, one after the other.
  Parts : ℕ → ℕ → Bytes → Type 0
  Parts d n body = (xs : List Bytes) × (concat xs ≡ body) × (length xs ≡ n) × All (Skips p rd d) xs

  sequence-Skips :
      (d : ℕ) (known : Bool) (n : ℕ) (items : Result Errc Bytes) (bs : Bytes)
      → n < 2 ^ 64
      → ((body : Bytes) → items ≡ ok body → Parts (suc d) n body)
      → within o d (items >>= λ body. ok (array_bytes o known n body)) ≡ ok bs
      → Skips p rd d bs
  unfolding Parts
  sequence-Skips d known n items bs fits parts h =
      let (room, h') = within-ok o d _ bs h in
      let (body, e, e') = >>=-eq-ok items _ h' in
      let (xs, whole, size, all) = parts body e in
      ok_bytes d _ bs (ap (λ z. ok (array_bytes o known n z)) whole ∙ e')
        (array-Skips d known n xs room fits size all)

  mutual
    unfolding Parts PairParts encoded encoded_values encoded_entries Fits FitsValues FitsEntries
        values_size entries_size BothSkip make_head initial_byte

    encoded-Skips :
        (d : ℕ) (v : Value) (bs : Bytes) → Fits v → encoded o d v ≡ ok bs → Skips p rd d bs
    encoded-Skips d null bs fits h = ok_bytes d _ bs h (Skips-simple p rd free d 22 (omega arith))
    encoded-Skips d (boolean true) bs fits h =
        ok_bytes d _ bs h (Skips-simple p rd free d 21 (omega arith))
    encoded-Skips d (boolean false) bs fits h =
        ok_bytes d _ bs h (Skips-simple p rd free d 20 (omega arith))
    encoded-Skips d (Value.uint n) bs fits h = ok_bytes d _ bs h (Skips-uint p rd free d n fits)
    encoded-Skips d (Value.sint i) bs fits h = ok_bytes d _ bs h (int-Skips d i fits)
    encoded-Skips d (Value.text t) bs fits h = text-Skips d t bs fits h
    encoded-Skips d (Value.bytes b) bs fits h = ok_bytes d _ bs h (Skips-bytes p rd free d b fits)
    encoded-Skips d (tagged t v) bs (fits, fits') h =
        let (inner, e, e') = >>=-eq-ok (encoded o d v) _ h in
        ok_bytes d _ bs e' (Skips-tag p rd free d t inner fits (encoded-Skips d v inner fits' e))
    encoded-Skips d (sequence vs) bs (fits, fits') h =
        sequence-Skips d true (values_size vs) (encoded_values o (suc d) vs) bs fits
          (λ b. values-Skips (suc d) vs b fits') h
    encoded-Skips d (unsized vs) bs (fits, fits') h =
        sequence-Skips d false (values_size vs) (encoded_values o (suc d) vs) bs fits
          (λ b. values-Skips (suc d) vs b fits') h
    encoded-Skips d (Value.map es) bs (fits, fits') h =
        let (room, h') = within-ok o d _ bs h in
        let (ps, e, e') = >>=-eq-ok (encoded_entries o (suc d) es) _ h' in
        let (size, all) = entries-Skips (suc d) es ps fits' e in
        map-Skips d (entries_size es) ps bs room fits size all e'

    values-Skips :
        (d : ℕ) (vs : Values) (body : Bytes)
        → FitsValues vs
        → encoded_values o d vs ≡ ok body
        → Parts d (values_size vs) body
    values-Skips d nil body fits h = ([], cc, refl, tt)
    values-Skips d (cons v vs) body (fits, fits') h =
        let (b, e, h') = >>=-eq-ok (encoded o d v) _ h in
        let (rest, e', h'') = >>=-eq-ok (encoded_values o d vs) _ h' in
        let (xs, whole, size, all) = values-Skips d vs rest fits' e' in
        (b ∷ xs, ap (λ z. b ++ z) whole ∙ cc, ap suc size, (encoded-Skips d v b fits e, all))

    entries-Skips :
        (d : ℕ) (es : Entries) (ps : List Pair)
        → FitsEntries es
        → encoded_entries o d es ≡ ok ps
        → PairParts d (entries_size es) ps
    entries-Skips d end ps fits h = ok_pairs d 0 [] ps h (refl, tt)
    entries-Skips d (entry k v es) ps (fits_key, (fits, fits')) h =
        let (kb, e, h1) = >>=-eq-ok (key_bytes o k) _ h in
        let (vb, e', h2) = >>=-eq-ok (encoded o d v) _ h1 in
        let (qs, e'', h3) = >>=-eq-ok (encoded_entries o d es) _ h2 in
        let (size, all) = entries-Skips d es qs fits' e'' in
        ok_pairs d (suc (entries_size es)) ((kb, vb) ∷ qs) ps h3
          (ap suc size, ((key-Skips d k kb fits_key e, encoded-Skips d v vb fits e'), all))

-- What the specification of the encoder gives for a value whose numbers and sizes fit 64 bits (a
-- map less than 2^63 entries), under any encoder options, `skip_value` accepts wherever it stands
-- in an input, and ends right behind it at the depth where it began, if the reader does not
-- require determinism, allows at least the encoder's depth, and checks UTF-8 only if the encoder
-- does. `p` is the check of preferred floats.
pub skip_value-encoded :
    (p : ℕ → ℕ → Bool) (o rd : Options) (d : ℕ) (v : Value) (before bs rest : Bytes) (r : Reader)
    → rd.require_deterministic ≡ false
    → o.max_depth ≤ rd.max_depth
    → (rd.validate_utf8 ≡ true → o.validate_utf8 ≡ true)
    → Fits v
    → encoded o d v ≡ ok bs
    → r.pos ≡ length before
    → r.depth ≡ d
    → skip_value p rd (before ++ (bs ++ rest)) r ≡ (ok tt, advance (length bs) r)
unfolding skip_value item_done
skip_value-encoded p o rd d v before bs rest r free deeper stricter fits h at deep =
    let in' = before ++ (bs ++ rest) in
    let s = encoded-Skips p o rd free deeper stricter d v bs fits h in
    let spare : length in' - r.pos ≡ s.rounds + (length in' - r.pos - s.rounds) =
      omega (arith, at, length-append before (bs ++ rest), length-append bs rest, s.bounded) in
    s.leads in' before rest r [] refl at deep (length in' - r.pos - s.rounds) (length in' - r.pos)
      spare
