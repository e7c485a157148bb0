-- ===== src/Cbor/Encode/Spec.antt =====
-- The bytes of a value, by recursion on the value: no frames, no buffers, no slices. `d` is the
-- number of containers around it.
use v_codec.Base.{ℕ, suc, Bool, none, some, List, [], ◌∷◌, Bytes, ◌++◌, length, if◌then◌else◌, leb}
use v_codec.Base.Int.{ℤ, pos, negsuc}
use v_codec.Core.Error.{Errc, depth_exceeded, duplicate_key, invalid_utf8, Result, ok, err, ◌>>=◌}
use v_codec.Core.Utf8.{validate_utf8}
use v_codec.Core.Value.{
  Key, Value, Values, Entries, null, boolean, tagged, sequence, unsized, nil, cons, end, entry,
  values_size, entries_size,
}
use v_codec.Cbor.Head.{Major, make_head, make_indefinite_head, break_byte}
use v_codec.Cbor.Options.{Options}
use v_codec.Cbor.Write.Sort.{stable_sort, has_duplicate}

abbrev pub text_bytes : Options → Bytes → Result Errc Bytes
text_bytes o t =
    if o.validate_utf8
    then (elim (validate_utf8 t) [
      | none ↦ ok (make_head Major.text (length t) ++ t)
      | some bad ↦ err invalid_utf8
    ])
    else ok (make_head Major.text (length t) ++ t)

abbrev pub int_bytes : ℤ → Bytes
int_bytes (pos n) = make_head Major.uint n
int_bytes (negsuc n) = make_head Major.nint n

abbrev pub key_bytes : Options → Key → Result Errc Bytes
key_bytes o (Key.text k) = text_bytes o k
key_bytes o (Key.uint k) = ok (make_head Major.uint k)
key_bytes o (Key.sint k) = ok (int_bytes k)

-- A map entry: the bytes of its key and of its value.
abbrev pub Pair : Type 0
Pair = Bytes × Bytes

abbrev pub pair_key : Pair → Bytes
pair_key p = p.0

abbrev pub concat_pairs : List Pair → Bytes
concat_pairs [] = []
concat_pairs ((k, v) ∷ ps) = (k ++ v) ++ concat_pairs ps

abbrev pub bracket : Major → Bytes → Bytes
bracket m body = make_indefinite_head m ++ (body ++ (break_byte ∷ []))

-- An array of `n` items; `known` says that the size was known in advance.
abbrev pub array_bytes : Options → Bool → ℕ → Bytes → Bytes
array_bytes o known n body =
    if o.deterministic
    then make_head Major.array n ++ body
    else if o.indefinite
    then bracket Major.array body
    else if known
    then make_head Major.array n ++ body
    else bracket Major.array body

-- The deterministic form: sorted by key, and no key twice.
abbrev pub sorted_map_bytes : List Pair → Result Errc Bytes
sorted_map_bytes ps =
    let order = stable_sort pair_key ps in
    if has_duplicate pair_key order
    then err duplicate_key
    else ok (make_head Major.map (length ps) ++ concat_pairs order)

-- A map whose size `n` was known in advance.
abbrev pub map_bytes : Options → ℕ → List Pair → Result Errc Bytes
map_bytes o n ps =
    if o.deterministic
    then sorted_map_bytes ps
    else if o.indefinite
    then ok (bracket Major.map (concat_pairs ps))
    else ok (make_head Major.map n ++ concat_pairs ps)

abbrev pub within {ℓ} : {A : Type ℓ} → Options → ℕ → Result Errc A → Result Errc A
within o d r = if leb o.max_depth d then err depth_exceeded else r

unfoldable mutual
  pub encoded : Options → ℕ → Value → Result Errc Bytes
  encoded o d null = ok (0xF6 ∷ [])
  encoded o d (boolean b) = ok ((if b then 0xF5 else 0xF4) ∷ [])
  encoded o d (Value.uint n) = ok (make_head Major.uint n)
  encoded o d (Value.sint i) = ok (int_bytes i)
  encoded o d (Value.text t) = text_bytes o t
  encoded o d (Value.bytes b) = ok (make_head Major.bytes (length b) ++ b)
  encoded o d (tagged t v) = encoded o d v >>= λ bs. ok (make_head Major.tag t ++ bs)
  encoded o d (sequence vs) =
      within o d
        (encoded_values o (suc d) vs >>= λ body. ok (array_bytes o Bool.true (values_size vs) body))
  encoded o d (unsized vs) =
      within o d (
        encoded_values o (suc d) vs >>= λ body. ok (array_bytes o Bool.false (values_size vs) body))
  encoded o d (Value.map es) =
      within o d (encoded_entries o (suc d) es >>= map_bytes o (entries_size es))

  pub encoded_values : Options → ℕ → Values → Result Errc Bytes
  encoded_values o d nil = ok []
  encoded_values o d (cons v vs) =
      encoded o d v >>= λ b. encoded_values o d vs >>= λ bs. ok (b ++ bs)

  pub encoded_entries : Options → ℕ → Entries → Result Errc (List Pair)
  encoded_entries o d end = ok []
  encoded_entries o d (entry k v es) = key_bytes o k >>= λ kb.
      encoded o d v >>= λ vb. encoded_entries o d es >>= λ ps. ok ((kb, vb) ∷ ps)
