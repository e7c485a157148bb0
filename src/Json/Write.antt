-- ===== src/Json/Write.antt =====
-- The JSON sink: `writer` of include/vcodec/json/write.hpp. `std::to_chars` for a double is a
-- parameter, and a double is its 64 bits.
pub mod Spec
pub mod Laws
pub mod Refines
pub mod Plain
pub mod Fits
pub mod Fronts
use v_codec.Base.{
  ℕ, zero, suc, ◌+◌, ◌-◌, ◌*◌, ◌/◌, ◌%◌, ◌^◌, ◌≤◌, ◌<◌, ◌≢◌, Bool, true, false, not, ◌||◌, ◌&&◌,
  Option, none, some, List, [], ◌∷◌, ◌++◌, append_assoc, append-nil, Bytes, length, length-append,
  drop, drop-append, take, take-append, ltb, leb, ◌==◌, if◌then◌else◌, ◌≡◌, refl, sym, ap, ap₂, ◌∙◌,
  subst, arith, All, Bool-cases, inl, inr,
}
use v_codec.Base.Int.{ℤ}
use v_codec.Core.Error.{Errc, Result, ok, err, depth_exceeded, ◌>>=◌}
use v_codec.Core.Hex.{hex_encode}
use v_codec.Core.Base64.{base64_encode}
use v_codec.Core.Value.{Key, Value}
use v_codec.Core.Sink.{Sink, encode_value}
use v_codec.Json.Annotations.{BytesEncoding, base64, base64url, hex}
use v_codec.Json.Options.{Options}
use v_codec.Json.Number.{write_uint, write_sint}
use v_codec.Json.Escape.{write_string, prepared_key_blob}

-- The members of the writer, with the output. Of `first_` the list has the entries from `depth_`
-- down to 1, so that its length is `depth_`: `open` sets the entry above before anything reads it.
pub record Writer : Type 0 where
  pub out : Bytes
  pub after_key : Bool
  pub first : List Bool

-- `explicit writer(out)`
abbrev pub new_writer : Bytes → Writer
new_writer out = record { out = out; after_key = false; first = [] }

abbrev pub depth : Writer → ℕ
depth w = length w.first

-- `out_.append(s)`
abbrev pub put : Bytes → Writer → Writer
put s w = record w { out = w.out ++ s }

-- `n` spaces
unfoldable pub spaces : ℕ → Bytes
spaces zero = []
spaces (suc n) = 0x20 ∷ spaces n

unfoldable pub newline : Options → Writer → Writer
unfolding spaces
newline o w = put (0x0A ∷ spaces (depth w * o.indent)) w

-- `if (first_[depth_]) first_[depth_] = false; else out_.push_back(',');`
abbrev pub before_item : List Bool → Writer → Writer
before_item [] w = w
before_item (true ∷ fs) w = record w { first = false ∷ fs }
before_item (false ∷ fs) w = put (0x2C ∷ []) w

unfoldable pub before_value : Options → Writer → Writer
unfolding newline
before_value o w =
    if w.after_key
    then record w { after_key = false }
    else if depth w == 0
    then w
    else if o.pretty
    then newline o (before_item w.first w)
    else before_item w.first w

-- `null`, `true`, `false`
abbrev pub null_word : Bytes
null_word = 0x6E ∷ 0x75 ∷ 0x6C ∷ 0x6C ∷ []

abbrev pub boolean_word : Bool → Bytes
boolean_word true = 0x74 ∷ 0x72 ∷ 0x75 ∷ 0x65 ∷ []
boolean_word false = 0x66 ∷ 0x61 ∷ 0x6C ∷ 0x73 ∷ 0x65 ∷ []

unfoldable pub null : Options → Writer → Writer
unfolding before_value
null o w = put null_word (before_value o w)

unfoldable pub boolean : Options → Bool → Writer → Writer
unfolding before_value
boolean o b w = put (boolean_word b) (before_value o w)

unfoldable pub uint : Options → ℕ → Writer → Writer
unfolding before_value write_uint
uint o u w = let w' = before_value o w in record w' { out = write_uint u w'.out }

unfoldable pub sint : Options → ℤ → Writer → Writer
unfolding before_value write_sint
sint o i w = let w' = before_value o w in record w' { out = write_sint i w'.out }

-- `std::isfinite`: not all eleven bits of the exponent are set.
abbrev pub is_finite : ℕ → Bool
is_finite d = not (d / 2 ^ 52 % 2 ^ 11 == 2047)

-- `write_real`, and `real`
unfoldable pub write_real : (ℕ → Bytes) → ℕ → Bytes → Bytes
write_real to_chars d out = if is_finite d then out ++ to_chars d else out ++ null_word

unfoldable pub real : (ℕ → Bytes) → Options → ℕ → Writer → Writer
unfolding before_value write_real
real to_chars o d w = let w' = before_value o w in record w' { out = write_real to_chars d w'.out }

-- `write_string` on the output, and then `after`.
abbrev pub string_then : Options → Bytes → (Writer → Writer) → Writer → Result Errc Writer
string_then o t after w =
    write_string o.validate_utf8 t w.out >>= λ out. ok (after (record w { out = out }))

unfoldable pub text : Options → Bytes → Writer → Result Errc Writer
unfolding before_value
text o t w = string_then o t (λ w'. w') (before_value o w)

-- `write_bytes`
abbrev pub lowered : BytesEncoding → Bytes → Bytes → Bytes
lowered base64 b out = base64_encode b out false
lowered base64url b out = base64_encode b out true
lowered hex b out = hex_encode b out

unfoldable pub write_bytes : Options → Bytes → BytesEncoding → Writer → Writer
unfolding before_value base64_encode hex_encode
write_bytes o b enc w =
    let w' = put (0x22 ∷ []) (before_value o w) in
    put (0x22 ∷ []) (record w' { out = lowered enc b w'.out })

-- `bytes(b)`, without an annotation.
unfoldable pub bytes : Options → Bytes → Writer → Writer
unfolding write_bytes
bytes o b w = write_bytes o b base64 w

-- `uint` and `sint` of a member with `as_string`.
unfoldable pub uint_as_string : Options → ℕ → Writer → Writer
unfolding before_value write_uint
uint_as_string o u w =
    let w' = put (0x22 ∷ []) (before_value o w) in
    put (0x22 ∷ []) (record w' { out = write_uint u w'.out })

unfoldable pub sint_as_string : Options → ℤ → Writer → Writer
unfolding before_value write_sint
sint_as_string o i w =
    let w' = put (0x22 ∷ []) (before_value o w) in
    put (0x22 ∷ []) (record w' { out = write_sint i w'.out })

-- What follows a key: `:`, a space in the pretty form, and `after_key_ = true`.
abbrev pub colon : Options → Bytes
colon o = if o.pretty then 0x3A ∷ 0x20 ∷ [] else 0x3A ∷ []

abbrev pub end_key : Options → Writer → Writer
end_key o w = record w { out = w.out ++ colon o; after_key = true }

-- `key`, for text and for integers in quotes.
unfoldable pub key_text : Options → Bytes → Writer → Result Errc Writer
unfolding before_value
key_text o k w = string_then o k (end_key o) (before_value o w)

unfoldable pub key_uint : Options → ℕ → Writer → Writer
unfolding uint_as_string
key_uint o k w = end_key o (uint_as_string o k w)

unfoldable pub key_sint : Options → ℤ → Writer → Writer
unfolding sint_as_string
key_sint o k w = end_key o (sint_as_string o k w)

-- `prepared_key`
unfoldable pub prepared_key : Options → Bytes → Writer → Writer
unfolding before_value prepared_key_blob
prepared_key o name w = record (put (prepared_key_blob name o.pretty) (before_value o w)) {
  after_key = true;
}

-- `tag`: dropped on write.
unfoldable pub tag : ℕ → Writer → Writer
tag t w = w

-- `open`, whose `before_value` stands in front of the check.
unfoldable pub open_bracket : Options → ℕ → Writer → Result Errc Writer
unfolding before_value
open_bracket o c w =
    let w' = before_value o w in
    if leb o.max_depth (depth w')
    then err depth_exceeded
    else ok (record w' { out = w'.out ++ (c ∷ []); first = true ∷ w'.first })

-- `first_[depth_]` and `--depth_`
abbrev pub is_empty : List Bool → Bool
is_empty [] = false
is_empty (f ∷ fs) = f

abbrev pub pop : List Bool → List Bool
pop [] = []
pop (f ∷ fs) = fs

-- `close`
unfoldable pub close : Options → ℕ → Writer → Writer
unfolding newline
close o c w =
    let w' = record w { first = pop w.first } in
    put (c ∷ []) (if o.pretty && not (is_empty w.first) then newline o w' else w')

unfoldable pub key : Options → Key → Writer → Result Errc Writer
unfolding key_text key_uint key_sint
key o (Key.text k) w = key_text o k w
key o (Key.uint k) w = ok (key_uint o k w)
key o (Key.sint k) w = ok (key_sint o k w)

-- The writer as a sink.
abbrev pub json_sink : Options → Sink Writer
json_sink o = record {
  on_null = λ w. ok (null o w);
  on_boolean = λ b w. ok (boolean o b w);
  on_uint = λ n w. ok (uint o n w);
  on_sint = λ i w. ok (sint o i w);
  on_text = text o;
  on_bytes = λ b w. ok (bytes o b w);
  begin_array = λ n. open_bracket o 0x5B;
  end_array = λ w. ok (close o 0x5D w);
  begin_map = λ n. open_bracket o 0x7B;
  end_map = λ w. ok (close o 0x7D w);
  on_key = key o;
  on_tag = λ t w. ok (tag t w);
}

-- `encode_append`, and `encode`
unfoldable pub encode_append : Options → Value → Bytes → Result Errc Bytes
encode_append o v out = encode_value (json_sink o) v (new_writer out) >>= λ w. ok w.out

unfoldable pub encode : Options → Value → Result Errc Bytes
unfolding encode_append
encode o v = encode_append o v []
