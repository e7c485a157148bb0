-- ===== src/Json/Write/Spec.antt =====
-- The JSON text of a value, by recursion on the value: no writer, no stack. `d` is the number of
-- brackets around it.
use v_codec.Base.{ℕ, suc, ◌*◌, Bool, true, false, [], ◌∷◌, ◌++◌, Bytes, leb, if◌then◌else◌}
use v_codec.Base.Int.{ℤ}
use v_codec.Core.Error.{Errc, Result, ok, err, depth_exceeded, ◌>>=◌}
use v_codec.Core.Base64.{b64_groups}
use v_codec.Core.Value.{
  Key, Value, Values, Entries, null, boolean, tagged, sequence, unsized, nil, cons, end, entry,
}
use v_codec.Json.Options.{Options}
use v_codec.Json.Number.{decimal}
use v_codec.Json.Escape.Runs.{literal, accepted}
use v_codec.Json.Write.{spaces, null_word, boolean_word, colon}

abbrev pub string_chars : Options → Bytes → Result Errc Bytes
string_chars o t = accepted o.validate_utf8 t >>= λ _. ok (literal t)

abbrev pub int_chars : ℤ → Bytes
int_chars (ℤ.pos n) = decimal n
int_chars (ℤ.negsuc n) = 0x2D ∷ decimal (suc n)

abbrev pub in_quotes : Bytes → Bytes
in_quotes s = 0x22 ∷ s ++ (0x22 ∷ [])

abbrev pub key_chars : Options → Key → Result Errc Bytes
key_chars o (Key.text k) = string_chars o k
key_chars o (Key.uint k) = ok (in_quotes (decimal k))
key_chars o (Key.sint k) = ok (in_quotes (int_chars k))

-- In the pretty form, a new line that is indented for depth `d`.
abbrev pub line_break : Options → ℕ → Bytes
line_break o d = if o.pretty then 0x0A ∷ spaces (d * o.indent) else []

-- What stands in front of an element at depth `d`, the first one or another one.
abbrev pub separator : Options → ℕ → Bool → Bytes
separator o d true = line_break o d
separator o d false = 0x2C ∷ line_break o d

-- The brackets of a container at depth `d` around its elements.
abbrev pub bracketed : Options → ℕ → ℕ → ℕ → Bool → Bytes → Bytes
bracketed o d from to none_inside s =
    from ∷ s ++ ((if none_inside then [] else line_break o d) ++ (to ∷ []))

abbrev pub is_nil : Values → Bool
is_nil nil = true
is_nil (cons v vs) = false

abbrev pub is_end : Entries → Bool
is_end end = true
is_end (entry k v es) = false

abbrev pub within : Options → ℕ → Result Errc Bytes → Result Errc Bytes
within o d r = if leb o.max_depth d then err depth_exceeded else r

unfoldable mutual
  pub text_of : Options → ℕ → Value → Result Errc Bytes
  text_of o d null = ok null_word
  text_of o d (boolean b) = ok (boolean_word b)
  text_of o d (Value.uint n) = ok (decimal n)
  text_of o d (Value.sint i) = ok (int_chars i)
  text_of o d (Value.text t) = string_chars o t
  text_of o d (Value.bytes b) = ok (in_quotes (b64_groups false b))
  text_of o d (tagged t v) = text_of o d v
  text_of o d (sequence vs) =
      within o d (elements o (suc d) true vs >>= λ s. ok (bracketed o d 0x5B 0x5D (is_nil vs) s))
  text_of o d (unsized vs) =
      within o d (elements o (suc d) true vs >>= λ s. ok (bracketed o d 0x5B 0x5D (is_nil vs) s))
  text_of o d (Value.map es) =
      within o d (members o (suc d) true es >>= λ s. ok (bracketed o d 0x7B 0x7D (is_end es) s))

  pub elements : Options → ℕ → Bool → Values → Result Errc Bytes
  elements o d first nil = ok []
  elements o d first (cons v vs) =
      text_of o d v >>= λ s. elements o d false vs >>= λ t. ok (separator o d first ++ (s ++ t))

  pub members : Options → ℕ → Bool → Entries → Result Errc Bytes
  members o d first end = ok []
  members o d first (entry k v es) = key_chars o k >>= λ n. text_of o d v >>= λ s.
      members o d false es >>= λ t. ok (separator o d first ++ (n ++ (colon o ++ (s ++ t))))
