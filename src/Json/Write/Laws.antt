-- ===== src/Json/Write/Laws.antt =====
-- The states that the writer's calls leave, and single calls against the specification.
use v_codec.Base.{
  ℕ, suc, ◌*◌, Bool, true, false, List, [], ◌∷◌, ◌++◌, append_assoc, append-nil, Bytes, length,
  ◌==◌, if◌then◌else◌, ◌≡◌, refl, sym, ap, ◌∙◌, arith, Bool-cases, inl, inr,
}
use v_codec.Base.Int.{ℤ}
use v_codec.Core.Error.{Errc, Result, ok, ◌>>=◌, >>=_assoc}
use v_codec.Core.Base64.{b64_groups, base64_encode}
use v_codec.Core.Value.{Key}
use v_codec.Json.Options.{Options}
use v_codec.Json.Number.{decimal, write_uint, write_sint}
use v_codec.Json.Escape.Runs.{accepted, write_string-literal}
use v_codec.Json.Write
use v_codec.Json.Write.{
  Writer, new_writer, depth, put, before_value, before_item, newline, colon, json_sink, string_then,
  open_bracket, close, end_key, encode_append,
}
use v_codec.Json.Write.Spec.{string_chars, int_chars, in_quotes, key_chars, line_break, separator}

-- A writer that is not behind a key.
abbrev pub at : Bytes → List Bool → Writer
at out fs = record { out = out; after_key = false; first = fs }

abbrev pub emit : Options → Result Errc Bytes → Writer → Result Errc Writer
emit o r w = r >>= λ s. ok (put s (before_value o w))

not_flat : (n : ℕ) → (suc n == 0) ≡ false
not_flat n = ground arith

before_value-separator :
    (o : Options) (out : Bytes) (f : Bool) (fs : List Bool)
    → before_value o (at out (f ∷ fs)) ≡ at (out ++ separator o (suc (length fs)) f) (false ∷ fs)
unfolding before_value newline
before_value-separator o out true fs = elim (Bool-cases o.pretty) [
  | inl on ↦ rw (not_flat (length fs), on) refl
  | inr off ↦ rw (not_flat (length fs), off) (ap (λ x. at x (false ∷ fs)) (sym (append-nil out)))
]
before_value-separator o out false fs = elim (Bool-cases o.pretty) [
  | inl on ↦
      rw (not_flat (length fs), on)
        (ap (λ x. at x (false ∷ fs))
          (append_assoc out (0x2C ∷ []) (0x0A ∷ Write.spaces (suc (length fs) * o.indent))))
  | inr off ↦ rw (not_flat (length fs), off) refl
]

-- The state that `before_value` leaves, by its members.
before_value-members :
    (o : Options) (out : Bytes) (behind_key : Bool) (fs : List Bool)
    → (out' : Bytes) × (fs' : List Bool) × (length fs' ≡ length fs)
      × (before_value o (record { out = out; after_key = behind_key; first = fs }) ≡ at out' fs')
unfolding before_value newline
before_value-members o out true fs = (out, fs, refl, refl)
before_value-members o out false [] = (out, [], refl, refl)
before_value-members o out false (f ∷ fs) =
    (out ++ separator o (suc (length fs)) f, false ∷ fs, refl, before_value-separator o out f fs)

pub before_value-at :
    (o : Options) (w : Writer)
    → (out : Bytes) × (fs : List Bool) × (length fs ≡ depth w) × (before_value o w ≡ at out fs)
before_value-at o w = before_value-members o w.out w.after_key w.first

pub not_behind_key : (o : Options) (w : Writer) → (before_value o w).after_key ≡ false
not_behind_key o w = let (out, fs, same, e) = before_value-at o w in ap (λ x. x.after_key) e

pub depth-before_value : (o : Options) (w : Writer) → depth (before_value o w) ≡ depth w
depth-before_value o w = let (out, fs, same, e) = before_value-at o w in ap (λ x. depth x) e ∙ same

put-put : (a b : Bytes) (w : Writer) → put b (put a w) ≡ put (a ++ b) w
put-put a b w = ap (λ x. record w { out = x }) (append_assoc w.out a b)

-- Strings.
pub string_then-put :
    (o : Options) (t : Bytes) (after : Writer → Writer) (w : Writer)
    → string_then o t after w ≡ (string_chars o t >>= λ s. ok (after (put s w)))
string_then-put o t after w =
    ap (λ r. r >>= λ out. ok (after (record w { out = out })))
      (write_string-literal o.validate_utf8 t w.out)
    ∙ >>=_assoc (accepted o.validate_utf8 t) _ _
    ∙ sym (>>=_assoc (accepted o.validate_utf8 t) _ _)

pub sint-emit :
    (o : Options) (i : ℤ) (w : Writer) → ok (Write.sint o i w) ≡ emit o (ok (int_chars i)) w
unfolding Write.sint write_sint
sint-emit o (ℤ.pos n) w = refl
sint-emit o (ℤ.negsuc n) w = refl

quoted-put :
    (s : Bytes) (w : Writer) → put (0x22 ∷ []) (put s (put (0x22 ∷ []) w)) ≡ put (in_quotes s) w
quoted-put s w =
    put-put s (0x22 ∷ []) (put (0x22 ∷ []) w) ∙ put-put (0x22 ∷ []) (s ++ (0x22 ∷ [])) w

pub bytes-emit :
    (o : Options) (b : Bytes) (w : Writer)
    → ok (Write.bytes o b w) ≡ emit o (ok (in_quotes (b64_groups false b))) w
unfolding Write.bytes Write.write_bytes base64_encode
bytes-emit o b w = ap ok (quoted-put (b64_groups false b) (before_value o w))

pub key-emit :
    (o : Options) (k : Key) (w : Writer)
    → Write.key o k w ≡ (key_chars o k >>= λ n. ok (end_key o (put n (before_value o w))))
unfolding Write.key Write.key_text Write.key_uint Write.key_sint Write.uint_as_string
    Write.sint_as_string write_uint write_sint
key-emit o (Key.text k) w = string_then-put o k (end_key o) (before_value o w)
key-emit o (Key.uint k) w = ap (λ x. ok (end_key o x)) (quoted-put (decimal k) (before_value o w))
key-emit o (Key.sint (ℤ.pos n)) w =
    ap (λ x. ok (end_key o x)) (quoted-put (decimal n) (before_value o w))
key-emit o (Key.sint (ℤ.negsuc n)) w =
    ap (λ x. ok (end_key o x)) (quoted-put (0x2D ∷ decimal (suc n)) (before_value o w))

-- The end of a container with elements or without.
pub close-at :
    (o : Options) (c : ℕ) (out : Bytes) (left : Bool) (fs : List Bool)
    → close o c (at out (left ∷ fs))
      ≡ at (out ++ ((if left then [] else line_break o (length fs)) ++ (c ∷ []))) fs
unfolding close newline
close-at o c out true fs = elim (Bool-cases o.pretty) [
  | inl on ↦ rw on refl
  | inr off ↦ rw off refl
]
close-at o c out false fs = elim (Bool-cases o.pretty) [
  | inl on ↦
      rw on
        (ap (λ x. at x fs) (append_assoc out (0x0A ∷ Write.spaces (length fs * o.indent)) (c ∷ [])))
  | inr off ↦ rw off refl
]

pub before_value-separator_deep :
    (o : Options) (d : ℕ) (out : Bytes) (f : Bool) (fs : List Bool)
    → length fs ≡ d
    → before_value o (at out (f ∷ fs)) ≡ at (out ++ separator o (suc d) f) (false ∷ fs)
before_value-separator_deep o d out f fs h =
    before_value-separator o out f fs ∙ ap (λ n. at (out ++ separator o (suc n) f) (false ∷ fs)) h
