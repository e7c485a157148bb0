-- ===== src/Json/Read/Skip.antt =====
-- `skip_value` of include/vcodec/json/read.hpp: the generic validator, a state machine with a stack.
pub mod Steps
pub mod Tokens
pub mod Brackets
pub mod Layout
pub mod Groups
pub mod Progress
pub mod Terminates
pub mod Accepts
use v_codec.Base.{
  ℕ, zero, suc, ◌+◌, ◌-◌, ◌*◌, ◌/◌, ◌%◌, ◌^◌, ◌≤◌, ◌<◌, ◌≢◌, Bool, true, false, not, ◌||◌, ◌&&◌,
  Option, none, some, List, [], ◌∷◌, ◌++◌, append_assoc, append-nil, Bytes, length, length-append,
  drop, drop-append, take, take-append, ltb, leb, ◌==◌, if◌then◌else◌, ◌≡◌, refl, sym, ap, ap₂, ◌∙◌,
  subst, arith, All, Bool-cases, inl, inr,
}
use v_codec.Core.Error.{Errc, Error, Result, ok, err, truncated, depth_exceeded, invalid_number}
use v_codec.Core.Kind.{Kind, TextRef}
use v_codec.Core.Call.{error}
use v_codec.Json.Options.{Options}
use v_codec.Json.Number.{Parsed, NumberScan, scan_number, is_digit}
use v_codec.Json.Read.State.{
  Reader, Call, advance, ahead, skip_ws, unexpected, literal, front_is, true_word, false_word,
  null_word,
}
use v_codec.Json.Read.Strings.{parse_string}
use v_codec.Json.Read.Expect.{pass, number_error}

-- `state`
pub data State : Type 0 where
  want_value want_key after_value : State

-- What a round of the loop comes to: another round, a return, or an error. The stack is
-- `is_object[0 .. local)`, with its last entry in front.
pub data Next : Type 0 where
  go : State → List Bool → Reader → Next
  done : Reader → Next
  failed : Error → Reader → Next

abbrev pub closer : Bool → ℕ
closer is_object = if is_object then 0x7D else 0x5D

abbrev pub item_state : Bool → State
item_state is_object = if is_object then want_key else want_value

-- Behind an opening bracket: an empty container, or its first item.
abbrev pub first_item : Bool → List Bool → Bytes → Reader → Next
first_item is_object stack [] r = failed (record { code = truncated; offset = r.pos }) r
first_item is_object stack (c ∷ cs) r =
    if c == closer is_object
    then go after_value stack (advance 1 r)
    else go (item_state is_object) (is_object ∷ stack) r

unfoldable pub open_container : Options → Bytes → Bool → List Bool → Reader → Next
open_container o in' is_object stack r =
    let r' = skip_ws in' (advance 1 r) in
    if leb o.max_depth (r.depth + length stack)
    then failed (record { code = depth_exceeded; offset = r.pos }) r
    else first_item is_object stack (ahead in' r') r'

-- A scalar that was passed, or its error.
abbrev pub after_scalar : {A : Type 0} → List Bool → Result Error A × Reader → Next
after_scalar stack (ok a, r) = go after_value stack r
after_scalar stack (err e, r) = failed e r

abbrev pub after_number : List Bool → NumberScan → Kind → Reader → Next
after_number stack n Kind.undefined r =
    failed (record { code = number_error n.error; offset = r.pos }) r
after_number stack n _ r = go after_value stack (advance n.length r)

-- The colon behind a key.
abbrev pub after_colon : List Bool → Result Error (Unit {0}) × Reader → Next
after_colon stack (ok u, r) = go want_value stack r
after_colon stack (err e, r) = failed e r

abbrev pub after_key : Bytes → List Bool → Result Error TextRef × Reader → Next
after_key in' stack (err e, r) = failed e r
after_key in' stack (ok k, r) = after_colon stack (pass in' 0x3A (skip_ws in' r))

unfoldable pub key_ahead : Options → Bytes → ℕ → List Bool → Reader → Next
key_ahead o in' c stack r =
    if c == 0x22 then after_key in' stack (parse_string o in' r) else failed (unexpected in' r) r

-- Behind a comma, a closing bracket is a trailing comma.
abbrev pub after_comma : Bytes → Bool → List Bool → Reader → Next
after_comma in' top stack r =
    let r' = skip_ws in' r in
    if front_is 0x7D (ahead in' r') || front_is 0x5D (ahead in' r')
    then failed (unexpected in' r') r'
    else go (item_state top) (top ∷ stack) r'

-- Behind a value, in a container.
unfoldable pub value_behind : Bytes → ℕ → Bool → List Bool → Reader → Next
value_behind in' c top stack r =
    if c == 0x2C
    then after_comma in' top stack (advance 1 r)
    else if c == closer top
    then go after_value stack (advance 1 r)
    else failed (unexpected in' r) r

module _ (from_chars : Bytes → Parsed) where
  unfoldable pub value_ahead : Options → Bytes → ℕ → List Bool → Reader → Next
  value_ahead o in' c stack r =
      if (c == 0x5B) || (c == 0x7B)
      then open_container o in' (c == 0x7B) stack r
      else if c == 0x22
      then after_scalar stack (parse_string o in' r)
      else if c == 0x74
      then after_scalar stack (literal in' true_word r)
      else if c == 0x66
      then after_scalar stack (literal in' false_word r)
      else if c == 0x6E
      then after_scalar stack (literal in' null_word r)
      else if (c == 0x2D) || is_digit c
      then after_number stack (scan_number from_chars (ahead in' r))
          (scan_number from_chars (ahead in' r)).kind r
      else failed (unexpected in' r) r

  -- The `switch` on the state; `c` is what is ahead.
  unfoldable pub skip_switch : Options → Bytes → ℕ → State → List Bool → Reader → Next
  skip_switch o in' c want_value stack r = value_ahead o in' c stack r
  skip_switch o in' c want_key stack r = key_ahead o in' c stack r
  skip_switch o in' c after_value [] r = done r
  skip_switch o in' c after_value (top ∷ stack) r = value_behind in' c top stack r

  abbrev pub skip_at : Options → Bytes → Bytes → State → List Bool → Reader → Next
  skip_at o in' [] st stack r = failed (record { code = truncated; offset = r.pos }) r
  skip_at o in' (c ∷ cs) st stack r = skip_switch o in' c st stack r

  -- A round, unless the value is complete.
  unfoldable pub skip_step : Options → Bytes → State → List Bool → Reader → Next
  skip_step o in' after_value [] r = done r
  skip_step o in' st stack r = let r' = skip_ws in' r in skip_at o in' (ahead in' r') st stack r'

  -- The loop. A round that goes on takes a byte at least, and one more round returns.
  unfoldable pub skip_loop :
      Options → Bytes → ℕ → State → List Bool → Reader → Result Error (Unit {0}) × Reader
  skip_loop o in' zero st stack r = (error truncated r.pos, r)
  skip_loop o in' (suc fuel) st stack r = elim (skip_step o in' st stack r) [
    | go st' stack' r' ↦ skip_loop o in' fuel st' stack' r'
    | done r' ↦ (ok tt, r')
    | failed e r' ↦ (err e, r')
  ]

  unfoldable pub skip_value : Options → Bytes → Call (Unit {0})
  skip_value o in' r = skip_loop o in' (suc (length in' - r.pos)) want_value [] r
