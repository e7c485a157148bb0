-- ===== src/Core/ErrorPath.antt =====
-- The member path of an error, leaf-first while the calls unwind and root-first in the end:
-- include/vcodec/error.hpp, classes `error` and `encode_error`. Only the path and its two marks are
-- kept here, and the strings that a step refers to are part of the step.
pub mod Order
use v_codec.Base.{
  ℕ, Bool, true, false, List, [], ◌∷◌, ◌++◌, Bytes, length, drop, leb, if◌then◌else◌,
}
use mathlib.Core.List.{reverse}

pub data PathStep : Type 0 where
  member : Bytes → PathStep
  index : ℕ → PathStep
  key_text : Bytes → PathStep
  key_int : ℕ → PathStep

abbrev pub max_path_steps : ℕ
max_path_steps = 16

pub record ErrorPath : Type 0 where
  pub steps : List PathStep
  pub truncated : Bool
  pub finalized : Bool

-- The path of a new error.
abbrev pub new_path : ErrorPath
new_path = record { steps = []; truncated = false; finalized = false }

-- `push` on a path that is finalized.
abbrev pub push_late : PathStep → ErrorPath → ErrorPath
push_late s p =
    if leb max_path_steps (length p.steps)
    then record p { steps = s ∷ drop 1 p.steps; truncated = true }
    else record p { steps = s ∷ p.steps }

-- `push` on one that is not.
abbrev pub push_open : PathStep → ErrorPath → ErrorPath
push_open s p =
    if leb max_path_steps (length p.steps)
    then record p { truncated = true }
    else record p { steps = p.steps ++ (s ∷ []) }

unfoldable pub push : PathStep → ErrorPath → ErrorPath
push s p = if p.finalized then push_late s p else push_open s p

abbrev pub push_member : Bytes → ErrorPath → ErrorPath
push_member identifier = push (member identifier)

abbrev pub push_index : ℕ → ErrorPath → ErrorPath
push_index i = push (index i)

abbrev pub push_key_text : Bytes → ErrorPath → ErrorPath
push_key_text key = push (key_text key)

abbrev pub push_key_int : ℕ → ErrorPath → ErrorPath
push_key_int k = push (key_int k)

-- Root-first, once.
unfoldable pub finalize : ErrorPath → ErrorPath
finalize p = if p.finalized then p else record p { steps = reverse p.steps; finalized = true }

-- `encode_error::push`, which does not ask whether the path is finalized.
unfoldable pub push_thrown : PathStep → ErrorPath → ErrorPath
push_thrown s p =
    if leb max_path_steps (length p.steps)
    then record p { truncated = true }
    else record p { steps = p.steps ++ (s ∷ []) }
