-- ===== src/Cbor/Write/Laws.antt =====
-- How the writer's operations on its buffers commute.
use v_codec.Base.{List, [], ◌∷◌, Bytes, ◌++◌, append_assoc, append-nil, length, ◌≡◌, refl, arith}
use v_codec.Cbor.Write.State.{Frame, Writer, append_frames, append, count_item, item}

append_frames-append :
    (fs : List Frame) (out a b : Bytes)
    → append_frames (append_frames fs out a).frames (append_frames fs out a).out b
      ≡ append_frames fs out (a ++ b)
unfolding append_frames
append_frames-append [] out a b = ground (arith, append_assoc out a b)
append_frames-append (f ∷ fs) out a b =
    ground (arith, append_assoc f.body a b, append_frames-append fs out a b)

pub append-append : (a b : Bytes) (w : Writer) → append b (append a w) ≡ append (a ++ b) w
unfolding append
append-append a b w = append_frames-append w.frames w.out a b

append_frames-nil :
    (fs : List Frame) (out : Bytes) → append_frames fs out [] ≡ record { out = out; frames = fs }
unfolding append_frames
append_frames-nil [] out = ground (arith, append-nil out)
append_frames-nil (f ∷ fs) out = ground (arith, append-nil f.body, append_frames-nil fs out)

pub append-empty : (w : Writer) → append [] w ≡ w
unfolding append
append-empty w = append_frames-nil w.frames w.out

pub item-append : (a : Bytes) (w : Writer) → item (append a w) ≡ append a (item w)
unfolding append item
item-append a w = go w.frames w.out
  where
    go :
        (fs : List Frame) (out : Bytes)
        → item (append_frames fs out a) ≡ append_frames (count_item fs) out a
    go [] out = unfold append_frames in refl
    go (f ∷ fs) out = unfold append_frames in ground arith

length-append_frames :
    (fs : List Frame) (out a : Bytes) → length (append_frames fs out a).frames ≡ length fs
unfolding append_frames
length-append_frames [] out a = refl
length-append_frames (f ∷ fs) out a = ground (arith, length-append_frames fs out a)

pub depth-append : (a : Bytes) (w : Writer) → length (append a w).frames ≡ length w.frames
unfolding append
depth-append a w = length-append_frames w.frames w.out a

length-count_item : (fs : List Frame) → length (count_item fs) ≡ length fs
length-count_item [] = refl
length-count_item (f ∷ fs) = refl

pub depth-item : (w : Writer) → length (item w).frames ≡ length w.frames
unfolding item
depth-item w = length-count_item w.frames
