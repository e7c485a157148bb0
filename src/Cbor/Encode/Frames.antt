-- ===== src/Cbor/Encode/Frames.antt =====
-- What `close` does to a container that was opened on a writer and filled.
use v_codec.Base.{
  ℕ, suc, ◌+◌, Bool, true, false, List, [], ◌∷◌, Bytes, ◌++◌, ◌≡◌, refl, ap, ◌∙◌, arith,
}
use v_codec.Core.Error.{Errc, Result, ok, ◌>>=◌}
use v_codec.Cbor.Head.{Major, make_head, break_byte}
use v_codec.Cbor.Write.State.{Frame, Writer, append_frames, append, count_item, item, push_frame}
use v_codec.Cbor.Write.Laws.{append-append}
use v_codec.Cbor.Write.Close.{close}

-- The bytes are appended as one item.
abbrev pub emit : Result Errc Bytes → Writer → Result Errc Writer
emit r w = r >>= λ bs. ok (append bs (item w))

-- `n` items are counted in the innermost frame.
abbrev pub add_items : ℕ → List Frame → List Frame
add_items n [] = []
add_items n (f ∷ fs) = record f { items = f.items + n } ∷ fs

abbrev pub items : ℕ → Writer → Writer
items n w = record w { frames = add_items n w.frames }

pub item-items : (n : ℕ) (w : Writer) → items n (item w) ≡ items (suc n) w
unfolding item
item-items n w = go w.frames
  where
    go :
        (fs : List Frame)
        → record w { frames = add_items n (count_item fs) }
          ≡ record w { frames = add_items (suc n) fs }
    go [] = refl
    go (f ∷ fs) = ground arith

pub items-none : (w : Writer) → items 0 w ≡ w
items-none w = go w.frames
  where
    go : (fs : List Frame) → record w { frames = add_items 0 fs } ≡ record w { frames = fs }
    go [] = refl
    go (f ∷ fs) = ground arith

pub items-append : (n : ℕ) (a : Bytes) (w : Writer) → items n (append a w) ≡ append a (items n w)
unfolding append
items-append n a w = go w.frames w.out
  where
    go :
        (fs : List Frame) (out : Bytes)
        → items n (append_frames fs out a) ≡ append_frames (add_items n fs) out a
    go [] out = unfold append_frames in refl
    go (f ∷ fs) out = unfold append_frames in ground arith

-- A container that was opened on `w` and had `bs` appended and `n` items counted.
abbrev pub filled : Bool → Bool → Bool → ℕ → Bytes → Writer → Writer
filled is_map buffered indefinite n bs w =
    append bs (items n (push_frame is_map buffered indefinite w))

pub close-definite :
    (m : Bool) (n : ℕ) (bs : Bytes) (w : Writer)
    → close (filled m false false n bs w) ≡ ok (append bs w)
unfolding close append append_frames push_frame
close-definite m n bs w = refl

pub close-indefinite :
    (m : Bool) (n : ℕ) (bs : Bytes) (w : Writer)
    → close (filled m false true n bs w) ≡ ok (append (bs ++ (break_byte ∷ [])) w)
close-indefinite m n bs w = step ∙ ap ok (append-append bs (break_byte ∷ []) w)
  where
    step : close (filled m false true n bs w) ≡ ok (append (break_byte ∷ []) (append bs w))
    step = unfold close append append_frames push_frame in refl

pub close-counted :
    (n : ℕ) (bs : Bytes) (w : Writer)
    → close (filled false true false n bs w) ≡ ok (append (make_head Major.array n ++ bs) w)
close-counted n bs w = step ∙ ap ok (append-append (make_head Major.array n) bs w)
  where
    count : 0 + n ≡ n
    count = omega arith

    step :
        close (filled false true false n bs w) ≡ ok (append bs (append (make_head Major.array n) w))
    step = λ i.
        unfold close append append_frames push_frame in
        ok (append bs (append (make_head Major.array (count i)) w))
