-- ===== src/Cbor/Write/Close.antt =====
-- `close` of include/vcodec/cbor/write.hpp: a container's end, where buffered maps are sorted.
use v_codec.Base.{ℕ, ◌-◌, List, [], ◌∷◌, Bytes, length, take, drop, if◌then◌else◌}
use v_codec.Core.Error.{Errc, duplicate_key, Result, ok, err}
use v_codec.Cbor.Head.{Major, break_byte}
use v_codec.Cbor.Write.Sort.{stable_sort, has_duplicate}
use v_codec.Cbor.Write.State.{Entry, Frame, Writer, append, put, put_head}

-- The local `struct slice`.
pub record Slice : Type 0 where
  pub start : ℕ
  pub key_end : ℕ
  pub end : ℕ

-- The entries of a map, each up to the next one's start or the end of the body.
unfoldable pub slices : ℕ → List Entry → List Slice
slices size [] = []
slices size (e ∷ []) = record { start = e.start; key_end = e.key_end; end = size } ∷ []
slices size (e ∷ e' ∷ es) =
    record { start = e.start; key_end = e.key_end; end = e'.start } ∷ slices size (e' ∷ es)

unfoldable pub key_of : Bytes → Slice → Bytes
key_of body e = take (e.key_end - e.start) (drop e.start body)

-- `append(f.body.data() + e.start, e.end - e.start)` for each slice.
unfoldable pub append_slices : Bytes → List Slice → Writer → Writer
append_slices body [] w = w
append_slices body (e ∷ es) w =
    append_slices body es (append (take (e.end - e.start) (drop e.start body)) w)

unfoldable pub close_map : Frame → Writer → Result Errc Writer
close_map f w =
    let order = stable_sort (key_of f.body) (slices (length f.body) f.entries) in
    if has_duplicate (key_of f.body) order
    then err duplicate_key
    else ok (append_slices f.body order (put_head Major.map (length order) w))

unfoldable pub close_frame : Frame → Writer → Result Errc Writer
close_frame f w =
    if f.indefinite
    then ok (put break_byte w)
    else if f.buffered
    then (if f.is_map then close_map f w else ok (append f.body (put_head Major.array f.items w)))
    else ok w

-- `close`: pops the frame; it is called with a frame open.
abbrev pub close_frames : List Frame → Writer → Result Errc Writer
close_frames [] w = ok w
close_frames (f ∷ fs) w = close_frame f (record w { frames = fs })

unfoldable pub close : Writer → Result Errc Writer
unfolding close_frame
close w = close_frames w.frames w
