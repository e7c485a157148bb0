-- ===== src/Cbor/Encode/Maps.antt =====
-- Map entries in a buffered frame, and the slices that `close` sorts.
use mathlib.Core.List.{map}
use v_codec.Base.{
  ℕ, suc, ◌+◌, ◌-◌, true, List, [], ◌∷◌, Bytes, ◌++◌, append_assoc, length, take, drop,
  length-append, drop-append, take-append, ◌≡◌, refl, sym, ap, ap₂, ◌∙◌, arith, Bool-cases, inl,
  inr,
}
use v_codec.Core.Error.{ok, ◌>>=◌}
use v_codec.Cbor.Head.{Major, make_head}
use v_codec.Cbor.Write.State.{
  Entry, Frame, Writer, append_frames, append, set_key_end, key_start, key_end,
}
use v_codec.Cbor.Write.Laws.{append-append, append-empty}
use v_codec.Cbor.Write.Sort.{stable_sort, has_duplicate}
use v_codec.Cbor.Write.Sort.Laws.{stable_sort-map, has_duplicate-map, length-stable_sort}
use v_codec.Cbor.Write.Close.{Slice, slices, key_of, append_slices, close_map}
use v_codec.Cbor.Encode.Spec.{Pair, pair_key, concat_pairs, sorted_map_bytes}

-- The entries that are recorded for `ps` when the body already has `base` bytes.
abbrev pub offsets : ℕ → List Pair → List Entry
offsets base [] = []
offsets base ((k, v) ∷ ps) =
    record { start = base; key_end = base + length k } ∷ offsets (base + length (k ++ v)) ps

set_key_end-last :
    (n m : ℕ) (es : List Entry)
    → set_key_end n (es ++ record { start = m; key_end = 0 } ∷ [])
      ≡ es ++ record { start = m; key_end = n } ∷ []
set_key_end-last n m [] = refl
set_key_end-last n m (e ∷ []) = refl
set_key_end-last n m (e ∷ e' ∷ es) = ap (◌∷◌ e) (set_key_end-last n m (e' ∷ es))

-- A key in a buffered frame.
pub key-buffered :
    (kb out : Bytes) (f : Frame) (fs : List Frame)
    → f.buffered ≡ true
    → key_end (append kb (key_start (record { out = out; frames = f ∷ fs }))) ≡ record {
      out = out;
      frames =
          record f {
            body = f.body ++ kb;
            entries =
                f.entries ++ record { start = length f.body; key_end = length (f.body ++ kb) } ∷ [];
          }
          ∷ fs;
    }
unfolding key_end key_start append append_frames
key-buffered kb out f fs b =
    ground (arith, set_key_end-last (length (f.body ++ kb)) (length f.body) f.entries)

-- A slice as its key's bytes and its own.
abbrev view : Bytes → Slice → Pair
view body s = (key_of body s, take (s.end - s.start) (drop s.start body))

-- A pair as the view of its slice.
abbrev whole : Pair → Pair
whole p = (p.0, p.0 ++ p.1)

append_views : List Pair → Writer → Writer
append_views [] w = w
append_views (p ∷ ps) w = append_views ps (append p.1 w)

append_slices-view :
    (body : Bytes) (ss : List Slice) (w : Writer)
    → append_slices body ss w ≡ append_views (map (view body) ss) w
unfolding append_slices append_views
append_slices-view body [] w = refl
append_slices-view body (s ∷ ss) w = append_slices-view body ss _

append_views-whole :
    (ps : List Pair) (w : Writer) → append_views (map whole ps) w ≡ append (concat_pairs ps) w
unfolding append_views
append_views-whole [] w = sym (append-empty w)
append_views-whole ((k, v) ∷ ps) w =
    append_views-whole ps (append (k ++ v) w) ∙ append-append (k ++ v) (concat_pairs ps) w

-- The part of a body from `base` that is `a` long.
piece :
    (body front a rest : Bytes) (base end : ℕ)
    → base ≡ length front
    → end ≡ base + length a
    → body ≡ front ++ (a ++ rest)
    → take (end - base) (drop base body) ≡ a
piece body front a rest base end hb hn he =
    ap₂ take (omega arith) (ap₂ drop hb he ∙ drop-append front (a ++ rest)) ∙ take-append a rest

-- The slices of a body that holds `front` and then the pairs.
slices-view :
    (ps : List Pair) (front body : Bytes) (base : ℕ)
    → base ≡ length front
    → body ≡ front ++ concat_pairs ps
    → map (view body) (slices (length body) (offsets base ps)) ≡ map whole ps
unfolding slices key_of
slices-view [] front body base hb he = refl
slices-view ((k, v) ∷ []) front body base hb he =
    let by_key : body ≡ front ++ (k ++ (v ++ [])) =
      he ∙ ap (λ x. front ++ x) (append_assoc k v []) in
    let size : length body ≡ base + length (k ++ v) =
      omega
        (arith, ap length he, length-append front ((k ++ v) ++ []), length-append (k ++ v) []) in
    ap₂ (λ x y. (x, y) ∷ []) (piece body front k (v ++ []) base (base + length k) hb refl by_key)
      (piece body front (k ++ v) [] base (length body) hb size he)
slices-view ((k, v) ∷ (k', v') ∷ ps) front body base hb he =
    let rest = concat_pairs ((k', v') ∷ ps) in
    let next = base + length (k ++ v) in
    let by_key : body ≡ front ++ (k ++ (v ++ rest)) =
      he ∙ ap (λ x. front ++ x) (append_assoc k v rest) in
    let later =
      slices-view ((k', v') ∷ ps) (front ++ (k ++ v)) body next
        (omega (arith, length-append front (k ++ v)))
        (he ∙ sym (append_assoc front (k ++ v) rest)) in
    ap₂ ◌∷◌
      (ap₂ (λ x y. (x, y)) (piece body front k (v ++ rest) base (base + length k) hb refl by_key)
        (piece body front (k ++ v) rest base next hb refl he))
      later

length-map {ℓ κ} :
    {A : Type ℓ} {B : Type κ} (g : A → B) (xs : List A) → length (map g xs) ≡ length xs
length-map g [] = refl
length-map g (x ∷ xs) = ap suc (length-map g xs)

-- Closing a buffered map: the pairs are sorted by key.
module _ (ps : List Pair) (f : Frame) (hb : f.body ≡ concat_pairs ps)
    (he : f.entries ≡ offsets 0 ps) where
  abbrev cut : List Slice
  cut = slices (length f.body) f.entries

  cut-view : map (view f.body) cut ≡ map whole ps
  cut-view =
      ap (λ es. map (view f.body) (slices (length f.body) es)) he
      ∙ slices-view ps [] f.body 0 refl hb

  order-view :
      map (view f.body) (stable_sort (key_of f.body) cut) ≡ map whole (stable_sort pair_key ps)
  order-view =
      sym (stable_sort-map (key_of f.body) pair_key (view f.body) (λ _. refl) cut)
      ∙ ap (stable_sort pair_key) cut-view
      ∙ stable_sort-map pair_key pair_key whole (λ _. refl) ps

  order_duplicate :
      has_duplicate (key_of f.body) (stable_sort (key_of f.body) cut)
      ≡ has_duplicate pair_key (stable_sort pair_key ps)
  order_duplicate =
      sym (
        has_duplicate-map (key_of f.body) pair_key (view f.body) (λ _. refl)
          (stable_sort (key_of f.body) cut))
      ∙ ap (has_duplicate pair_key) order-view
      ∙ has_duplicate-map pair_key pair_key whole (λ _. refl) (stable_sort pair_key ps)

  order_length : length (stable_sort (key_of f.body) cut) ≡ length ps
  order_length =
      length-stable_sort (key_of f.body) cut
      ∙ sym (length-map (view f.body) cut)
      ∙ ap length cut-view
      ∙ length-map whole ps

  order_append :
      (w : Writer)
      → append_slices f.body (stable_sort (key_of f.body) cut) w
        ≡ append (concat_pairs (stable_sort pair_key ps)) w
  order_append w =
      append_slices-view f.body (stable_sort (key_of f.body) cut) w
      ∙ ap (λ vs. append_views vs w) order-view
      ∙ append_views-whole (stable_sort pair_key ps) w

  pub close_map-sorted :
      (w : Writer) → close_map f w ≡ (sorted_map_bytes ps >>= λ bs. ok (append bs w))
  unfolding close_map
  close_map-sorted w = elim (Bool-cases (has_duplicate pair_key (stable_sort pair_key ps))) [
    | inl dup ↦ rw (order_duplicate, dup)
    | inr good ↦
        rw (order_duplicate, good)
          (ap ok (
            order_append _
            ∙ ap
                (λ n.
                  append (concat_pairs (stable_sort pair_key ps))
                    (append (make_head Major.map n) w))
                order_length
            ∙ append-append (make_head Major.map (length ps))
                (concat_pairs (stable_sort pair_key ps)) w))
  ]
