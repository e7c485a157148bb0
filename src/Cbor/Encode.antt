-- ===== src/Cbor/Encode.antt =====
-- `core::encode` with the CBOR sink, and `encode_append` of include/vcodec/cbor/write.hpp.
pub mod Spec
pub mod Frames
pub mod Containers
pub mod MapEntries
pub mod Maps
pub mod Refines
use v_codec.Base.{ℕ, ◌||◌, Bool, Option, none, some, Bytes, ◌++◌, if◌then◌else◌}
use v_codec.Core.Error.{Errc, Result, ok, err, ◌>>=◌}
use v_codec.Core.Value.{Key, Value}
use v_codec.Core.Sink.{Sink, encode_value}
use v_codec.Cbor.Head.{Major, append_head}
use v_codec.Cbor.Options.{Options}
use v_codec.Cbor.Write.State
use v_codec.Cbor.Write.State.{Writer, new_writer}
use v_codec.Cbor.Write.Close.{close}

-- The key call that `encode_map` makes.
unfoldable pub encode_key : Options → Key → Writer → Result Errc Writer
encode_key o (Key.text k) w = State.key_text o k w
encode_key o (Key.uint k) w = ok (State.key_uint k w)
encode_key o (Key.sint k) w = ok (State.key_sint k w)

-- The CBOR writer as a sink.
abbrev pub cbor_sink : Options → Sink Writer
cbor_sink o = record {
  on_null = λ w. ok (State.null w);
  on_boolean = λ b w. ok (State.boolean b w);
  on_uint = λ n w. ok (State.uint n w);
  on_sint = λ i w. ok (State.sint i w);
  on_text = State.text o;
  on_bytes = λ b w. ok (State.bytes b w);
  begin_array = State.begin_array o;
  end_array = close;
  begin_map = State.begin_map o;
  end_map = close;
  on_key = encode_key o;
  on_tag = λ t w. ok (State.tag t w);
}

-- `self_describe_tag`
abbrev pub self_describe_tag : ℕ
self_describe_tag = 55799

-- `with_type_determinism_encode`
unfoldable pub with_type_determinism_encode : Options → Bool → Options
with_type_determinism_encode o det =
    if det then record o { deterministic = Bool.true; indefinite = Bool.false } else o

-- `encode_append`; the last two Booleans are `is_deterministic_type<T>` and `wants_self_describe<T>`.
unfoldable pub encode_append : Options → Bool → Bool → Value → Bytes → Result Errc Bytes
unfolding with_type_determinism_encode
encode_append opts det describe v out =
    let o = with_type_determinism_encode opts det in
    let out' =
      if o.self_describe || describe then append_head out Major.tag self_describe_tag else out in
    encode_value (cbor_sink o) v (new_writer out') >>= λ w. ok w.out
