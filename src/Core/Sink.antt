-- ===== src/Core/Sink.antt =====
-- The sink that a value is written to (the concept `sink` of include/vcodec/core/model.hpp), and the
-- dispatch, the containers and the tags of include/vcodec/core/traverse.hpp over any sink.
use v_codec.Base.{ℕ, Bool, Option, none, some, Bytes}
use v_codec.Base.Int.{ℤ}
use v_codec.Core.Error.{Errc, Result, ok, ◌>>=◌}
use v_codec.Core.Value.{
  Key, Value, Values, Entries, null, boolean, tagged, sequence, unsized, nil, cons, end, entry,
  values_size, entries_size,
}

-- The operations on a sink with the state `S`.
pub record Sink (S : Type 0) : Type 0 where
  pub on_null : S → Result Errc S
  pub on_boolean : Bool → S → Result Errc S
  pub on_uint : ℕ → S → Result Errc S
  pub on_sint : ℤ → S → Result Errc S
  pub on_text : Bytes → S → Result Errc S
  pub on_bytes : Bytes → S → Result Errc S
  pub begin_array : Option ℕ → S → Result Errc S
  pub end_array : S → Result Errc S
  pub begin_map : Option ℕ → S → Result Errc S
  pub end_map : S → Result Errc S
  pub on_key : Key → S → Result Errc S
  pub on_tag : ℕ → S → Result Errc S

-- `encode_value`, with `emit_tags` for a tagged one, `encode_sequence` and `encode_map`.
unfoldable mutual
  pub encode_value : {S : Type 0} → Sink S → Value → S → Result Errc S
  encode_value k null s = k.on_null s
  encode_value k (boolean b) s = k.on_boolean b s
  encode_value k (Value.uint n) s = k.on_uint n s
  encode_value k (Value.sint i) s = k.on_sint i s
  encode_value k (Value.text t) s = k.on_text t s
  encode_value k (Value.bytes b) s = k.on_bytes b s
  encode_value k (tagged t v) s = k.on_tag t s >>= encode_value k v
  encode_value k (sequence vs) s =
      k.begin_array (some (values_size vs)) s >>= λ s'. encode_values k vs s' >>= k.end_array
  encode_value k (unsized vs) s =
      k.begin_array none s >>= λ s'. encode_values k vs s' >>= k.end_array
  encode_value k (Value.map es) s =
      k.begin_map (some (entries_size es)) s >>= λ s'. encode_entries k es s' >>= k.end_map

  pub encode_values : {S : Type 0} → Sink S → Values → S → Result Errc S
  encode_values k nil s = ok s
  encode_values k (cons v vs) s = encode_value k v s >>= encode_values k vs

  pub encode_entries : {S : Type 0} → Sink S → Entries → S → Result Errc S
  encode_entries k end s = ok s
  encode_entries k (entry key v es) s =
      k.on_key key s >>= λ s'. encode_value k v s' >>= encode_entries k es
