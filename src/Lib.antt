-- ===== src/Lib.antt =====
-- A verification library for vcodec, a C++ library that encodes values to CBOR and JSON and
-- decodes them, by reflection over their types.
--
-- The parts of the program that are modelled, and how they interact. `core::encode` classifies a
-- value and calls a sink; `cbor::writer` is the sink for CBOR, a stack of frames over an output
-- buffer, and `json::writer` the sink for JSON, which keeps for every bracket whether an element was
-- written. `cbor::reader` is a position in the input with calls that expect a kind of item, and
-- `skip_value`, which validates an item of any kind with a stack of its own. Both stand on the
-- heads of cbor/head.hpp and on the UTF-8 validation of core/lower.hpp. `json::reader` is the same
-- for JSON, over white space, strings and the scanner of numbers.
--
-- Core/Error     include/vcodec/error.hpp: `errc`, and of an error the code and the offset
-- Core/Utf8      include/vcodec/core/lower.hpp: `validate_utf8`; Utf8/WellFormed is the independent
--                description of UTF-8 text, Utf8/Accepts compares the two
-- Core/Kind, Core/Call
--                include/vcodec/core/model.hpp: what `peek` tells and a text that was read; the form
--                of the readers' calls
-- Core/Sink      include/vcodec/core/model.hpp and core/traverse.hpp: the interface of a sink, and
--                `encode_value`, `encode_sequence` and `encode_map` over any sink
-- Core/Value     include/vcodec/core/traverse.hpp: the values that reach a sink
-- Cbor/Head      include/vcodec/cbor/head.hpp: `make_head`, `parse_head`, `shortest`
-- Cbor/Options   include/vcodec/cbor/options.hpp, include/vcodec/options.hpp
-- Cbor/Write     include/vcodec/cbor/write.hpp: Write/State has the sink's calls, Write/Sort and
--                Write/Close the sorting and `close`
-- Cbor/Encode    include/vcodec/cbor/write.hpp: the CBOR writer as a sink, and `encode_append`;
--                Encode/Spec is the independent specification `encoded`
-- Cbor/Read      include/vcodec/cbor/read.hpp: Read/State has the state and the heads, Read/Strings
--                `read_string`, Read/Expect the typed calls and the cursors, Read/Skip `skip_value`;
--                Read/Whole joins it with the encoder
-- Core/Hex, Core/Base64
--                include/vcodec/core/lower.hpp: the codings of byte strings in text formats
-- Core/ErrorPath include/vcodec/error.hpp: the path of an error, with `push` and `finalize`
-- Core/Suggest   include/vcodec/core/lookup.hpp: `levenshtein` and `suggest`
-- Json/Escape    include/vcodec/json/escape.hpp: `write_string` and the compile-time keys
-- Json/Options, Json/Annotations
--                include/vcodec/json/options.hpp, include/vcodec/json/annotations.hpp
-- Json/Number    include/vcodec/json/number.hpp: `write_uint`, `write_sint` and `scan_number`
-- Json/Write     include/vcodec/json/write.hpp: the writer, the sink that it is, and `encode_append`;
--                Write/Spec is the independent specification `text_of`
-- Json/Read      include/vcodec/json/read.hpp: Read/State has the state, white space and literals,
--                Read/Strings `parse_string`, Read/Expect the typed calls and the cursors, Read/Skip
--                `skip_value`; Read/Whole joins it with the writer
-- Base           numbers, lists of bytes, tests and integers that all parts share
--
-- A byte is a number, and a sequence of bytes a list; where a theorem needs the range of a byte it
-- says so. The writer's functions return the writer or the code that the source throws. The
-- reader's calls return a result and the reader that they leave, after an error as well. Of an
-- `error` the code and the offset are kept; its path is modelled apart, and its texts are not.
--
-- Loops. `skip_loop` of CBOR, `item_head_loop` and `read_chunks` recurse on fuel, which is the
-- number of bytes from the position on: each round reads a byte at least, and a round at the end of
-- the input reports `truncated`, which is also what the last of the fuel gives. `peek_loop` has one
-- round more, since it stops at the empty head behind the input. `skip_loop` of JSON has one round
-- more too, since a round that takes no byte returns when the value is complete. `escaped_loop` has
-- the bytes from the escape on. The loop of `validate_utf8` has the length of the text as its fuel.
-- `to_chars` has twenty digits, which a number of 64 bits does not exceed.
--
-- Not modelled: decoding into C++ types, lookup tables, structs, enums, variants and custom codecs, floats of
-- CBOR, typed arrays, the per-field hooks of the CBOR writer, `expect_real`, and the texts of
-- errors. The check that a float is in its preferred form is a parameter of `skip_value`, and so are
-- `std::from_chars` of the scanner and `std::to_chars` of doubles; a double is its 64 bits.
pub mod Base
pub mod Core
pub mod Cbor
pub mod Json
