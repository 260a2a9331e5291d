-- ===== src/Resp/Tests.antt =====
-- Runs of the encoder, the parser and the reader.
use evilresp.Base.Bytes.{codes}
use evilresp.Base.Decimal.{decimal, parse_i64}
use evilresp.Base.Utf8.{is_utf8}
use evilresp.Base.{◌≡◌, ◌≢◌, ◌≤◌, refl, arith, some, [], ◌∷◌, ◌++◌, length}
use evilresp.Resp.Canonical.{canonical}
use evilresp.Resp.Encode.{encode, encode_with_length}
use evilresp.Resp.Frame.{Frame, bulk_string, array, inline, nil, cons}
use evilresp.Resp.Parse.{
  parse_frame, parse_levels, take_i64_line, take_utf8_line, take_line, max_frame_bytes,
}
use evilresp.Resp.Reader
use evilresp.Resp.Reader.Agrees.{read_raw_frame-encode}
use evilresp.Resp.Reader.Conserves.{read_raw_frame_conserves, read_raw_frame-ne-out_of_fuel}
use evilresp.Resp.Reader.Rounds.{lf_free}
use evilresp.Resp.Reader.{read_raw_frame}
use evilresp.Resp.Result.{ok, err, truncated_aggregate, trailing_bytes}
use evilresp.Resp.RoundTrip.{parse_frame-encode, parse_frame_trailing}
use evilresp.Resp.Wire.{depth}

abbrev get_key : Frame
get_key =
    array (cons (bulk_string (some (codes "GET"))) (cons (bulk_string (some (codes "k"))) nil))

encode-get_key : encode get_key ≡ codes "*2\r\n$3\r\nGET\r\n$1\r\nk\r\n"
unfolding encode decimal
encode-get_key = refl

parse_frame-get_key : parse_frame (codes "*2\r\n$3\r\nGET\r\n$1\r\nk\r\n") ≡ ok get_key
unfolding parse_frame parse_levels take_i64_line take_utf8_line take_line is_utf8 parse_i64
parse_frame-get_key = refl

short_array : parse_frame (codes "*9\r\n$3\r\nGET\r\n") ≡ err truncated_aggregate
unfolding parse_frame parse_levels take_i64_line take_utf8_line take_line is_utf8 parse_i64
short_array = refl

inline_ping : parse_frame (codes " PING  x\r\n") ≡ ok (inline (codes "PING" ∷ codes "x" ∷ []))
unfolding parse_frame parse_levels take_line
inline_ping = refl

longer_header : encode_with_length get_key 1 (codes "4") ≡ codes "*2\r\n$4\r\nGET\r\n$1\r\nk\r\n"
unfolding encode_with_length decimal
longer_header = refl

parse_frame-encode_example : parse_frame (encode get_key) ≡ ok get_key
unfolding canonical depth encode decimal
parse_frame-encode_example = parse_frame-encode get_key refl (omega arith) (omega arith)

parse_frame_trailing_example :
    parse_frame (encode get_key ++ codes "+") ≡ err (trailing_bytes (length (encode get_key)))
unfolding canonical depth encode decimal
parse_frame_trailing_example = parse_frame_trailing get_key b'+' [] refl (omega arith) (omega arith)

read_raw_frame-encode_example :
    read_raw_frame (encode get_key ++ codes "PING")
    ≡ Reader.ok (record { raw = encode get_key; input = codes "PING" })
unfolding canonical depth encode decimal lf_free
read_raw_frame-encode_example =
    read_raw_frame-encode get_key (codes "PING") refl refl (omega arith) (omega arith)

read_raw_frame_conserves_example :
    (encode get_key ++ codes "PING" ≡ encode get_key ++ codes "PING")
    × (length (encode get_key) ≤ max_frame_bytes)
read_raw_frame_conserves_example =
    read_raw_frame_conserves (encode get_key ++ codes "PING") read_raw_frame-encode_example

read_raw_frame-ne-out_of_fuel_example :
    read_raw_frame (codes "*1\r\n$9") ≢ Reader.err Reader.out_of_fuel
read_raw_frame-ne-out_of_fuel_example = read_raw_frame-ne-out_of_fuel (codes "*1\r\n$9")
