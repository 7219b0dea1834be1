-- ===== src/Lib.antt =====
-- struple: a self-delimiting byte encoding of typed tuples whose memcmp order is the order of the
-- values. This is the C library, c/struple.c with c/struple.h, and its JSON
-- codec, c/struple_json.c.
--
-- The program's parts. A writer is a growing byte buffer, to which the encoders append elements: a
-- type code and a payload. Integers go to slots of 1 to 16 bytes around the code of zero, or to a
-- form with an explicit length; strings, byte strings and containers are framed, with zeros escaped
-- and a terminator. A reader walks such a buffer and presents an element at a time. The transcoder
-- writes again what the reader presents. Views, maps and indexed maps navigate in the bytes without
-- decoding them, and use the spans of elements and byte order only.
--
-- Where each part is:
--   Codes       the type codes and constants at the top of c/struple.c
--   Bytes       be_to_u64, u64_to_be, byte_len; its child modules relate them to the number of a
--               big-endian byte list
--   Writer      struple_writer: sw_reserve with its doubling, sw_push, sw_append. A writer is its
--               contents and its capacity; Appends is the interface of an operation that adds to the
--               end only, for the encoders of Encode/Appending
--   Framing     write_escaped, write_framed, the scan of take_framed and unescape_to_scratch
--   Encode      the encoders struple_append_*. Integers (append_magnitude and its callers) in
--               Encode/Ints, floats and fixed-width scalars in Encode/Scalars, decimals in
--               Encode/Decimals, containers with the sort of map entries and set elements in
--               Encode/Containers; what is relied on of qsort in Encode/Sorting, and the independence
--               of order and repetition in Encode/Canonical
--   Reader      struple_reader and struple_reader_next, with the payloads in Reader/Ints,
--               Reader/Decimals and Reader/Next, where append_element and struple_transcode are too.
--               A reader is its position and the bytes from there on, a read is a function that may
--               fail and moves the position as far as the C function does
--   RoundTrip   what the encoders write, read back by the reader: scalars, decimals, streams, views, and
--               maps up to struple_map_get
--   Compare     memcmp, struple_compare and cmp_bytes
--   ByteOrder   the order of what the encoders write against the order of the values: integers, doubles,
--               timestamps and decimals, and frames with what follows them
--   View        element_span, the reader's cursor functions, struple_view_*; element_span against
--               struple_reader_next in View/Agreement
--   MapView     struple_map_*
--   IndexedMap  struple_indexed_map_*, with its binary search, and its agreement with struple_map_get
--   Floats      the bits of doubles: fabs, isinf, the order, the casts from integers and from float
--   Semantic    struple_semantic_order. Magnitudes with each other and with scaled doubles in Semantic
--               itself, products for decimals in Semantic/Digits, integers against doubles in
--               Semantic/Numbers, exact values in base 10 in Semantic/Base10, elements, streams and
--               containers in Semantic/Order; doubles by the number of their bits in
--               Semantic/DoubleValues
--   Json        c/struple_json.c: strings and escapes in Json/Strings, the value tree and its parser in
--               Json/Value and Json/Parse, decimal text of magnitudes in Json/Magnitude, the encoder
--               in Json/Encode, numbers as text in Json/Numbers, the renderer in Json/Render,
--               and integers through both in Json/Integers
--   Examples    runs, and theorems at concrete inputs
--   Prelude     lists, tests, integers and bit operations that all of them share
--
-- Numbers and bounds. Bytes and words are natural numbers; a C operation on uint64_t or size_t that
-- can wrap is written with its remainder. int64_t values are integers in its range, doubles and floats
-- are their bits. Loops over a buffer recurse on its bytes. The loops without a buffer to recurse on
-- have fuel: the doubling of the capacity 64 rounds, since 2 ^ 64 is beyond any capacity; the
-- transcoder and the map and view loops one more than the length of the input, since an element takes
-- a byte; the loop of the semantic order one more than both lengths together; the binary search one more than
-- the number of entries, since the range shrinks; a carry of 32 bits four rounds. The semantic order
-- recurses on the levels of nesting that are left, 257 at the start.
--
-- Taken as given. Allocations succeed, so results that stand for a failed allocation are absent, and
-- the scratch buffer of the reader is the list inside the element. qsort is a parameter of
-- append_map and append_set, with the contract that its result is a rearrangement of the input in the order of
-- a consistent comparison; and strtod and the %.*e of snprintf are parameters of the JSON codec. The
-- tokens that strtoll reads are an optional sign and digits. A buffer passed in is not the writer's own buffer.
--
-- The loops of the JSON parser have one round more than the text has bytes, its recursion the 256 levels
-- of nesting; decimal text of n bytes has 3 * n digits at most. The digits of a magnitude are none where
-- those rounds are used up and bytes are left, as for a loop that goes on; it is proved that they are not.
--
-- Not modelled: the ports to other languages, which are programs of their own, and the release of
-- memory.
pub mod Prelude
pub mod Codes
pub mod Bytes
pub mod Writer
pub mod Framing
pub mod Compare
pub mod Encode
pub mod Reader
pub mod RoundTrip
pub mod View
pub mod MapView
pub mod IndexedMap
pub mod Floats
pub mod Json
pub mod ByteOrder
pub mod Semantic
mod Examples
