-- ===== src/Lib.antt =====
-- cxx-library: a C++ library of protocol parsers, servers and containers, modelled in parts.
--
-- The program. The servers (httplike/server, http/server, net/server) read bytes from sockets and give
-- them to incremental parsers: httplike/parser for messages of a first line, headers and a body, and
-- websocket/parser for frames, after an upgrade. The http code looks at parsed messages: http/urlescape
-- for queries, http/utils for header values and multipart bodies, http/router for dispatch. The
-- containers (containers/rbtree, containers/persistent) keep data in memory or in mapped files and
-- stand beside the parsers. All of them hold bytes in `TBlob` and files in `TFile` of ac-common.
--
-- What models what.
--   Prelude, Prelude/*   shared names, Boolean tests, lists measured by native numbers, bytes.
--   Blob, Blob/Bare      `TBlob` as an interface of operations and laws, and an instance of it.
--   HostOrder            `htons`, `htonl`, `htonll` and `memcpy` of integers on a little-endian host.
--   WebSocket/Frame      websocket/parser/parser.hpp and .cpp: `TFrame`, `Header`, `MaskedPayload`,
--                        the conversion to a blob.
--   WebSocket/Parser     `TParserState`: its stages, `ProcessMessage`, `Flush`.
--   WebSocket/Feed       `ParseData` and `ExtractData`.
--   WebSocket/Stream     the frames that a stream of bytes means, as a relation that names no buffer.
--   WebSocket/Stages/*, Rounds, Follow, Chunks   that the parser's state stands for a place in the
--                        stream: per stage, per round, per call, over several calls.
--   WebSocket/Header, Bits, RoundTrip, Wire      frames written by `Header` and read back.
--   Url                  http/urlescape.cpp: `URLUnescape` in place, `URLEscape`.
--   Url/Unescape, Url/RoundTrip   its decoder on lists, and the round trip.
--   Url/Query            http/urlescape.cpp: `ParseQueryParams`; urlescape.hpp: `TQueryParamsBuilder`.
--   Url/Query/Lower, Steps, Pieces, Round, Build   keys in lower case, the loop on pieces of a query,
--                        and the query that the builder writes.
--   HttpLike/State       httplike/parser/parser.hpp and .cpp: `TParserState`, `TParsedData`, `Flush`.
--   HttpLike/Line        `ParseLine`; HttpLike/Feed: `ParseData` and the methods of `TParser`.
--   HttpLike/Kit, HttpLike/Plain  `TMemDisk`, `Strip`, `ToLower` and `atoi` as an interface, and an
--                        instance of it.
--   HttpLike/Text, Steps, Head, Body, Content, Message, Split   what the parser makes of the lines of a
--                        message, of its headers, of its content, and of a line cut in two.
--   Request/Line         http/request.cpp: the constructor's loops over the first line and the path;
--                        Request/Line/Words, Split, Query: what they make of a well-formed line.
--   Request/Cookies      http/request.cpp: the constructor's loop over the cookies; Request/Cookies/Steps,
--                        Round: cookies printed and read back.
--   Request/Range        http/request.cpp: `Range`; Request/Reply: `RespondFile`, with `TResponse` of
--                        http/response.hpp; Request/Text: the strings' functions as an interface.
--   Request/Reads, Round, Slices, Answers   headers printed and read back, and their answers.
--   HeaderValue          http/utils/headers.cpp: `ParseHeaderValue`; HeaderValue/Steps, Round: header
--                        values with parameters, printed and read back.
--   HashMap              containers/persistent/immutable_hashmap/hashmap.cpp: `TValue`, the
--                        constructors, `Insert`, `Get`, on the bytes of the file.
--   HashMap/Deps, HashMap/Plain   `TFile`, `TBlob::Cmp`, `hton` and MurmurHash3 as an interface, and
--                        an instance of it.
--   HashMap/Bytes, Log, Chain     reads and writes in an array, the log of entries, its chains.
--   HashMap/Store, Get, Persist   the map as a list of entries, the newest first.
--   HashMap/Iterator     `GetAll` and `TIterator`; HashMap/Buckets and Scan are about what it visits.
--   Tree/Node            containers/rbtree/rbtree.cpp: `TRBTreeNode`; Tree/Get: `Get`; Tree/Rotate:
--                        `Rotate`; Tree/Insert: `Root`, `InsertImpl`, `Insert`, the integer keys.
--   Tree/Host, Tree/Plain   `hton`, `TBlob::Cmp` and the tree's backend as an interface, and an
--                        instance of it.
--   Tree/Codec, Shape, Frame   a node written and read, the tree that bytes hold, and what a write leaves
--                        of it; Tree/Order: the nodes in the order of their keys.
--   Tree/Rotate/*        the writes of a rotation, one after the other, on the pieces of a tree.
--   Tree/Insert/Store, Turns, Data, First   a node stored in its tree, rotations of a whole tree, the
--                        key and value of a new node, the first one.
--   Tree/Iterator        `GetAll` without a prefix, and `TIterator`; Tree/Iterator/After, Visit, Drain: the
--                        order in which it comes by the nodes.
--   Tree/Insert/Moved, Ends, Descent   one node more among separate ones, the ends of `InsertImpl`, and
--                        its descent.
--   Tests modules        the theorems at concrete inputs.
--
-- State and faults. Objects with members are records that each operation takes and returns; `none`,
-- `faulted` and `fault` are reads out of range and branches that leave the defined behaviour. Integers
-- are natural numbers; where the source computes in 64 bits and could wrap, `% 2 ^ 64` is written out.
-- `char` is signed, as on the usual targets. A body that wraps bytes outside a file's data is
-- a value of its own, apart from an exception, since `Wrap` raises nothing.
--
-- Fuel. `ParseData` loops with as much fuel as the buffer and the new data have bytes, and two more: a
-- round but the first consumes two bytes at least. `URLUnescape` takes an index at least in each round
-- and has the array's size as fuel. The loop of `Next` over empty buckets has the number of buckets
-- as fuel. The loop of `Get` walks to an older entry in each round and has the mapped size as fuel, since
-- an entry takes 24 bytes at least. The tree's operations take their fuel as an argument; the tree's
-- depth is enough for `Get`, `InsertImpl` and `Next`. That none of them runs out is part of the theorems
-- about them.
--
-- Not modelled. The spin lock of the frame parser, since each call is one step. The integer keys of the
-- map in a file, and `Close`. Files mapped for an answer and the text of a response. Of the tree, `GetAll`
-- of a prefix; the loop of cases of its `Insert` is modelled, with no theorem about it yet. The heap, and
-- multipart bodies. Sockets, threads, TLS, the databases and the models on top of them are input and
-- output or wrappers of libraries.
pub mod Prelude
pub mod Blob
pub mod Url
pub mod HostOrder
pub mod Request
pub mod HeaderValue
pub mod HttpLike
pub mod HashMap
pub mod Tree
pub mod WebSocket
