-- ===== src/Lib.antt =====
-- libsxe: containers, buffers and text utilities of an event-driven networking library in C.
--
-- How the parts interact. The components are separate C modules over plain memory. sxe-list keeps its
-- nodes inside the caller's objects; sxe-pool has one sxe-list for each state of its elements, under a
-- spinlock; sxe-hash is a pool whose states are its buckets; sxe-dict owns its nodes. Nothing here depends
-- on the event loop.
--
-- Which file models which part.
--   Base        Boolean tests, C arrays as lists with native indices, memcmp and strlen.
--   Dict        lib-sxe-dict/sxe-dict.c. `Dict` is struct sxe_dict; `new`, `add`, `resize`, `find` and
--               `for_each_table` are sxe_dict_new, _add, _resize, _find and _forEach; Dict/Hash has the
--               hash function. A chain of nodes is a list, since each node is linked from one place.
--               `store` is the caller's assignment through the pointer that sxe_dict_add returns.
--   Http        Url is lib-sxe-http/sxe-http-url.c: sxe_http_url_parse in the order of its steps, with the
--               parts of a URL as offsets and lengths. Message is lib-sxe-http/sxe-http-message.c: the parser
--               of the request or response line, with Line and Elements about it, and the parser of the
--               headers in Message/Header, with Scans, Value and Field about a field on one line, and Total.
--   Jitson      lib-sxe-jitson: the parser. `Token` is struct sxe_jitson, `Stack` struct sxe_jitson_stack and
--               Source sxe-jitson-source.c, with a text as the bytes read and the bytes left. Text is
--               sxe_jitson_stack_load_string and sxe-unicode.c, Load sxe_jitson_stack_load_json, in parts that
--               take what follows them, and sxe-jitson-ident.c, Expand the growth of the stack. The bytes of a
--               string are in its first token, and those behind it are `raw`; a failed assertion is `aborted`,
--               and a write behind the last token `overflowed`. strtoul, strtod, the registered constants and
--               whether memory can be allocated are an `Environment`. Access is sxe_jitson_array_get_element and
--               sxe_jitson_object_get_member of sxe-jitson.c. Consume and Finish are about all texts,
--               Strings about strings, and Value and Grammar about JSON texts by the grammar of RFC 8259.
--   RingBuffer  lib-sxe-ring-buffer/sxe-ring-buffer.c: `Ring` is the block of memory, `Context` a reader or
--               the writer's block. Write has what the ring holds of the stream of all bytes written, Add
--               the writes, Read, Consume and Join a reader, Follow and OverRun a reader during writes, and
--               Writable a block of a wanted size.
--   Spinlock    lib-sxe-mmap/sxe-spinlock.h. Each atomic exchange is one step; Take has a whole call
--               against what it sees, and System any number of threads in any order.
--   SxeBuffer   lib-sxe-buffer/sxe-buffer.c, with a failed assertion as `none`.
--   SxeCstr     lib-sxe-cstr/sxe-cstr.c, with a failed assertion as `none`.
--   SxeHash     lib-sxe-hash/sxe-hash.c and sxe-hash-classic.c over SxePool: the elements of a key in the
--               table are those of its bucket with the key's bytes. sxe_hash_sum is a parameter, by default
--               lookup3, of which it is relied on that it reads no more bytes than it is told to.
--   SxeList     lib-sxe-list/sxe-list.c and sxe-list-walker.c. Memory maps an address to a node; the
--               pointers are relative to the list, as SXE_PTR_REL of lib-sxe-util/sxe-util.h makes them.
--               A failed assertion is `none`.
--   SxePool     lib-sxe-pool/sxe-pool.c. `Pool` is struct SXE_POOL_IMPL; a state's SXE_LIST is the list of
--               the indices in it, by what SxeList shows. The time of sxe_time_get and whether the
--               spinlock is taken are arguments of the operations; an abort is `none`. SxePool/Walker is
--               sxe-pool-walker.c, and SxePool/Walk a walk over a pool that stays as it is. Move is about
--               one call that moves an element, Steps about sequences of them, New about new pools.
--   Util        lib-sxe-util and the string functions of lib-sxe-log: Hex is sxe-hex.c, Log2 sxe-unsigned.c
--               and sxe-uint64.c, Rot13 sxe-rot13.c, Search sxe-str.c, Printable sxe-str-to-printable.c,
--               Strl lib-sxe-log/sxe-strlcpy.c and Encode lib-sxe-log/sxe-str-encode.c. A text is the
--               list of the bytes that can be read from a pointer on. isprint, isspace and strncasecmp
--               of the C library are parameters, as is isgraph for Http.
--
-- Bounds. Machine integers are natural numbers with the wrap-around written out: 2 ^ 32 for unsigned, 2
-- ^ 64 for pointers. Loops recur on a list or on a count, but for these: the loop of sxe_hash_look has
-- a round for each element of the bucket and one more, that of sxe_spinlock_take one round more than
-- the maximum of yields, and the loops over line continuations one round more than there are bytes. The
-- parser of JSON has a round or a call more than there are bytes, since each takes one. The
-- iterations of a ring are counted to 2 ^ 32, and its theorems are for fewer. The ids of SXE_GETTID are
-- positive, and those of two threads differ.
--
-- Not modelled: memory allocation (it always succeeds, but for sxe-jitson), sxe_dict_delete, which only frees, logging, the
-- timeouts of sxe-pool, and readers of a ring during a forced wrap. Of sxe-jitson, the functions that build
-- values by hand, the printer, the copies of values and the operators.
pub mod Base
pub mod Dict
pub mod Http
pub mod Jitson
pub mod RingBuffer
pub mod Spinlock
pub mod SxeBuffer
pub mod SxeCstr
pub mod SxeHash
pub mod SxeList
pub mod SxePool
pub mod Util
