-- ===== src/Lib.antt =====
-- A verification library for osc2ftdidmx, the bridge from OSC messages to DMX adapters with an FTDI
-- chip (main.c, osc2ftdidmx.c, osc2ftdidmx.h).
--
-- The program. A stream of osc.lv2 puts the packets that arrive into a ring buffer of varchunk. The
-- output thread `_beat` wakes up `fps` times a second. It takes the packets out, handles the
-- messages without a time tag and puts the others on a list, handles those of the list that are
-- due, and sends a frame of 512 channels. Each channel is a slot of 32 priorities, and the highest
-- priority that is set gives the channel's value. `main` reads the options and runs `_loop`, which
-- acquires the ring buffers, the stream, the device and the thread, and releases them; with the
-- option -A it runs it again and again.
--
-- The files.
--   Base        shared names, Boolean tests, lists, bits and signed integers on native numbers
--   Slot        `slot_t` and the four functions on it in osc2ftdidmx.c
--   Osc/Tree    the method tables and the walk over them (osc.lv2/osc.lv2/reader.h)
--   Osc/Args    the interface of the argument reader of osc.lv2
--   Osc/Memory  the bytes at addresses, `strlen`, `strncmp`, `be32toh`, `be64toh`
--   Osc/Reader  the packet reader of osc.lv2/osc.lv2/reader.h over such bytes: the values, the arguments
--               of a message, the items of a bundle; Osc/Reader/Ops fills the interfaces with it
--   Osc/Pattern `lv2_osc_pattern_match` of osc.lv2/osc.lv2/util.h: braces for `fnmatch`
--   Osc/Writer  the packet writer of osc.lv2/osc.lv2/writer.h over an array in memory: the values, and whole
--               messages; Osc/Writer/Space says what an array holds, Osc/Writer/RoundTrip goes to the reader
--   Osc/Wire    messages and nested bundles, and an encoder written from the format of OSC 1.0
--   Dispatch    `state_t`, `_priority`, `_channel`, the tables, and `_handle_osc_message` of main.c;
--               Dispatch/Spec says without readers and callbacks what the README promises
--   Sched       `_sched_append` and the conversion of time tags
--   Packet      `_handle_osc_packet` and `_handle_osc_bundle`; Packet/Bytes is about encoded packets whose
--               messages are immediate, Packet/Encoded about any time tags, with the laws of the reader that
--               Packet/Total uses, and Packet/NoTypes about messages without a type string
--   Ftdi        `_ftdi_init`, `_ftdi_xmit`, `_ftdi_deinit`; Ftdi/Device is the life of a context
--   Beat        `_beat`, with the loops of a round and the time of the next; Beat/Bytes goes from
--               encoded packets to the frame, Beat/Encoded is about rounds with any time tags, and
--               Beat/Ring takes the packets out of the ring buffer
--   Varchunk    the ring buffer of varchunk/varchunk.h; Varchunk/Valid says when it holds a queue of
--               chunks, and Varchunk/Sharing lets its two threads call in any order
--   Slip        the SLIP frames of osc.lv2/osc.lv2/stream.h and the loop over the bytes of a TCP stream
--   Stream      the event bits and the ring buffers of a stream (osc.lv2/osc.lv2/stream.h) with the driver of
--               main.c; Stream/Udp is `_lv2_osc_stream_run_udp`, Stream/Tcp and Stream/Connection are the
--               runs over TCP and serial lines, Stream/Frame goes from datagrams to the frame,
--               Stream/Url takes a URL apart, and Stream/Reinit makes a stream from it
--   Lifecycle   `_osc_init`, `_osc_deinit`, `_loop` and the reconnecting loop of `main`
--   Threads     `_sig`, and how `_loop` and `_beat` interleave at the flag `done`
--   Options     the loop over `getopt` in `main`
--   Tests       runs, a toy packet format, and the theorems at concrete inputs
--
-- How code becomes definitions. A function that changes a struct takes and returns the record. What
-- is undefined in C (an index past the end, a null pointer that is followed, a division by zero, a
-- block that is freed twice) is `none` of an Option or `fault` of an Outcome. The labels of a
-- function with `goto` are functions. Numbers are natural, and where a C type can wrap, `% 2 ^ w`
-- is written.
--
-- The reader. A pointer is an address of 64 bits, and the memory is the bytes from the packet on,
-- with what lies behind it. A number is the unsigned value of its bits, so that `int32_t`, `float`
-- and the rest are read alike; both byte orders give the same values. A body of an item that is
-- itself a packet is read again as a packet of its own. `_handle_osc_packet` and the dispatch take
-- the reader as an interface (ArgOps, PacketOps); where Osc/Reader/Ops fills it, a fault of the
-- reader is a null pointer, false, or no item, and a bundle whose loop does not end has no items.
--
-- The writer. It has the same memory; a store outside of it is a fault. What C passes as `va_list`
-- is a list of values, and a value of another type than the one that is asked for is a fault.
--
-- The ring buffer. Its array is a function from indices to bytes, and a load or a store beyond
-- `size` is a fault, as is an assertion that fails. A header lies in memory with the lowest byte
-- first. The stream and the output thread call one function after the other; each call is a step.
-- Every packet is taken to lie at one address `base`, which matters only where addresses could
-- wrap.
--
-- Parameters. The interfaces ArgOps and PacketOps, which the reader over bytes fills, the pattern
-- matcher of the walk, the casts between `float` and `double`, `fnmatch`, `malloc`, libftdi
-- (`answer`), whether memory is given to `varchunk_new`, what the calls on sockets answer, whether
-- the driver gives space to the loop over SLIP frames, whether the stream can be made in Lifecycle,
-- `pthread_create`, what the threads do in `_loop`, `strtol` and `isprint`. What is assumed of them
-- stands in the hypotheses IsLiteral and Runs. The laws WellFormed and Reads say what the program
-- assumes of its reader; Osc/Reader/Message and Packet/Encoded prove them of the reader over bytes,
-- for the bytes of messages and nested bundles. The module Tests.Toy has a small packet format for
-- runs.
--
-- Fuel. `_handle_osc_packet` calls itself on the items of a bundle, which are shorter than the
-- bundle: fuel above the length of the packet is enough. The loop over the scheduled messages takes
-- one unit for each message, and the loop that carries nanoseconds one for each second. The loop
-- over the items of a bundle takes one for each item and one for its end, the loop over the chunks
-- one for each chunk and one for the empty buffer, and the loop of `varchunk_body_size` at most 64.
-- The loop over received bytes takes one for each frame and one more. The loops of a stream take
-- one answer of its socket for each call; after the last answer a call would block. The loop over
-- received frames has fuel for each of its bytes, of which a turn takes one at least.
--
-- Not modelled. The frames of bundles in the writer and the other functions of osc.lv2 that the
-- program does not call, text output and syslog, thread priorities, the addresses of peers, LV2
-- atoms (osc.lv2/osc.lv2/forge.h), and the memory orders of the ring buffers, which the two threads
-- share. In Beat a round finds its chunks and the flag `done` as inputs; in Threads the work of a
-- round is left out.
pub mod Base
pub mod Slot
pub mod Osc
pub mod Dispatch
pub mod Sched
pub mod Packet
pub mod Ftdi
pub mod Beat
pub mod Varchunk
pub mod Slip
pub mod Stream
pub mod Lifecycle
pub mod Threads
pub mod Options
mod Tests
