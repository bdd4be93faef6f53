-- ===== src/Lib.antt =====
-- egl-util-cpp: a C++20 library of allocation, concurrency, string, container, I/O, diagnostic and
-- parsing components. The components are classes of one header each under src/main/cpp/it/d4np/util,
-- mostly independent of one another; this development models them one by one.
--
-- Conventions. `std::size_t` arithmetic is arithmetic modulo 2^64 (`Prelude.add_size`, `sub_size`)
-- wherever a value is not bounded by the test right before it. A `std::vector`, `std::span` or
-- `std::string_view` is the list of its elements; none is longer than `max_size`, which is
-- PTRDIFF_MAX. A `char` or `std::byte` is a number below 256. A member that changes its object returns
-- the new object, with its result first where it has one.
--
-- CircularBuffer (circular_buffer.hpp). The class with its vector, head and count; `Queue` is the
--   bounded FIFO that it promises, `Inv` its invariant, `Window` the elements round the ring,
--   `Refine` and `Runs` the refinement. What `std::move` leaves behind in a slot is a parameter.
-- FlatMap (flat_map.hpp) and FlatSet (flat_set.hpp). The sorted vector, with the comparison as a
--   parameter. `SortedVector` has the standard algorithms that both call, as the standard describes
--   them, its `Order` the requirements on a comparison, `Lookup`, `Change`, `Build`, `Members` and
--   `Sort` what they do to a sorted vector; the `Laws` of each are those of its members. `std::sort`
--   is a parameter of the set's constructors.
-- StringSplitter (string_splitter.hpp). The iterator, and a loop over the range whose fuel counts
--   rounds: each but the last passes a delimiter, so that one more than the bytes of the text is
--   enough. `Search` has the laws of `find`, `Laws` those of the tokens.
-- JsonParser (json_parser.hpp). `Types` has the events and the state, `Scan` the scanners of strings,
--   numbers, literals and whitespace, `Walk` the member `next` and those that it dispatches to.
--   `Decode` has the member `decode_string`, whose loop has as much fuel as there are bytes, of which
--   each round reads at least one; `Pieces` has the texts that it takes and what they mean, `Utf8` the
--   UTF-8 form of a code point, and `Escape` is about the loop.
--   `Grammar` has the numbers of RFC 8259, and `Numbers` and `NumberScan` are about their scanner.
--   `Bounds`, `Inv`, `Members` and `Progress` are about bounds, invariant and termination. The loops of
--   the scanners are recursion on the unread bytes; the loop of `scan_string` has as much fuel as
--   there are unread bytes, of which each round passes at least one. `walk` is a client that calls
--   `next` until the parser is done.
-- BinarySerializer (binary_serializer.hpp). Both classes over bit patterns. `Bytes` has byte orders
--   and `std::bit_cast`, `Wire` the wire format, `Write` and `Sequence` the writes, `Read` the reads.
--   The byte order of the host is a parameter of each call.
-- ReaderWriterLock (reader_writer_lock.hpp) and Semaphore (semaphore.hpp). Each critical section is a
--   function; `System` lets any number of threads make them, and their notifications, in any order,
--   with spurious wakeups and timeouts. A mutex makes a critical section one step.
-- StringBuilder (string_builder.hpp). The buffer; `Decimal` has the base-10 text of an integer, with the
--   fuel of 20 digits, which a 64-bit integer does not pass.
-- CliParser (cli_parser.hpp). `Types` and `Register` have the parser and its registration, `Parse` the
--   members that read one token, `Loop` the member `parse`, `Help` the help text, `Convert` the
--   conversions of values. The variables of the caller are one store; an option carries how it
--   changes the store. The loop over the tokens has as much fuel as there are tokens, of which each
--   round takes one at least. `Items` is the grammar, as items with a spelling and a meaning; `Names`
--   and `Valid` are about registration, `Same`, `Clusters`, `Longs`, `Rounds` and `Complete` about
--   parsing, `Stops`, `Stopped` and `StopRounds` about the tokens that end it, `Required` about the last check, `Columns` and `HelpText` about the help text, and
--   `RoundTrip` about integers.
-- Hash (hash.hpp). FNV-1a and MurmurHash3, and in `Sha256` the rest, over native machine words; `Words`
--   has the arithmetic of std::uint32_t. The loop that pads has fuel for 63 rounds, within which one
--   of 64 lengths in a row fits; the other loops have the fuel of their bounds. `Padding` is about the
--   padded message, `Hex` about the digest and its text, `Bits` and `Bounds` about the words.
-- StackAllocator (stack_allocator.hpp). The allocator over addresses; `Fit` is about a single
--   allocation, `World` is the allocator with the blocks that its clients hold, `Safety` is about
--   those.
-- TaskFuture (task_future.hpp). A promise and the future that it gave away, with their shared state;
--   `Steps` is about one call, `Delivery` about any sequence of calls. `System` lets any number of
--   threads wait while others decide the outcome and notify, in any order; `Wakeup` is about that.
-- ThreadPool (thread_pool.hpp). The critical sections; `System` lets the workers and any calls make
--   them, their notifications and the tasks, in any order. `Order` is about the task that is taken,
--   `Counts` about where the tasks are, `Drain` has the invariant, `Shutdown` what follows from it.
-- LockFreeQueue (lock_free_queue.hpp). The ring, and a call of try_push or try_pop as where its
--   thread stands between two accesses to shared memory; `System` lets any number of calls make
--   their steps in any order. Every access is sequentially consistent; a ghost list has the values
--   in the order of the tickets. `Capacity` is about the constructor, `Index` about tickets and
--   slots, `Slots`, `Calls`, `Holders`, `Tickets` and `Inv` have the invariant, `Frames`,
--   `Owners`, `Keeps`, `Accesses`, `Writes`, `Steps` and `Reached` are about it, `Fifo` and
--   `Returns` about what calls return. `std::bit_ceil` has fuel for 63 doublings, which reach the
--   largest capacity. The tickets claimed by producers are bounded so that no counter wraps, and
--   the ring has two slots at least.
-- StringFormatter (string_formatter.hpp). `Check` has the check that runs during compilation, `Grammar`
--   what format strings are; `Checked` relates the two, and `Render` is about what is written.
-- ObjectPool (object_pool.hpp). The pool and its handles; `World` is the pool with all handle objects.
--
-- Not modelled: tcp_socket.cpp, file_stream.cpp and stack_trace.cpp, which are calls of the operating
-- system; std::from_chars behind JsonParser::to_number; and the components that the list above does
-- not name.
pub mod Prelude
pub mod BinarySerializer
pub mod CircularBuffer
pub mod CliParser
pub mod FlatMap
pub mod FlatSet
pub mod Hash
pub mod JsonParser
pub mod LockFreeQueue
pub mod ObjectPool
pub mod ReaderWriterLock
pub mod Semaphore
pub mod SortedVector
pub mod StackAllocator
pub mod StringBuilder
pub mod StringFormatter
pub mod StringSplitter
pub mod TaskFuture
pub mod ThreadPool
