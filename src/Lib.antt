-- ===== src/Lib.antt =====
-- Verification of crts, a bytecode interpreter and runtime system in C.
--
-- native/bigint is the arithmetic of big integers. Its parts:
-- - Bigint/Digits.antt is native/bigint/znogmp.h, the functions zd_* on arrays of digits to a
--   base 2 ^ Z_BITS. An array of n digits is a list of n numbers, the least significant first; a
--   function that writes through a pointer returns the written digits together with its carry.
--   The children Step (one digit), Value (the number of an array), Add, Mul, Shift and Whole
--   have the proofs. Its child Divide is the division zd_divmod, with Z_ALLOC, Z_SCRATCH and
--   __builtin_clzll as parameters and its proofs in Estimate, Leading, Step, Rows, Scale, Normal and Whole: 2 is
--   enough fuel for the rounds of an estimate, since the divisor is shifted until its top digit is
--   at least half the base. Its child Bitwise is zd_or_n and its like, with the proofs in Numbers
--   (arrays are numbers), Tables (single bits) and Laws.
-- - Bigint/Integer.antt is native/bigint/z.h, the functions z_* on integers with a sign, built
--   on the digits. The children Normal, Gives, Add, Sum, Product, Times, Compare, Shift,
--   ShiftRight and Word have the proofs. Z_ALLOC is a parameter, a function that says whether an
--   allocation of so many digits succeeds. The size of an integer stays below the range of its
--   int32_t. Its child Divide has z_quorem, z_divmod and what they are called by, with the proofs
--   in Results, Quorem and Floor. Its child Bits has z_and, z_or and z_xor, with the proofs in Made
--   and Unsigned (magnitudes), Complement and Signs (negative integers), Results, Xor, And, Or and
--   Whole.
-- - Bigint/Tests.antt has runs and instances.
--
-- native/generic/sort.h is the sort, which is instantiated for an element type and an order.
-- - Sort.antt has the insertion sort, the partition and the quicksort for any order. An array is
--   a list, and a read outside of it is none. The fuel of the partition is one more than the
--   length, since a pointer moves down in each round, that of the recursion too, since both
--   parts are shorter. The children Order (what is promised), Insertion, Scan, Partition, Quick
--   have the proofs.
--
-- native/utf16.c and native/include/chili/object/string.h convert text.
-- - Unicode.antt has the functions chiUtf8* and chiUtf16*. Memory is a list of cells that ends
--   after the zero, and a read after its end is none. The fuel of the loops over UTF-8 is one
--   more than the bytes: each character has one. The children Bytes (a character), Text (texts,
--   and what they are in both encodings), Standard (the UTF-8 of the standard), Units (from UTF-16),
--   Convert (to UTF-16) and Valid (chiUtf8Valid of native/string.c) have the proofs.
--
-- native/generic/vec.h is the growing array that most components keep their data in.
-- - Vec.antt has its operations. The cells of an array are a list, an access out of bounds is
--   none; CHI_VEC_GROWTH and the cells that chiRealloc adds are parameters. The fuel of the
--   growth is one more than the cells needed, since each round adds a cell. The children Cells
--   (copies), Grow and Refines have the proofs.
--
-- native/generic/hashtable.h is the hash table that modules, profilers and archives use.
-- - Hashes.antt has its operations for any type of entries. A pointer to an entry is its index,
--   an array is a list, and HT_CREATE returns the place that its caller fills. The fuel of the
--   probing loops and of the deletion is the capacity, since a free entry is less than a round
--   away; that of the growth is one more. The children Cyclic (indices), Valid (the invariant),
--   Probe, Find, Insert, Next, Grow, Create, Hole, Close, Shift and Delete have the proofs. A
--   capacity is a power of two, and a theorem that may grow the table assumes that the doubled
--   capacity fits in a size_t.
--
-- native/num.c writes and reads numbers.
-- - Num.antt has countDigits10, chiShowUInt, chiReadUInt32/64 and chiPow. Text is a list of
--   character codes. Writing goes from the end of the text down, so the model returns the text
--   before the end. The fuel of its loops is for 64 bits. The children Value (what digits stand
--   for), Show, Size (the number of digits; __builtin_clzll is a parameter, IsClz its
--   documentation), Parse and Power have the proofs. Num/Hex.antt has chiShowHexUInt, without
--   the count of its digits.
--
-- native/pool.h is the pool of objects of one size, which the chunk allocator has its handles in.
-- - Pool.antt has its operations. An object is its address; the free list that runs through the
--   objects is a list. The fuel of the flush is one more than the end of the memory, since each
--   round moves up by an object. The children Stores (the objects of a pool) and Loops have the
--   proofs.
--
-- native/generic/list.h has the doubly linked lists of chunks, blocks and processors.
-- - Rings.antt has its operations on the links of all elements, by address, in the order of the
--   assignments. An element is the address of its link, the null pointer is none. The children
--   Chains (links in a row), Refines and Join have the proofs.
--
-- native/chunk.c divides an arena of memory into chunks, from which the heap is made.
-- - Chunk.antt has chiChunkNew and chiChunkFree as vaNewChunk and vaFreeChunk, for a
--   configuration with an arena and with chiVirtAlloc. A chunk is a record with its handle, the
--   list by address has the chunks in their order, a size class has the handles of its free
--   chunks. The answers of chiVirtAlloc and chiVirtCommit and __builtin_clzll are parameters; a
--   call is one step, since it holds the mutex while it changes the lists. The shifts of the
--   configuration are a parameter. The children Places (the lists), Valid (what holds of an
--   arena), Listing, Join and Free (freeing), Pages, Split and Begin (splitting), Sizes, Classes
--   and Finds (finding), Supply (handles, for which memory is new), New and Steps (the states
--   reached) have the proofs.
-- - Chunk/Unmap.antt has the allocator that frees chunks later, without its task, which waits for
--   a condition. The fuel is for the tries of uaNewChunk, of which there is one; its
--   children Emergency (freeing the list) and Once (a request) have the proofs.
--
-- native/blockman.c divides chunks into the blocks of the heap.
-- - Blocks.antt has chiBlockManagerSetup, chiBlockManagerAlloc, chiBlockManagerFree and
--   chiBlockManagerFreeList. A block is the address where it starts, in bytes; the chunk that
--   chiBlockManagerChunkNew returns is a parameter. The child Managed has the proofs.
--
-- native/option.c reads the options of the command line, with the functions of native/strutil.h.
-- - Settings.antt has chiOptionArgs and chiOptionEnv with all that they call. The fields of the
--   option structures are numbered settings, an error is a value, its message is left out; the
--   callbacks are a parameter. The fuel is for tokens, of which each takes a character. The
--   children Numbers (numbers and sizes), Strings (what ends within a string), Fits (values and
--   types), Total (reading an option ends) and Args have the proofs.
--
-- cby/zip.c reads archives, of which it keeps the files in a hash table.
-- - Zip.antt has zipOpen, zipFind and zipRead with all that they call. The file, with chiFileSize
--   and chiFileReadOff, the hash and the inflation are parameters; memory is a list of bytes, and
--   a pointer into the directory is what is left of it. The children Table (one file), Records
--   and Open (any content), Format (the format, for a program that writes it), Written, Lists and
--   Whole (an archive as it should be) have the proofs.
--
-- native/string.c and native/include/chili/object/string.h make strings and build them.
-- - Strings.antt has strings as the bytes of an object or as a word, and the string builder.
--   chiNewInl is a parameter, a function from a number of words to the fresh bytes, or none. A
--   capacity of 32 bytes or more doubles in each round of the growth, so 34 rounds are enough for
--   the sum of two 32-bit sizes. The children Small (a word), Trail (the
--   last byte) and Build have the proofs.
--
-- Prelude.antt and its children are shared: tests, lists, signed integers, bit fields.
--
-- Not modelled are the objects of the heap but strings, their collection, processors, threads
-- and loading; the interpreter is generated, and the platform layer is I/O.
pub mod Prelude
pub mod Bigint
pub mod Blocks
pub mod Chunk
pub mod Hashes
pub mod Num
pub mod Pool
pub mod Rings
pub mod Settings
pub mod Sort
pub mod Strings
pub mod Unicode
pub mod Vec
pub mod Zip
