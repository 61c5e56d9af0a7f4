-- ===== src/Lib.antt =====
-- lamzfs is a read-only ZFS reader in Rust. A pool is a list of member devices; `import` reads the
-- label of the first, builds the topology from its vdev tree, picks the newest uberblock and reads the
-- MOS; from there datasets, directories and files are object sets, dnodes and ZAPs, all of them read
-- through block pointers. This library models the reader's own code and proves what makes it correct.
--
-- The files and the code, from the repository's root:
--   Common, Common/..: lists over native numbers, byte order, UTF-8, exclusive or, Boolean tests.
--   Error, Outcome: src/error.rs. `Outcome` is `Result` with a third case, a panic (an index out of
--     range), so that its absence can be stated; `>>=` is the `?` of the source. Outcome/Alike:
--     results that differ at most in which fault ends them.
--   BlockRead: src/block_read.rs. A device is its answer to each read.
--   Phys, Vendored: src/phys, src/checksum, src/compression, a copy of the rzfs library. The types that
--     the reader takes apart stand in Phys with the fields it reads; each decoder, hash and
--     decompressor that it calls is a field of the record `Vendored`, which the other modules take as a
--     parameter, as are the crates lz4_flex, miniz_oxide, ruzstd, sha2 and blake3 and the Cargo
--     features.
--   Cksum: src/cksum.rs, `verify_block`. Cksum/Sound: what it accepts.
--   Compress, Compress/Zle: src/compress.rs, `decompress` and `zle_decode`. Zle/Runs, Cursor, Inputs:
--     the round trip from runs, and from inputs. Zle/Bounds, Compress/Sound: sizes and panics.
--   Vdev: src/vdev.rs, `read_block_pointer`. Vdev/Tree: the topology; Vdev/Raidz: the RAID-Z1 read.
--     The loops of `read_block_pointer` and `raidz1_read` are `try_copies`, `try_children`,
--     `raidz1_loop` and `degraded`; an early return is `found`, the assignment of `last` is `failed`.
--     Vdev/Sound, Heal, Spares, Degraded: what a read returns; Geometry, Parity: the RAID-Z1 map and
--     the reconstruction; Refusals: the checks before a read; Safe: panics.
--   File: src/file.rs, `read_dnode_block` (its loop over the levels is `descend`) and
--     `read_dnode_range` (`range_loop`). File/Range, Total, Safe, Tree: its bytes, when it returns,
--     panics, and the indirect tree by subtrees; Stream, Holes: neighbouring ranges, and holes.
--   Walk, Walk/Leaf: src/walk.rs, dnodes and ZAPs; Leaf is `collect_leaf` and `collect_chunks`.
--     Walk/Slots: the objects that the slots hold; Walk/Safe: panics; Walk/Leaf/Safe: the chunks;
--     Walk/Entries, Leaf/Entries: the entries of a fat ZAP; Typed, Panics: when reading entries
--     panics; Walk/Decoded: dnodes; Walk/Names, Lookup: lookup by name, values as bytes.
--   Dataset: src/dataset.rs. Dataset/Paths, Sizes, Safe: walks, sizes, panics.
--   Pool, Pool/Nv, Features, Labels, Build: src/pool.rs, import, nvlists, the feature gate, the slots of
--     labels and uberblocks, the config of a label and the layout. Pool/Placed, Guards, Import, Labelled,
--     Supported: what import accepts; Members: the search for a member; the files Safe: panics.
--   Zfs: src/lib.rs, the public operations. Zfs/Reads, Stream, Opened, Stats: `read`,
--     `read_at` and `stat`; Targets, Listing: `read_dir` and `exists`; Datasets, Located: the list of
--     datasets; Safe, Imports: panics; Alike (there and in the other parts), Spares: the same
--     operations on other devices.
--   Examples: a small pool on which each theorem is applied.
--
-- Numbers are natural numbers. Sums, products and shifts that can pass 2^64 are written as the code
-- has them: `checked_add` and `checked_mul` with their bound, `% 2 ^ 64` in `raidz_map`. `usize` has 64
-- bits. Names are lists of bytes, tokens are texts. Reads do not change what later reads return.
--
-- Loops with a count are structural recursion. Those without have fuel and panic when it is used up:
-- `range_loop` has one round for each byte of the range, since each moves `filled`; `zle_loop` one for
-- each byte of the output; `datasets_loop` one for each path that can be pushed; `follow_chunks` two
-- more than the chunks, since `guard` bounds the rounds.
--
-- Not modelled: the decoders, hashes and decompressors named above, with the changes to them that
-- the code marks by `lamzfs:` (the count before an XDR array, the refusal of native nvlists, the
-- reflow word of an uberblock), which only the vendored decoders see; devices that change between
-- reads, allocation, the text that `Display` prints around an error's token, `with_decoder`, which
-- hands bytes to a vendored decoder, and the getters of `Zfs` that return a field. Every other
-- function of the reader's own files is a definition here.
pub mod Common
pub mod Error
pub mod Outcome
pub mod Phys
pub mod Vendored
pub mod BlockRead
pub mod Compress
pub mod Cksum
pub mod Vdev
pub mod File
pub mod Walk
pub mod Dataset
pub mod Pool
pub mod Zfs
pub mod Examples
