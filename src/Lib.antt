-- ===== src/Lib.antt =====
-- frag_find looks for the sectors of master files in a disk image. This library models its bloom
-- filter (src/bloom.c, src/bloom.h), the block files of src/blockfile.h, the digests of src/md5.h as
-- keys, the program src/frag_find.cpp from its options to the reports, the XML writer of src/xml.cpp and
-- src/xml.h, the DFXML reader of src/dfxml.cpp and src/dfxml.h, the covers of regular expressions in
-- src/myregex.h and src/beregex.cpp, the hashes of src/hash_t.h, the timer of src/aftimer.h, the
-- histograms of src/histogram.h, and the programs src/disk_bloom.cpp and src/nsrl_bloom_creator.cpp.
--
-- How the parts interact. `main` makes a filter in memory (`masters_t::bloom_create`), opens the
-- image, and loads each master file: every block is hashed, the hash is added to the filter, and its
-- block number is appended to the `md5map` of that master. Then it reads the image block by block, asks
-- the filter for the hash, and where the filter says yes looks it up in every `md5map` and appends the
-- image block to the file map of the master at each place. `filemap_t::clean` and `runlen` make runs of
-- the file maps for the report, which `main` also writes as XML, after a head that describes the program
-- and the host. A file of md5deep that `-m` names is read with `myregex`, and what it says is not used.
--
-- Files:
--   Common: the names that all modules share. Common.Outcome has `Run`, the outcome of C code: a value,
--     an `exit`, or a fault such as a read out of bounds. Common.Bits has the bits of a byte, Common.Text
--     the text of a decimal number, Common.Decimal `atoi`, Common.Strings the order of strings and the
--     sets and maps of the standard library, Common.Lists arrays by index.
--   Bloom.Types: `struct nsrl_bloom_` as `Bloom`, and `Env` for what bloom.c calls: OpenSSL, the
--     allocator and the system calls on files.
--   Bloom.Header: `nsrl_bloom_info` and `nsrl_bloom_info_update`.
--   Bloom.Filter: `nsrl_bloom_add`, `nsrl_bloom_query` and the functions on strings. Bits and Rounds
--     relate the loops to sets of bits, Laws has the contract of one call, Sequence that of many. With a key the
--     code uses a buffer after the end of its block, which is a fault of the model.
--   Bloom.Create: `nsrl_bloom_create`, `nsrl_bloom_write` and the functions beside them; Memory is about
--     filters that have no file, Files about the file that `nsrl_bloom_write` leaves.
--   Bloom.Open: `nsrl_bloom_open`. Header is about reading the header page, Trip about opening the file
--     that `nsrl_bloom_write` left.
--   Bloom.Usage: the counts of `nsrl_calc_histogram` and `nsrl_bloom_utilization`, with Counts about them.
--   Bloom.Class: what `NSRLBloom` adds to the functions of bloom.c. Bloom.Disk: disk_bloom, with Sectors
--     about its loops and Stored about the file that it leaves.
--   Histogram: `histogram`, with Counts and Ngrams about what it counts.
--   Rds: `RDS_File_Entry` and `main` of nsrl_bloom_creator.cpp. Rds.File: `RDSFile`; Slices and Lines are
--     about the buffer and one line, and Sequence about all lines of a file.
--   Hash: `hash__` and `hash_generator__` of src/hash_t.h for any digest size, with facts in Digests;
--     Hash.Md5 is `md5_generator` of src/md5.h, of which `load` calls `hash_file`.
--   Hex: hexadecimal text in bloom.c, src/hexbuf.c and src/md5.h, with `hexcharvals` as the table that
--     `nsrl_bloom_init` makes at the first call. Digits, Trips and Bounds have its facts.
--   Search.FileMap: `blocklist_t` and `filemap_t`; Clean and Runs are about `clean` and `runlen`.
--   Search.Digest: `md5_t::operator<` and `operator==`. Search.BlockFile: `blockfile`.
--   Search.Filter: the filter as frag_find uses it. Search.Master: `masterfile` and `md5map_t`.
--   Search.Scan: the loop of `main` over the image; Push, Gains and Exact follow one list of blocks, one
--     block of the image, and the whole loop. Search.Main: the program around them, with the
--     results on whole runs in Search.Main.Carve.
--   Search.Report: `masterfile::print_report`, as the lines of its table and the byte runs of its XML;
--     Runs is about the table, and Bytes about the byte runs of its lines.
--   Xml.Text: the static functions of class `xml`, with Escape about `xmlescape`. Xml.Writer: the object
--     and its operations; Attributes says which names and attributes keep to
--     their tag, Tokens what each call writes as a list of tags and texts, Balance what it is for tags
--     to nest, Calls what single calls do, Sequence what sequences of calls do, and
--     Reading has a reader that follows the characters of the stream.
--     Xml.Close: `xml::close` and `xml::write_dtd`. Xml.Existing: the constructor that reads a file,
--     with its searches by regular expressions as parameters; Nesting is about the tags it follows.
--     Writer.Effects has the effect of each call on the open tags, for programs made of calls.
--   Xml.Environment: the elements about the build, the host and the usage; Nested says that they nest,
--     and Values is about the time they show.
--   Regex: `myregex` and `beregex`; Regex.Patterns is `regex_list`, and Earliest is about its `check`.
--   Search.Md5deep: `md5deep_parse` and `read_md5deep`, with Lines about the files that they take.
--   Search.Program: `main` as a whole. Options is the command line, with Kept about the XML object that it
--     leaves, Finish what follows the scan, Reports and Closing are about that, and Whole about a run.
--   Search.Output: the XML element of one master file, as `main` and `print_report` write it; Nested is
--     about it in the document.
--   Dfxml: `file_object_reader` of src/dfxml.cpp, driven by the events of expat. Tags is about its stack,
--     Elements has the events of an element for a file, and Trip is about reading them.
--   Timer: `aftimer` of src/aftimer.h, with Clock about `hms` and Laps about the time that it counts.
--   Tests: concrete inputs.
--
-- Numbers are natural numbers; a C integer keeps its wrap-around, written `% 2 ^ 32` or `% 2 ^ 64`.
-- Loops recurse on the rounds or on the bytes left. Four have fuel: `write_vector`, one more than the
-- vector's bytes over the 1 MB of one write, and so more than the writes there are; the loop of the
-- report, the entries of the file map, of which each round takes at least one; the loop of disk_bloom over
-- a page, the bytes of the page, where a sector has at least one; and the decimal
-- digits of a number, 20, as many as a 64-bit number has.
--
-- Not modelled: MD5 (src/md5.c is another project's), which is the parameter `hash_buf`, of which only
-- the length of its digests is used; OpenSSL, the kernel, the allocator, expat and regular expressions,
-- which are parameters; the printed text of the report, the reading of the clock, the mutex, the system
-- calls about the host, and `getopt`. AFFLIB is a parameter. The Windows branches are left out.
pub mod Common
pub mod Bloom
pub mod Dfxml
pub mod Hash
pub mod Hex
pub mod Histogram
pub mod Rds
pub mod Regex
pub mod Search
pub mod Timer
pub mod Tests
pub mod Xml
