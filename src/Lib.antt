-- ===== src/Lib.antt =====
-- A model of pyrealm, and what holds of it: of its recovery tool, `pyrealm_forensics`, and of its
-- reader, `pyrealm`.
--
-- The tool reads a file that may be a damaged Realm database. `src/pyrealm_forensics/parser.py` maps
-- the file, reads its header, scans all of it for places that look like an array, links the arrays by
-- the references in their payloads, labels each by the roots that lead to it, and carves printable
-- strings out of the arrays that hold data. `src/pyrealm_forensics/cli.py` runs this for a command
-- line. `src/pyrealm_forensics/models.py` has the records that pass between them.
--
-- The reader, `src/pyrealm/reader.py`, opens an intact database. It asks a native module for the schema,
-- for the results of queries and for records, keeps the records in a cache of weak references, converts
-- their fields when they are read, and turns a record into plain values, following its links to a given
-- depth.
--
-- The files, and the code that each is about:
--   Models, Json       models.py: the records, and the dictionaries that `_asdict` makes of them
--   Bytes, Utf8        slices, `struct`, `int.from_bytes`, `bytes.find` and the decoding of a
--                      character, as the language documents them
--   Header             parser.py, `_parse_header`
--   Layout             parser.py, `_array_size`
--   Scan               parser.py, `_scan_array_candidates`
--   References         parser.py, `_add_references`
--   Reach              parser.py, `_reachable`; Reach/Walk describes reachability by walks
--   Classify           parser.py, `_classify_nodes`; Classify/Pipeline runs the three passes
--   Strings            parser.py, `_utf16le_pattern`, `_utf8_strings`, `_extract_strings`
--   Hash, Entropy      parser.py, `_sha256`, `_sample_entropy`
--   Disk               the file system that the tool reads and writes: a list of paths and entries
--   Platform           what the tool takes from the standard library without looking into it
--   Analyze            parser.py, `_analyze`, `_classify_headerless`, `analyze_realm` and the warnings
--   Carve              parser.py, `carve_realm`
--   Cli                cli.py, from the arguments that `argparse` has read to the exit status
--   Reader             reader.py: the native values, the public ones, and the exceptions
--   Reader/Convert     reader.py, `Realm._convert`
--   Reader/Records     reader.py, `_record_identity` and `Record.__getitem__`
--   Reader/Cache       reader.py, `_native_errors`, `Realm._record`, `Realm._record_from_raw`
--   Reader/Expand      reader.py, `Record.to_dict`, `Record._to_dict`, `Realm._plain_value`
--   Reader/Slices      `slice.indices` and `range`, as the language documents them
--   Reader/Results     reader.py, `Results`; Reader/Results/Items has its lengths, items and slices
--   Reader/Timestamp   reader.py, `RealmTimestamp.datetime`
--   Reader/Schema      reader.py, `PropertySchema`, `TableSchema` and the dicts of `Realm.__init__`
--   Reader/Realm       reader.py, `Realm`, `Table`, `RealmLink`; Reader/Realm/Requests has what callers
--                      ask of them, and the states that this leads to
--   Reader/Faults      which exceptions the reader's operations raise
--   Reader/Open        reader.py, `open_realm`
--   Prelude            names, tests, lists, dictionaries in order of insertion, exceptions as values
--   Tests              runs on small files, and the theorems at concrete inputs
--
-- Each pass is a function of the bytes and of the results of the passes before, as in the code; a
-- state is passed on explicitly. A Python integer that is never negative is a natural number; a
-- 64-bit field is read from its eight bytes, and bit tests are written by `/` and `%`. A dictionary is
-- a list of pairs in the order of insertion. A text is a list of code points where it is carved, and a
-- string of the language where it is a message. An exception is a value of `Result`.
--
-- Loops are functions on fuel. The scan, the loop over a payload and the matches of the pattern move
-- forward by at least one byte in each round, so they get as many rounds as there are bytes, the
-- matches one more for the position at the end. Each round of the traversal takes an item off the
-- pending ones, and an array adds its children once, so it gets one round for the root and one for
-- each edge. Each chunk of a file is at least one byte, so the reads get one round more than it has
-- bytes. Where the fuel is out, the traversal returns an error of its own; the other loops return what
-- they have.
--
-- Taken as parameters: SHA-256, Python's floats, `str.isprintable`, `int` and `repr` of a text,
-- the resolution of paths and their texts, the number formats, and what the calls of the operating system
-- raise. Of SHA-256 it is supposed, where the chunks matter, that repeated updates are one update on the
-- concatenation, as `hashlib` documents; nothing is supposed of the others. Resolving a path, testing it,
-- reading a file, making a directory, opening and writing a report, and each `print` may raise an
-- `OSError` or a `ValueError`; resolving a path may raise a `RuntimeError` too, which `main` does not
-- catch. A report whose writing breaks off is left with what was written; the directories that were made
-- before stay. A file that is read or written does not change in between, and the disk of the model has
-- no symbolic links: a path that goes up by `..` leads to the directory above. A report file holds the
-- value that was handed to `json` or `csv`. The reason in an error of the operating system is one text,
-- without its number.
--
-- The items of a range are read off in as many rounds as the sequence has items, since the ends of a
-- slice are not further apart. The digits of a number take one round each.
--
-- The conversion to plain values recurs on the depth that is left, and within a value on the value.
-- The native module is a parameter of the reader, a record of its operations, once for the open
-- realm and once for the closed one. Its close may raise, also where an open that failed calls it.
-- Where the cache is concerned it is supposed that the realm is immutable: each record that the
-- module gives is the one that the open realm has for the keys in it. `decimal.Decimal`, `repr`,
-- `b64encode`, the order of a frozen set, the text of a `TypeError`, the resolution of a path and
-- the reading of a key file are parameters too. An integer of the reader may be negative; it is of
-- `ℤ`. A weak reference to a realm is a Boolean that says whether the realm is still there.
--
-- A record that a caller holds is the one in the cache, so a change of it is a change of the entry. What
-- the conversion to plain values adds to the cache on its way is left out: it reads the state at its start.
--
-- Not modelled: the native module (`native/module.cpp`, over the Realm core library); of the reader, the
-- texts of `__repr__`, the hash of a link, and the version of the core; `argparse`; and the
-- limits of Python's stack and memory.
pub mod Prelude
pub mod Bytes
pub mod Models
pub mod Header
pub mod Layout
pub mod Scan
pub mod References
pub mod Reach
pub mod Classify
pub mod Utf8
pub mod Strings
pub mod Json
pub mod Disk
pub mod Hash
pub mod Entropy
pub mod Platform
pub mod Analyze
pub mod Carve
pub mod Cli
pub mod Reader
mod Tests
