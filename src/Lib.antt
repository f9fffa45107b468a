-- ===== src/Lib.antt =====
-- stdromano: a verification development of the C++ library of the same name.
--
-- The library is a toolbox: strings, containers, a regular-expression engine, JSON, files,
-- environment, threads and linear algebra. The parts meet through values: the regular expressions
-- take and give strings and vectors, the maps and sets share one hash container.
--
-- Prelude    the library names that all files use, Boolean tests, lists over the native ℕ
--
-- Regex      src/regex.cpp, include/stdromano/regex.hpp. A pattern is compiled by recursive descent
--            to bytecode (Compiler.antt), the jumps to `Fail` are resolved (Finalize.antt), and a
--            machine runs the bytecode on a text (Vm.antt), once for each start that `match`,
--            `search`, `match_iter`, `replace_iter` (Api.antt) try.
--   Opcode     RegexInstrOpCode, encode_jump_at, decode_jump, emit_jump, emit_fail_jump, patch_jump
--   Vm         RegexVM, regex_exec: `execute` is the switch, `step` one round, `run` the loop
--   Compiler   RegexCompiler; the loops over a class, `*`, `+` have a function each
--   Finalize   finalize_bytecode
--   Api        RegexMatch and the public methods of Regex
--   Syntax     regular-expression trees and the layout of their bytecode, the independent
--              description that the compiler and the machine are compared with
--   Semantics  the evaluation of a tree on a text
--   Steps, Simulation, Correct            the machine on the layout of a tree
--   Reads      the grammar: which tree a stretch of a pattern stands for, without the compiler
--   Emit, Scannable                       the code that the compiler emits, against the layout
--   Appends, Cursor, Ranges, Parse, Grammar  what the compiler reads, by the grammar, and appends
--   Scan, Resolve, Refine                 the scan of finalize_bytecode, and both together
--   OwnGroups, Matches, Replace, Bounds   the groups of a match, the loops of match_iter and
--            replace_iter, and bounds
--
-- HashContainer  hashcontainer.hpp, hashmap.hpp, hashset.hpp and bit_ceil of bits.hpp, all of them in
--            include/stdromano/.
--            A robin-hood hash table; the hash of a key, the selection of the key and the comparison
--            of keys are the record `Keys`, a bucket is an optional slot, and an iterator its index.
--   Bits       bit_ceil, and masks
--   Table      the fields, get_hash, get_index, insert_internal and grow
--   Access     the constructor, iteration, emplace, find, contains, erase, clear, reserve
--   Map        HashMap and HashSet
--   Weight     sums of a weight over the values: two tables with the same sums for every weight hold
--              the same values, each as often
--   Insert, Emplace, Erase, Ends          the values that the operations keep, and their loops' ends
--
-- CommandLine  src/command_line_parser.cpp, include/stdromano/command_line_parser.hpp
--   Parser     parse from a map of declared arguments: `round` is the body of the loop,
--              `parse_words` the loop
--   Values     the ways of giving a value
--
-- Json       src/json.cpp, include/stdromano/json.hpp
--            The parser and the writer give and take a `Value`, the tree that an object stands for; a
--            parser takes the bytes from the position on. `double` and its operations are the record
--            `Floats`, the texts that the formatting library appends the record `Format`, with what it
--            documents of them in `IsFormat`.
--   Value, Parser, Writer                 loads with the functions of JsonParser_, dumps with those of JsonWriter_
--   Ends, Strings, Numbers                the end of the parser; strings, and numbers
--   Printable, Arrays, Dicts, RoundTrip   the parser on what the writer writes
--   Tags       the word of tags of an object
--   Chain      the linked list of the elements of an array or a dict, in an arena
--   Document, Getters, Setters            the objects of a document: make_ and set_ functions, getters
--   Containers                            array_append, array_pop, dict_append, dict_pop, dict_find and
--            the iterators, with what each does to the list that an array or a dict is
--
-- Char       include/stdromano/char.hpp
--            The classes of a character, as an unsigned int of 32 bits, and its case.
--
-- Optional   include/stdromano/optional.hpp
--            The storage of an optional with its flag, and the operations on it.
--
-- Python     src/python.cpp, include/stdromano/python.hpp: the lexer of Python source. A cursor is the
--            bytes in front of the zero that ends the source, and the map lookups are those of
--            association lists.
--   Token, Tables                         the tokens, and the tables of words and marks
--   Cursor, Literals, Words, Lines        `Lexer` and its methods
--   Lexer      tokenize: `round` is the body of the loop, `run` the loop
--   Suffix, Sound                         what a round keeps of the source and of the levels
--   Passes, Texts, Levels, Rounds         the cursors of the loops, the rounds, and the whole run
--   Longest    the choice of an operator
--
-- String     include/stdromano/string.hpp, src/string.cpp
--            A string is the cells that its pointer leads to with its fields; a part of a string refers to
--            the cells of the whole. The capacity of the local buffer, and the product of a capacity with
--            the growth rate, are parameters. The C functions that it calls are written out.
--   Storage    the memory: reallocate, push_back, append, prepend, insert, erase, copies, make_ref
--   Views      strip, substr, find, split, lsplit, rsplit, is_digit
--   Cases      upper, lower, capitalize, replace, zfill, startswith, endswith, strcmp, to_bool
--   Contents, Appended, Inserted, Erased, Copies, Mapped    these operations on the text
--   Strip, Search, Splits                 what is stripped, found, and split
--   Codepoints utf8_iterator and u8length, whose loop gets the size and one more for its rounds
--
-- Vector     include/stdromano/vector.hpp
--            A vector of values that are copied byte by byte; its slots are optional values, and the
--            product of a capacity with the growth rate, and whether memory is got, are parameters.
--   Storage    the memory: allocate, resize, grow, reserve, shrink_to_fit
--   Elements   push_back, insert, erase, pop_back, find, clear and the subscript
--   Grown, Contents, Removed, Found       these operations on the list of the elements
--
-- A byte is a number below 256 and an `int` its 32-bit pattern; subtractions of the source that may
-- wrap are written modulo 2 ^ 32 or 2 ^ 64. A read out of bounds gives `none` or `fault`.
-- Fuel: the compiler gets the length of the pattern and one more for its depth and its loops, as each
-- call and each round consumes a character (no theorem says that this is enough, the theorems about
-- a compilation take its success as a hypothesis); the scan gets the length of the bytecode and one more;
-- the loops over starts get the length of the text and two more. A run of the machine takes a number
-- of rounds as an argument, since a pattern such as `(a*)*` may run forever; a run without an answer
-- is told apart from a run that does not match.
-- The loops of the hash container take fuel as an argument: `find` and `erase` need about as much as
-- the probe lengths of the table, and insertion may grow the table for ever when more keys have one
-- hash than a table has probes.
--
-- The parser of JSON gets the length of the text and one more for its depth and for its loops, as each
-- call and each round consumes a byte. An overflow of a signed integer and a read behind a table are
-- the result `undefined`. The memory of a document is one arena for each kind of object; the pointers of
-- the arenas are indices, an iteration gets the length of the arena for its rounds, as pointers lead to
-- later elements only, and a text is kept in the object that points to it.
--
-- The lexer of Python source gets the length of the source and one more for its rounds, as each
-- passes a byte. A `char` above 127 is negative and converts to an unsigned int near 2 ^ 32; `isalnum`
-- is that of ASCII. Where the lexer stops with an error, the tokens it has found so far are left out.
--
-- `std::log2` and the product by 0.9f are written out on powers of two, where both are exact; the
-- number of buckets that `std::ceil` gives for a number of items is a parameter.
--
-- A pattern is plain when none of its bytes is one that the scan takes for an instruction with an
-- operand, such as a line feed. The scan reads the operand of TestNegatedSingle as an instruction, so
-- on other patterns it may get out of step.
--
-- Not modelled: the disassembler behind the debug flag; the constructors with elements, copies and
-- inserts of several elements of a vector; loadf and dumpf, which read and write a file around loads
-- and dumps; the parser of Python source with its syntax tree, and the reports of the lexer's errors;
-- moves, assignments and formats of strings, and the vectorised kernels of src/string.cpp; copies and
-- moves of containers; add_argument of the command line, whose maps rest on the subscript of HashMap,
-- which may give the slot of another key; `Arena`, where an allocation is taken to have room, which a
-- text longer than a block of the arena does not have; and the parts of the library that are I/O,
-- platform queries or floating-point kernels.
pub mod Char
pub mod CommandLine
pub mod HashContainer
pub mod Json
pub mod Optional
pub mod Prelude
pub mod Python
pub mod Regex
pub mod String
pub mod Vector
