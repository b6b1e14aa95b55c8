-- ===== src/Lib.antt =====
-- Kenaf: a compiler and a runtime for a small dynamic language. A script is read into a source
-- object, the lexer cuts its text into tokens for the generated parser, the syntax tree becomes an
-- intermediate representation whose values are given registers, and the code that is emitted runs
-- on a virtual machine with arrays, tables, objects and cothreads.
--
-- What the files model. Every definition carries the name of the function, method or structure
-- it translates; a loop of a longer function has a name of its own.
--   Base           numbers, lists, and `Run`: a call returns, raises an error of the program, or
--                  meets a failed assertion or undefined behaviour (`fault`).
--   Source         source/compiler/source.cpp: the text with its lookahead, and source locations.
--   Lexer          source/compiler/lexer.cpp, and the loop of source/compiler/parser.cpp that asks
--                  for the tokens. Lexer.Token has the tokens; Lexer.State the state of the lexer
--                  and its reads of the text, as a state monad over `Run`; Number, Text, Keywords
--                  and Lex the methods; Spelling the names of tokens in messages. The proofs are in
--                  Advance and Safe (bounds and progress), Utf8, Value and Keywords.Search.
--   RegMap         source/compiler/ir_regmap.cpp: the ranges for which each register is taken.
--   EscapeString   source/common/escape_string.cpp; Printable is about the text that it returns; Reading,
--                  Escapes and Literal are about the lexer's reading of that text as a string.
--   ArrayObject    source/runtime/objects/array_object.cpp: the operations on a block of slots in
--                  ArrayObject, what they do to an array of values in Refine, Grow and Insert.
--   Table          source/runtime/objects/table_object.cpp: slots and the loops over chains in
--                  Table, the operations in Table.Methods. Table.Chains and its children are
--                  about the chains of slots as lists, Table.Invariant states when slots are in
--                  order, and Table.Contents says which finite map they stand for.
--   LookupObject   source/runtime/objects/lookup_object.cpp and .h: objects, layouts and the searches
--                  in LookupObject, the operations in LookupObject.Methods; a chain of layouts is a
--                  list in LookupObject.Chain; Resolve, Update and Sealed are about the values of keys.
--   CallStack      source/runtime/call_stack.cpp: calls of functions on the stack of a cothread;
--                  returns, yields and generators, over all cothreads, in CallStack.Returns;
--                  calls of any value in CallStack.Dispatch.
--   Imath          source/common/imath.cpp: the integer of a double, from its bits.
-- The files called Tests run the definitions and apply the theorems at small inputs.
--
-- Numbers are natural numbers; the wrap-around of 32 and 64 bits is written out where it can be
-- reached. Characters are bytes. A vector is a list, a pointer into it an index, and a read
-- or write out of range is a fault.
--
-- Fuel. The loops of the lexer have as much fuel as the text with its lookahead has characters,
-- since each round moves on, and running out of it is a fault. The chains of a table are
-- followed for one step more than there are slots. A search along the parents of
-- layouts or objects has one step more than there are of them. The loop of `escape_string` has one
-- round for each character, and each round takes at least one. The other loops go down a number or a list.
--
-- Positions in a script. The lexer counts in a `size_t`; a source location, `srcloc`, has 32 bits, and
-- a position that becomes one wraps. The theorems about `lex` and about the parser's loop take the
-- positions of the script to fit.
--
-- Parameters. The size of the block that the heap gives for an array is a function. Theorems take it
-- to be at least what was asked for, up to the most slots for which the heap of
-- source/runtime/heap.cpp has a block, 0xFFFFFFE0 bytes with the header. The bytes that are asked for
-- wrap at 64 bits, as in `vslots_new`. That the heap throws for a larger block, or when memory runs
-- out, is not modelled. What native functions do, the kind of object that a value stands for and the
-- value that stands for an object are functions. The hash functions of the C++ library and the count of
-- leading zeros are functions. Whether `char` is signed is an argument of `escape_string`; the lexer
-- compares characters as bytes.
--
-- Not modelled: a number literal ends as the text that `strtod` is given or as an integer, since
-- floating point is outside; the format of diagnostics; write barriers and the collector; the
-- unwinding of the stack after an error, which only gathers the trace and drops frames; the
-- generated parser, the syntax tree, the passes over the intermediate representation other
-- than the register map, the interpreter loop and the core library; input and output.
pub mod Base
pub mod Source
pub mod Lexer
pub mod RegMap
pub mod EscapeString
pub mod ArrayObject
pub mod Table
pub mod LookupObject
pub mod CallStack
pub mod Imath
