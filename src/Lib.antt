-- ===== src/Lib.antt =====
-- The fuzzer engine of FANS, which generates transactions for Android's native services from a model
-- of their interfaces.
--
-- A transaction is a parcel: a list of names of variables. `ParcelReaderWriter` walks the parcel,
-- writes or reads one variable after the other, repeats those in a loop of the model, and caches the
-- values, so that later variables and the constraints between them can be evaluated.
-- `ConstraintChecker` evaluates a constraint and caches its status; storing a value resets the
-- statuses that depend on it. `ParcelWriter` draws values until the constraint of the variable
-- holds or its tries are used up; `IntType` draws the integers and `StringType` the strings.
-- `ParcelReader` reads a variable from the reply, and copies it to the parcel of a transaction that
-- depends on it; `ArrayType` chooses the item of an array that is copied. `Executor` runs the
-- transaction on the interface that `NativeServiceManager` finds, and takes it out of the
-- transactions in use.
--
-- Files, and the code they model:
--   Base: names of the libraries and shared types: lists over the native numbers, texts as lists of
--     codes, signed integers, maps as association lists.
--   Exec: a state monad whose outcomes are a result, exit(0), and fuel that has run out. Exec/Total:
--     code that comes back and relates its states. Exec/Succeeds, Exec/Keeps and Exec/Yields: code
--     that also never exits. Exec/Gives: the values of code that may not come back.
--   Calls: the calls that the program makes on android::Parcel.
--   Random: fuzzer-engine/fuzzer/src/utils/random.cpp. Randomness is a tape of numbers.
--   Model: the JSON model of an interface. VarType:
--     fuzzer-engine/fuzzer/include/fuzzer/types/types.h. State: the members of
--     fuzzer-engine/fuzzer/include/fuzzer/parcel_reader_writer.h.
--   TypeMap: fuzzer-engine/fuzzer/src/types/types.cpp.
--   Parcel: fuzzer-engine/fuzzer/src/parcel_reader_writer.cpp, in the layers Lookup (getVarIdx,
--     getVarValue and so on), Store (storeValue, resetConstraints, setLoopCounter), Select
--     (getTargetConstraint) and Traverse (start, readWriteFrom, readWriteRange). The other files of
--     Parcel hold proofs.
--   Checker: fuzzer-engine/fuzzer/src/constraint_checker.cpp; Checker/Special: its part on special
--     self constraints.
--   Writer: generate and writeRawToData of fuzzer-engine/fuzzer/src/parcel_writer.cpp; Writer/Items:
--     the rest of that file. Reader: fuzzer-engine/fuzzer/src/parcel_reader.cpp.
--   Scalars: bool_type.cpp, float_type.cpp and double_type.cpp of fuzzer-engine/fuzzer/src/types.
--   Strings: fuzzer-engine/fuzzer/src/types/string_type.cpp, in Chars (random strings), Names (tests
--     on names), Ops, Network, Locations and Audio (the generators), Choice (generate) and Split.
--     The other files of Strings hold proofs, and std::to_string (Decimal).
--   Arrays: fuzzer-engine/fuzzer/src/types/array_type.cpp and
--     fuzzer-engine/fuzzer/src/types/blob_type.cpp; the other files of Arrays hold proofs.
--   Structures: fuzzer-engine/fuzzer/src/types/structure_type.cpp: uuid_parse and audio_uuid_s;
--     Structures/Nested: the rest of it and fuzzer-engine/fuzzer/include/fuzzer/types/structure_type.h.
--     The other files of Structures hold proofs.
--   Functions: fuzzer-engine/fuzzer/include/fuzzer/types/function_type.h and
--     fuzzer-engine/fuzzer/src/types/function_type.cpp; Functions/Arguments: proofs.
--   EnumType: fuzzer-engine/fuzzer/src/types/enum_type.cpp.
--   IntType: fuzzer-engine/fuzzer/include/fuzzer/types/int_type.h and
--     fuzzer-engine/fuzzer/src/types/int_type.cpp.
--   Service: fuzzer-engine/fuzzer/src/transaction.cpp, fuzzer-engine/fuzzer/src/executor.cpp,
--     getService of fuzzer-engine/fuzzer/src/service.cpp and canUseDependency of
--     fuzzer-engine/fuzzer/src/dependency_solver.cpp.
--   Tests: concrete inputs.
-- A function of the code has its name in snake case.
--
-- A parcel that is written is the list of the calls made on it. What a call that reads answers may
-- depend on all the calls before it, so that nothing is assumed of android::Parcel.
--
-- Fuel: `check` gets the depth of the constraint and three more, since it checks a comparison again
-- after each of its two operands has become a cached loop counter; `resetConstraints` the length of
-- the name; `readWriteFrom` the number of loops, since each nested call visits one more; the loop of
-- `readWriteRange` its own bound of 65537 rounds; `start` the length of the parcel;
-- `split` two more rounds than the string and the pattern are long. The loops on std::rand() stop
-- only if an accepted character comes: their rounds are an argument, and what says that they end
-- assumes an alphanumeric character among as many in a row. `StringType::generate` calls itself for
-- a variable without a name, for which it does not call itself again.
--
-- Not modelled: android::Parcel, binders, files and JSON parsing, which are other code; a JSON value
-- is what its accessors answer. Floats are bit patterns with their comparisons as an argument.
-- Unions, files, binders and the recursion of the solver of dependencies are not modelled either:
-- they are arguments of the reader and the writer of a variable, as arrays, blobs, structures and
-- functions are, and what the rest of the system does an argument of the run of a transaction. The
-- items of an array and the walks over a structure and a function are arguments too. The walk
-- takes what is done with a variable as an argument, which the reader and the writer are. Log output
-- is left out.
mod Base
mod Exec
mod Random
mod VarType
mod Scalars
mod Model
mod Calls
mod State
pub mod TypeMap
pub mod Parcel
pub mod Checker
pub mod Writer
pub mod Reader
pub mod Arrays
pub mod Structures
pub mod Functions
pub mod Strings
pub mod EnumType
pub mod IntType
pub mod Service
mod Tests
