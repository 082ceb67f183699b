-- ===== src/Lib.antt =====
-- redis-protobuf is a Redis module that stores protobuf messages as the values of keys, and reads and
-- changes them with the commands PB.SET, PB.GET, PB.APPEND, PB.DEL, PB.CLEAR, PB.MERGE, PB.LEN, PB.TYPE
-- and PB.SCHEMA. The types come from .proto files of a directory, which the module imports when it is
-- loaded, and from PB.IMPORT, which hands a file to a thread; PB.LASTIMPORT fetches what became of it. A
-- command parses its arguments, opens the key, follows a path such as `/field/3/key` into the message by
-- protobuf's reflection, reads or changes what stands there, replies to the client and, if it writes, asks
-- Redis to replicate it. This library models these commands as functions and
-- proves what they keep, what they reply and what is read back. All paths below are from the repository's
-- root; most of the sources are in src/sw/redis-protobuf.
--
-- Which file models what:
--   Errors          errors.h: the errors, and `Outcome`, a result that is a value, an error, or the end of
--                   the process (a fatal error of protobuf's reflection, or undefined behaviour).
--   Exec            Code that changes a state and may throw. The state comes back beside the error, since
--                   what was written before a throw stays written.
--   Utils           utils.cpp: sv_to_* and str_case_equal, with std::stoi, stoll and stoull on bytes.
--   Utils.Io        utils.cpp: the functions on files. The file system is a parameter: what stat and readdir
--                   give.
--   Path            path.cpp, path.h: the parser of paths.
--   Protobuf        The parameter for the protobuf library: messages, descriptors, and the calls of
--                   reflection, serialization and JSON that the module makes, with std::stod and stof.
--   FieldRef        field_ref.h: the constructor of FieldRef, which walks along a path. ConstFieldRef and
--                   MutableFieldRef are the two modes. The pointer `_msg` is the list of steps that lead
--                   to it from the root message, and the root message is the state.
--   FieldRef.Access field_ref.h: what a reference reads and writes. The members for one C++ type each
--                   are one function of the type. FieldRef.Typed says of all of them what becomes of the
--                   message's type.
--   ModuleApi       module_api.cpp: keys and replies. `Redis` is the parameter for the keyspace; `World` is
--                   the keyspace, the replies sent so far, whether ReplicateVerbatim was called, and the
--                   keys opened, with their modes.
--   ProtoFactory    proto_factory.cpp: both functions create. ProtoFactory.Loader is the thread that loads
--                   .proto files: what the clients and the thread do is a step relation, and a section
--                   under the mutex is one step. The disk and protobuf's importer are a parameter.
--                   Collector is the text of what the importer reports, Cache the cache of descriptors, and
--                   Factory the constructor, which imports the directory. Thread takes the same thread apart:
--                   its loop between its accesses to the mutex, the condition variable and the stop flag, with
--                   load, last_loaded and the destructor as the steps of the others.
--   Command         One module per command (Set, Get, Append, Del, Clear, Merge, Len, and TypeName for
--                   PB.TYPE and PB.SCHEMA): the parsers of arguments, the branch on the key, the handler
--                   `run` with its catch blocks. Convert is the text conversion that PB.SET and PB.APPEND
--                   share, Args the arguments that PB.LEN, PB.DEL and PB.CLEAR share. Import is PB.IMPORT and
--                   PB.LASTIMPORT, on a `Server`: the World and the Loader. Registry holds the nine commands
--                   that work on keys and types, Server all that commands.cpp registers. Below Registry,
--                   Keyspace runs sequences of commands against a map, Typed follows the type of a
--                   message over commands, and Opened the modes of the keys that they open. Below
--                   Server, Replica runs on a second keyspace what was replicated, without PB.IMPORT and
--                   times to live that are set.
--   Persistence     redis_protobuf.cpp: RDB save and load, and the AOF rewrite.
--   ModuleEntry     redis_protobuf.cpp and module_entry.cpp: the load of the module. `Host` is the parameter for
--                   what Redis does with a registration.
--   Options         options.cpp: the arguments of the module.
--   Sample, Tests   A concrete instance of the parameters, and runs of the models on it.
-- The other modules below these hold proofs and are named for what they prove. Base passes on the names
-- of the libraries.
--
-- What is assumed. Protobuf and Redis are records of functions with no laws. A theorem that needs one
-- names it: RepeatedLaws (SwapElements and RemoveLast), AccessLaws (a Get after a Set), ApartLaws (and
-- a Set leaves other fields and elements, but for those of its oneof), SerialLaws (a serialized message
-- parses), TypeLaws (no call changes a message's descriptor, and a new message has the type it was
-- asked for), FrameLaws (a call of Redis for a key changes no other key), KeyspaceLaws (and what it
-- does to this key), ExpireLaws (and a time to live that is set changes no value; its end is an event
-- of its own), Grows (an import takes no type from the pool), ReadsOnly (an import changes no file),
-- IsLimit (stat fails for a path that is too long, PATH_MAX). Sample and Tests show that each of them
-- holds of an instance. A theorem on the replies has a premise on the stored messages (AllSized): their
-- map fields have as many elements as keys.
--
-- Bounds. The recursion of list_dir into directories is on the depth of the stack, and an exhausted stack is
-- `abort`: as many levels as a path has bytes at most are enough. The loop of _canonicalize_path is on as
-- many rounds as the path has bytes, and std::to_string on one round more than the number, since each
-- round takes a digit from it. Every other loop recurs on a list or on a count that the code
-- computes before the loop.
-- Integers of 32 and 64 bits are the numbers in range, and the conversions write out the wrap-around.
-- The size and the index of a repeated field are natural numbers; `-1` for no index is `none`.
-- _get_field and _get_array of get_command.cpp call each other; the inner call is for one element, so
-- the model takes the reply to a whole array as an argument.
--
-- Not modelled: the clock (the end of a time to live is an event that may come at any time), the close
-- of keys and of directory streams, log lines, memory, the texts of error messages but those of the
-- loader, the header of Redis (redismodule.h, redismodule.cpp), and two functions that are never called
-- (FieldRef::_parse_aggregate_field, SchemaCommand::_format). An assert is taken to hold.
pub mod Base
pub mod Errors
pub mod Utils
pub mod Path
pub mod Protobuf
pub mod Exec
pub mod FieldRef
pub mod ModuleApi
pub mod ProtoFactory
pub mod Command
pub mod Persistence
pub mod ModuleEntry
pub mod Options
pub mod Sample
pub mod Tests
