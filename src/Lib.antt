-- ===== src/Lib.antt =====
-- A verification library of the scalar plugin's server, the C++ program under Scalar/server/src
-- that reads training logs and serves their scalars as graphs.
--
-- The parts and how they interact. A parser reads a file record by record and keeps the data in
-- a cache, from which it goes to the graph of its tag and on to the object of its file. A
-- request names a tag, a file and a range of steps: the file gives views of its points, a line
-- samples them or merges them, and smoothers keep a smoothed copy of the points of a tag up to
-- date. The file manager owns the file objects, and the server records the tags and files that
-- are new and how far a project is parsed. The handlers read requests from JSON, check them and
-- call the server; the file watcher reports files that were created or written.
--
-- The files.
--   Base: the names that all modules share, the Boolean tests, lists over the native numbers,
--     strings as lists of bytes, std::map as association lists, std::set as ascending lists,
--     and the interface of the floating-point types.
--   Concept, Concept/View: ParseDataType, ErrCode, DataMode, ScalarPoint and DataView of
--     Scalar/server/src/defs/ConceptDefs.h; Concept/Gather and Concept/Elements: what
--     GatherElement picks and GetElements reads.
--   Line: Scalar/server/src/GraphLine/GraphLine.h and GraphLine.cpp; Line/Sample: Process of
--     Scalar/server/src/GraphLine/LineOp/SampleLineOp.h; Line/Merge: the order of a merged
--     line.
--   Smoother/Window: the window of points that the two window smoothers of
--     Scalar/server/src/GraphLine/Smoother keep; Smoother/Loop: their loop; Smoother/Median,
--     Smoother/TopX, Smoother/IrLow: WindowMedianSmoother, WindowTopXSmoother and
--     IRLowSmoother; Smoother/Factory: SmootherBase.h and SmootherFactory.h.
--   File: Scalar/server/src/FileManager/File.h and File.cpp; File/Boundary: the binary
--     searches; File/Invariant with Query and Update: the invariant of a file, GetData and
--     UpdateData.
--   Manager: Scalar/server/src/FileManager/FileInfoManager.h and FileInfoManager.cpp, over a
--     heap of file objects; Manager/Index: its invariant.
--   Graphs: Scalar/server/src/GraphManager/GraphManager.h and GraphManager.cpp and the
--     members of Scalar/server/src/plugin/ScalarVisuallyServer.cpp that use them;
--     Graphs/Files: what they report; Graphs/Lookup: what a lookup says of the manager's
--     tables; Graphs/Polls: a client that asks for new tags repeatedly; Graphs/Virtual:
--     Scalar/server/src/FileManager/VirtualFile.h and VirtualFile.cpp, the graph operations
--     that ask a file by a virtual call, AddVirtualFile and DelVirtualFile;
--     Graphs/Virtual/Views: what a virtual file answers; Graphs/Virtual/Order: the order of
--     the answer, and the deletion of a virtual file.
--   Request: the operations of Scalar/server/src/GraphLine/LineOp, and BuildLineOP,
--     GetLineOps and the order of operations of
--     Scalar/server/src/plugin/Handler/ScalarVisuallyGetScalarDataHandler.cpp; Request/Lines:
--     the lookup of the operations; Request/Normal: the normal line from the server's files
--     to its points.
--   Parser/Frame: ReadRecord of the parsers in Scalar/server/src/parser/TFEventParser.cpp and
--     SummaryParser.cpp, and ReadCheckSumRecord; Parser/Cache: UpdateData and
--     UpdateDataToGraph of Scalar/server/src/parser/FileParser.cpp; Parser/Loop: its
--     ParserData; Parser/Resume: ParserData on whole records with an unfinished one behind
--     them; Parser/Events: ParseRecordToScalar of the three parsers, and ReadRecord of
--     LogTextParser.cpp.
--   Pool: the thread pool of Scalar/server/src/Util/ThreadPoolUtil.h as a relation of the
--     steps that its threads take under the lock of the queue.
--   Progress: parseWatcher and GetProjectParseStatus of
--     Scalar/server/src/plugin/ScalarVisuallyServer.cpp.
--   Http: the registration of plugins of plugin_core/src/PluginsManager.cpp, and the routes
--     and the handling of requests of tools/httpServer/HttpServer.cpp; Http/Bodies: bodies
--     that arrive in pieces.
--   Pipeline: a log as the list of entries that its records hold; Pipeline/Deliver and
--     Pipeline/Parse: the way of the entries through the cache to the file; Pipeline/Answer
--     and Pipeline/Begin: from the import to the answer of a request; Pipeline/Follow and
--     Pipeline/Grow: a log that grows while the watcher follows it.
--   System: the calls that parsers, the watcher and requests make on the server, one after
--     the other, and its invariant; System/Tables, System/Files, System/Changes and
--     System/Merges: what each step keeps; System/Parses: a pass of a parser as such calls;
--     System/Updates: what OnFileDataUpdate does; System/Reach: what holds in every state
--     that is reached.
--   Util: ByteNum, IsUtf8String and GetFileHierarchy of Scalar/server/src/Util/FileUtil.h;
--     Util/Utf8: what IsUtf8String accepts.
--   Json: the tests and getters of the JSON library that the handlers call, as an interface,
--     and the conditions that the handlers build of them.
--   Json/Writer: AddJsonMember, SetResponseError and GetBasicResponse of
--     Scalar/server/src/Util/ScalaryProtocolUtil.h, over the part of the JSON library that
--     makes and writes values, as an interface; Json/Answers: what is read back of them.
--   Handler: ParseRequestFromJson of the handlers in Scalar/server/src/plugin/Handler;
--     Handler/ScalarData and Handler/Response: ScalarVisuallyGetScalarDataHandler.cpp, with
--     LineOpFactory.h and the smoothers' parameters; Handler/FileMerge with Known:
--     ScalarVisuallyFileMergeHandler.cpp; Handler/TokenSet: ScalarVisuallyTokenSet.cpp;
--     Handler/ImportFile: run and the request of ScalarVisuallyImportFileHandler.cpp, and
--     ScalarVisuallyGetParseState.cpp; Handler/Answer: the answers of
--     ScalarVisuallyGetAllGraphHandler.cpp, ScalarVisuallyGetIncrementalTag.cpp,
--     ScalarVisuallyQueryCreatedFile.cpp and ScalarVisuallyGetParseState.cpp, and SetResponse
--     of a merge and an import; Handler/Answer/Read, Served, States and Replies: what a
--     client reads of their texts.
--   Import: GetImportFiles and RecursiveScanFolder of
--     Scalar/server/src/plugin/Handler/ScalarVisuallyImportFileHandler.cpp; Import/Scan: the
--     scan level by level.
--   Plugin: AddFile, OnFileDataUpdate, AddParseTask and Reset of
--     Scalar/server/src/plugin/ScalarVisuallyServer.cpp, the reactions to events in
--     Scalar/server/src/FileManager/FileWatcherLinuxImpl.cpp, and CreateFileParse;
--     Plugin/Update: what they do to a well-formed server.
--   Watcher: the tables and the event loop of
--     Scalar/server/src/FileManager/FileWatcherLinuxImpl.cpp; Watcher/Tables: their
--     invariant; Watcher/Reset: Reset, DelWatchPath and the events.
--   Tests: the theorems at concrete values.
--
-- How the code is modelled. Names are the source's in lower case. A member function takes the
-- object's state as its last argument and gives the new state; an exception, or an access
-- outside a container, is none. A step is the 64 bits of an int64_t, and the arithmetic of
-- uint32_t and uint64_t wraps around. An iterator into a vector is a position; a shared_ptr to
-- a file is a number into a heap. The floating-point types are a record of operations
-- (Base/Floats) of which nothing is assumed. std::sort is an insertion sort, which fixes the
-- order of equal views. Regular expressions, file names and paths of the standard library, the
-- file system, inotify, the JSON library, the generated message classes, the readiness of
-- futures and the quotient that parseWatcher computes are parameters. What is assumed of the
-- JSON library is that a getter succeeds where its test did, that an object keeps its members
-- in order and finds the first of a name, and that the text of a value without floating-point
-- numbers is parsed to that value (Writer of Json/Writer), and of inotify that a watched
-- directory has one descriptor, which every path to it gets (Documented of Watcher/Tables).
--
-- Bounds and fuel. The loop of GatherElement runs on one unit of fuel more than its counter
-- holds, which is enough because the counter falls by the step, at least 1, in every round. The
-- loop of ParserData runs on one unit more than the file has bytes, which is enough because
-- each record that is read leaves less of the file. The scan of a folder is given more fuel
-- than there are directories at most 7 levels deep. Theorems about the smoothers ask for fewer
-- than 2 ^ 32 points, the range of numAccum_, and those about views for vectors shorter than 2
-- ^ 63.
--
-- What is not modelled. Locks and threads other than those of the thread pool: each operation
-- runs to its end before the next, also where the source locks several times or, as in
-- AddVirtualFile, not at all. When a task of the pool starts behind the lock. Logging. The
-- calendar conversions of ScalarPoint. SetResponse of the data request and of the token
-- parameters, whose numbers the library rounds, and the texts of their error messages.
-- BeforeParse of the text parser, the tests of OpenFileSafe, and the exceptions of the file
-- system and of std::stoll. The start and the end of the watcher's thread. The loading of
-- plugins, and the web server behind the routes. The generated protobuf code, uSockets, the
-- front end and the Rust programs.
pub mod Base
pub mod Concept
pub mod Line
pub mod Smoother
pub mod File
pub mod Manager
pub mod Graphs
pub mod Request
pub mod Parser
pub mod Json
pub mod Handler
pub mod Import
pub mod Plugin
pub mod Watcher
pub mod Pipeline
pub mod System
pub mod Progress
pub mod Pool
pub mod Http
pub mod Util
pub mod Tests
