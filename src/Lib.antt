-- ===== src/Lib.antt =====
-- AimRTe, a C++ framework for robot programs on top of AimRT: a model of its own logic and proofs
-- about it. Paths are from the root of the repository.
--
-- Config: the processor that makes the configuration of a process (src/module/cfg_processor.{h,cpp}
-- and src/module/cfg/utils.cpp). It merges a user's file into the configuration that the program
-- defines and then applies patch files, whose YAML tags say what happens to each list element.
--   Config/Yaml         the YAML library as an interface; Yaml/Tree is a document that meets it
--   Config/Modes        PatchMode, AnalyzePatchMode, HasExplicitOverridePatchMode, ExtractCustomTag
--   Config/Merge/Map    cfg::details::MergeMapNode with its stack, and IsUndefined
--   Config/Items        PatchListNode, MergeListNode, PushFront, CompareAndReplaceNode
--   Config/Sections     Merge...Node and Patch...Node of every section, the functions with sub lists,
--                       and MergeCustomNodes
--   Config/Dump         DumpFile: the order of merging, defaults and patch files
--   Config/Deployment   GetModuleDeploymentInfo and GetNetworkPluginOptions (src/module/cfg.cpp), with
--                       the options of src/module/cfg/plugin.h
--   Config/ModuleNode   GetModuleConfigYaml and GetMutableModuleConfigYaml (src/module/cfg.cpp)
-- Module: what a module declares (src/module/module_cfg.{h,cpp}), in Module/Declare, and how the
-- processor collects it from all modules (AddModuleConfig and the first part of MakeYamlFromCfg in
-- src/module/cfg_processor.cpp), in Module/Collect.
-- Utils/Text: SplitTrim (src/utils/string.cpp), which takes a tag apart. Utils/OrderedMap is std::map
-- with texts as keys, in the order of Utils/TextOrder.
-- Sync: the objects of src/sync: the coroutine mutex with its queue of awaiters (Sync/Mutex),
-- SpinMutex, Condition, ConditionVariable, Barrier and AtomData. A step is one access of an atomic
-- variable, or what runs under one lock; any number of threads take steps in any order. Barrier uses
-- Condition; ConditionVariable uses the awaiters' links of the mutex.
-- Topic: TopicHzCalculator (src/common/topic_hz_calculator.{h,cc}), which keeps a sliding window of
-- the intervals between the messages of each topic and makes statistics of it.
-- Trace: the events that a program publishes (src/trace): Trace/Kinds has the constructors and members
-- of Event, LongEvent, Gauge, Counter and Boolean.
-- Monitor: the monitor plugin (plugin/monitor/core), which counts the messages of its topics with two
-- calculators of Topic.
-- Database: databases with encryption (src/database).
--   Database/Wrap       the wrap file: WrapBlob, SecureFileWriter, write_wrap, read_wrap
--   Database/Device     the texts that identify the machine, make_devid, make_shift_salt
--   Database/MasterKey  hkdf_devk, aes_gcm_encrypt, aes_gcm_decrypt, encrypt_mk, decrypt_mk
--   Database/Encrypted  encrypt_db, decrypt_db
--   Database/Sql        SecureDatabase: its statements, values and results
-- Base: what all modules share. The modules called Examples hold runs at fixed inputs.
--
-- A panic, a failed assert and an exception of the YAML library end a run with a value of Failure
-- (Base/Outcome); asserts are taken as compiled in. Texts are lists of codes where the code looks
-- inside them, and strings elsewhere. MergeMapNode's loop runs on fuel, one more than the nodes that
-- the external document has, and is proved to end within it; the loop of Unlock runs on fuel, with a
-- round for each awaiter.
--
-- A file that is written is a list of bytes, and the answers of the kernel to the writes are an
-- argument; so are the clock, random bytes, and whether the calls of SQLite and of the file system
-- succeed. Integers in a database are bit patterns. A dump has the injection of the defaults and the
-- reading of a file as arguments.
--
-- What is assumed: the operations of YAML::Node behave as the interface Yaml states (keys are texts;
-- a node is a finite tree). A node that is adopted is shared with the document it comes from, which
-- matters for the user's patches alone, as their document is read again at the end: what they have
-- become by then is an argument of a dump. OpenSSL and SQLCipher are interfaces: what AES-GCM has
-- sealed is unsealed with the same key, vector and tag; a database that was made or exported under a
-- key is verified under it, an exported one under no other, and is not readable without a key.
-- std::set is an argument of the monitor, since the comparison that it is given is no order. What a
-- resumed coroutine does to the awaiters of a ConditionVariable is an argument.
-- Doubles are an interface without laws. Memory order is sequential consistency; weak
-- compare-exchange may fail. A thread that waits in the mutex has one awaiter.
--
-- Not modelled: the defaults that the processor injects and the reflection of the configuration
-- object; the reading and writing of configuration files; the lock and the connection of the database
-- manager; what SQLite does with a statement; the framework AimRT and other third-party code;
-- generated code; the coroutine scheduler.
pub mod Base
pub mod Utils
pub mod Config
pub mod Sync
pub mod Topic
pub mod Module
pub mod Trace
pub mod Monitor
pub mod Database
