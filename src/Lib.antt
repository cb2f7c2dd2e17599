-- ===== src/Lib.antt =====
-- The parts of TOR-ONION's C++ and C that keep state and take decisions, and what makes them correct. The
-- repository gathers parts of a browser (graphics, networking, storage, start-up) that do not call
-- each other: each meets the outside by the calls of an embedder, a driver or a user. So each part is
-- a module of its own, on the helpers of Common.
--
-- Common: Boolean tests and machine words on the native numbers, lists, and the monad of a call
--   that may abort or fail.
-- Fence: app/graphics/vv_helper.cpp, VulkanFenceHelper. `Helper` is the object's state. Each
--   operation has the name of the C++ method in lower case; the driver's answers to the calls of one
--   operation are its argument `Driver`, and what it destroys, frees or runs is appended to `log`.
--   `none` is a CHECK that fails. Fence/Steps has the calls as data and the changes that each one is
--   made of, Fence/History their sequences.
-- AutoReloader: muim/error_loader.cpp, NetErrorAutoReloader. `Reloader` is the object's state with
--   the tab's visibility; one function for each observer's method, one for the timer's firing and one
--   for the throttle. AutoReloader/Invariant has the events as data and the states they reach.
-- MountPoints: z-box/handler-store/external_m.cpp and points.cpp, ExternalMountPoints. `MountPoints`
--   is its two maps (MountPoints/SortedMap is std::map); each method is one step, under the lock that
--   it holds. MountPoints/Paths has base::FilePath, which the repository does not hold, as the record
--   `PathOps` of its operations and of the documented behaviour that the proofs use.
-- Glyph: app/graphics/glyph/main_gr.cpp, SkGlyph, its digest and its position rounding. `Glyph` is
--   the object's state; Glyph/Buffers has what is flattened and read back, Glyph/Intercepts the gaps
--   of an outline and the list that keeps them, Glyph/Digest the decisions how to draw. Skia's buffers
--   and the arithmetic of scalars are the records `Skia` and `Scalars`.
-- HostResolver: muim/screen/host_resolver.cpp. `Host` is the variant of the two ways to name a host;
--   HostResolver/Creation has the resolvers as layers over a manager, HostResolver/Answers what is
--   made of errors and results, HostResolver/Names the host names and the options by name.
-- BucketHost: muim/bucket/host.cpp. `BucketHost` is the object's state with the callbacks that wait for
--   the quota manager and the answers given; BucketHost/Events has calls and replies as events.
-- SimplePrime: simple_prime.cpp, isprime. An int is a number with a sign; an overflow is an outcome.
-- VulkanUtil: app/gpu/vulkan_util.cpp, the image layouts of GL and Vulkan; VulkanUtil/Compatibility is
--   CheckVulkanCompatibilities, with the base library, RE2 and the headers' numbers as an argument.
-- AlertSocket: networking/lib/alertsock.c, the descriptors by which one thread wakes another.
--   AlertSocket/Descriptors is the process's table; AlertSocket/Channel has what is written and read,
--   on a channel of which the model says how much it holds and which calls a signal interrupts.
-- TorVersion: networking/lib/version.c. `Version` is tor_version_t; TorVersion/Protover is the map that
--   remembers what a list of subprotocols supports. tor_version_parse is a parameter.
-- TorMain: app/startup/main.c. TorMain/Hup is the reload, TorMain/Signals the table of signals and what
--   each does, TorMain/Lockfile the lock on the data directory, TorMain/Commands the commands that print
--   or make keys, TorMain/Run the path from tor_run_main to its result.
-- Inet: networking/add.c. Inet/Quad has the addresses of 32 bits; Inet/Pton is tor_inet_pton for an
--   address of 128 bits, a function from the text's bytes to an outcome, with what would leave the array
--   or fail an assertion as the outcome `fault`; Inet/Ntop is tor_inet_ntop for one, Inet/Family both for
--   every family. tor_sscanf, tor_snprintf and smartlist_split_string are their arguments.
--
-- Bounds. 64-bit counters wrap where the code increments them (`u64`). Fence's invariant asks that the
-- next generation does not wrap within a history, which takes 2^64 fences. Most loops are recursions on
-- the list that they consume and need no fuel. On fuel run: the loop of isprime, whose fuel is its
-- number, since i grows by 6 at each turn and the loop ends once i * i passes the number; AlertSocket's
-- loop that drains a channel, whose fuel is one more than what is pending, since each read takes
-- something; and the loop of Inet/Pton over the words of an address, whose fuel is one more than the
-- text's length, since each turn takes a character; the two loops of Inet/Ntop, whose fuel is the number
-- of words, since each turn takes a word.
--
-- Not modelled: code in other languages than C++ and C, tests (muim/screen/canvas_platfrom.cpp), thread
-- and JNI glue (app/startup/start_ex.cpp, app/gpu/service.cpp and thread.cpp, networking/android),
-- networking/entry.c, networking/cryp, of app/gpu/vulkan_util.cpp the calls that submit to the driver or ask
-- it, of app/startup/main.c the sandbox's list of files and the statistics that are logged, and of
-- networking/lib/version.c the reading of a version. DCHECKs, which change nothing in a release build,
-- are hypotheses where a proof needs what they say.
pub mod AlertSocket
pub mod AutoReloader
pub mod BucketHost
pub mod Common
pub mod Fence
pub mod Glyph
pub mod HostResolver
pub mod Inet
pub mod MountPoints
pub mod SimplePrime
pub mod TorMain
pub mod TorVersion
pub mod VulkanUtil
