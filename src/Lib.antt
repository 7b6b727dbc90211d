-- ===== src/Lib.antt =====
-- A verification library for the Rust parts of fuchsia-storage: the pseudo file system library
-- (src/lib/storage/vfs/rust/src), the buffers of block devices
-- (src/lib/storage/storage_device/src), the cache in front of a block device
-- (src/lib/storage/block_client/rust/src), and the client of a directory watcher
-- (src/lib/storage/fuchsia-vfs-watcher/src).
--
-- A client opens a connection to a directory, clones it, opens entries through it, reads the
-- directory in pieces, and renames and unlinks entries. The flags of each connection are checked on
-- the way. A directory is renamed into with a token that the token registry gave out for it; nodes
-- take their inodes from the inode registry. A device transfers data through buffers, which the
-- buddy allocator cuts out of one source of memory and takes back when they are dropped. A client
-- that reads and writes a block device as a stream goes through the cache, which keeps 32 blocks of
-- it in a VMO.
--
-- Shared: the names that the parts share; Shared.Dict is a hash map as an association list.
-- Vfs.Status, Vfs.Flags: statuses, results, and open flags as sets (one field for each flag that
--   the code names). Constants that are generated from fuchsia.io are the parameter FioConstants,
--   with what the interface documents of them as named laws.
-- Vfs.Common: src/lib/storage/vfs/rust/src/common.rs, the rights of a clone.
-- Vfs.Directory.Flags, Vfs.File.Flags: directory/common.rs and file/common.rs, the flags of opened
--   directories and files and of requests for a VMO. The debug assertion that no file is writable
--   and executable is not modelled.
-- Vfs.Directory.Entries, Vfs.Directory.Simple: directory/simple.rs with unlink of
--   directory/helper.rs. A method is a function of the state under the lock and returns the new
--   state and its result; events to watchers are a list; the entries are a list that is sorted by
--   name. Vfs.Directory.Simple.Reading is read_dirents for any sink; the index position, which the
--   code declares unreachable there, gives none.
-- Vfs.Filesystem: filesystem/simple.rs. A directory's memory address, by which the locks are
--   ordered, is a number, and the callbacks of a rename are functions on the other directory's
--   state. Vfs.Directory.Dirent is encode_dirent of directory/common.rs with the sink of
--   directory/read_dirents.rs, and Vfs.Directory.Indexed the reading by index of the same file.
-- Vfs.PathString: path.rs; a string is the list of its bytes, and the limits are parameters.
-- Vfs.Mutable: the handlers of Unlink, Rename and GetToken of directory/mutable/connection/io1.rs,
--   on a store of directories by address. Vfs.Service: the flags of service/common.rs.
-- Vfs.File.Connection: file/connection/io1.rs and util.rs. The trait File is a parameter, a file's
--   state is threaded through its calls, and the client is a list of events. Requests are in
--   Requests, what single ones do in Laws, and whole histories in History and ReadOnly.
-- Vfs.File.VmoFile: file/vmo/asynchronous.rs and file/vmo/connection/io1.rs, as a release build
--   runs them. The calls on the VMO are the parameter VmoCalls, and what the kernel documents of
--   them are SizeLaws and ByteLaws (Kernel). Requests are in Requests, how a connection begins and
--   ends in Open, the file with all its connections as a step relation in System. Valid, Rounds and
--   Opening prove what the steps keep (with Handlers and Ensured for single handlers), Ends and
--   Bytes what writes do, Counted and Contract state what the component promises.
-- Vfs.Watchers: directory/watchers.rs, watchers/event_producers.rs and watchers/watcher.rs. The
--   task of a watcher is its queue of commands; MAX_BUF and the numbers of the events are
--   parameters. Groups is how names fill buffers, Delivery a round over the watchers, Events a
--   whole event.
-- VfsWatcher: src/lib/storage/fuchsia-vfs-watcher/src/lib.rs, the client; VfsWatcher.EndToEnd joins
--   it to Vfs.Watchers.
-- Vfs.Scope: execution_scope.rs as a step relation on the running tasks and the waiters; each
--   operation is one critical section, and what is sent over a channel is recorded.
-- Vfs.Tree: tree_builder.rs, additions to the tree; Vfs.Tree.Paths is about what a path leads to
--   (Leaves: to a leaf), Vfs.Tree.Names about the names.
-- Vfs.Open: one step of open of directory/simple.rs; connections that it creates are its result.
-- Vfs.Registry.Inode, Vfs.Registry.Token: the two registries; kernel calls are the parameter
--   Kernel, and an event that the kernel creates is assumed to be new where a theorem needs it
--   (IsFresh).
-- StorageDevice.Allocator: buffer_allocator.rs, with round_down and round_up of buffer.rs
--   (StorageDevice.Rounding) and functions of the standard library (StorageDevice.Power). A failed
--   assertion, expect or index is the outcome panic.
-- StorageDevice.Slices: the references into a buffer of buffer.rs, over a memory of bytes.
-- BlockClient.Cache: cache.rs of the block client. The device is a parameter with laws
--   (DeviceLaws): what a call that succeeds does; one that fails may leave anything in the bytes
--   that it was to write. Where a theorem needs calls to succeed, it is for whole blocks of the
--   device within it, which the client and the server do not refuse (IsReliable). A VMO and a
--   device are functions from addresses to bytes (BlockClient.Memory), and the LinkedHashMap is the
--   list of its entries in order of use. Sound is the invariant and the bytes that the cache stands
--   for; Rooms, Get, Load and Pieces prove the steps (with Held and Dirty), Reads, Writes and Flush
--   the operations (with ReadParts, WriteParts and Clean for their parts), and Contract states what
--   they promise.
-- BlockClient.Fifo: lib.rs of the block client, the requests in flight as a step relation in which
--   the kernel chooses what the FIFO takes and which responses it has. Progress is about their
--   results, Waiting and Wakes about the wakers of their futures.
--
-- Bounds and fuel: the loop that fills the free lists has the size as its fuel, for each round
-- takes a block of at least one byte off the rest; the merge has the number of orders that are
-- left; the split is structural on the number of orders between the two. A walk over a path is a
-- relation. usize values are natural numbers: no sum of the allocator passes 2^64 for a source that
-- fits in memory. next_inode wraps at 2^64. The loops of read_at and write_at of the cache take the
-- buffer's length in blocks and one as their fuel; the offsets of a device fit 64 bits. The
-- position of a file connection wraps at 2^64; that of a VMO file's connection stays below 2^63,
-- and the count of its connections wraps at 2^64. The loop over the buffers of an event has a round
-- for each name and one as its fuel.
--
-- Not modelled: the FIDL plumbing of connections, futures and the executor that polls them, the
-- slab of a directory's watchers, the closures that make a VMO, devices' I/O, transfers through the
-- temporary VMO of the block client, the build of a tree into directories, filesystem management
-- and the C++ libraries.
pub mod Shared
pub mod StorageDevice
pub mod BlockClient
pub mod Vfs
pub mod VfsWatcher
