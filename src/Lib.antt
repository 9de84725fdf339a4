-- ===== src/Lib.antt =====
-- The verification library of the programs of this repository.
--
-- Project4 is a multi-threaded network file server. `FileServer` models it:
-- - FileServer/Params: the constants of Project4/fs_param.h and fs_server.h.
-- - FileServer/Layout: `fs_inode` and `fs_direntry` (Project4/fs_server.h) and their images in a
--   block of 512 bytes. FileServer/Layout/RoundTrip and Layout/Exact relate the two.
-- - FileServer/Text: `path_parser` and `check_request_type` (Project4/file_server.cpp), `find_space`
--   and `isblock` (Project4/utils.cpp). A string is the list of its bytes. Its loops run on fuel: the
--   length of the text, of which every round consumes a byte.
-- - FileServer/State: the disk, the queue of free blocks and the log of lock calls as one request
--   handler sees them, and the handler monad: a handler goes on, returns early, or dies by an
--   exception. State/Logic has the rules for what a handler ensures, State/Locks what a log of lock
--   calls means.
-- - FileServer/Directory: `check_existance` and `traverse_dir`.
-- - FileServer/Common, FileServer/Handlers: what the handlers share, and `handle_create`,
--   `handle_delete`, `handle_readblock`, `handle_writeblock`; `serve_request` is any one of them.
-- - FileServer/Requests: `handle_requests`, the whole of one connection.
-- - FileServer/Responses: `send_response` (Project4/utils.cpp), with the results of `send`.
-- - FileServer/Init: `init_free_blocks`. Its search runs on fuel, since it has no end on a disk with a
--   cycle of directories; one round more than the tree has directory blocks is enough.
-- - FileServer/Examples: a small disk, and the theorems at it.
--
-- Project2 is a user-level thread library for one CPU. `Threads` models it:
-- - Threads/State: the scheduler's state and `swap_helper` (Project2/thread_lib.cpp), with the queues of
--   all objects in one store. Where a saved context goes on is a point; `resume` is the code behind it.
--   `switch` is structural in the ready queue, since no code that it runs makes a thread ready.
-- - Threads/Calls: the calls of mutex.cpp, cv.cpp and thread_lib.cpp.
-- - Threads/Runs: the runs from `cpu::cpu` on, as a relation: each step is one call of the running
--   thread. Threads/Places and Threads/Invariant carry the invariant, Threads/Located what it says of a run,
--   Threads/Exclusion is about a mutex that is held, Threads/Waking about the
--   order of those that wait, Threads/Examples has a run.
-- - Threads/Programs: programs that call the library; Threads/Programs/Sequences has the test programs
--   Project2/test16.cpp, test17.cpp and test20.cpp.
-- A TCB is destroyed when its last shared pointer goes. In the model that is where `previous_thread`, or
-- at the end `running_thread`, lets it go.
--
-- Project1 is a disk scheduler, a client of such a library. `DiskScheduler` models the critical sections
-- of its server and its requesters (Project1/scheduler.cpp) as steps on the state that its mutex guards;
-- DiskScheduler/Nearest is about the choice of the next request, DiskScheduler/Full about the limit.
-- DiskScheduler/Requesters has the threads, which take turns from one `mutex1.unlock()` to the next, and the
-- reading of a request file. DiskScheduler/Turns is their invariant, kept by Serving and
-- Requesting, and Live what follows for any order of the turns. That a waiting thread is woken up is
-- left to the thread library: in the model a thread that can go on may go on.
--
-- Project3 is an external pager. `Pager` models it:
-- - Pager/Files: `file_id` and its order (Project3/my_utils.h), the key of the maps.
-- - Pager/Memory: the state but for the processes, and `get_free_physical_page` (Project3/my_utils.cpp),
--   the clock. Its loop runs on fuel: one round more than the queue of the clock is long is enough.
-- - Pager/Faults: `set_physical_page`, `set_peer`, and `vm_fault` from the virtual page on.
-- - Pager/Processes: the calls of Project3/my_vm_pager.cpp. A `virtual_page*` and a page table are
--   numbers, with a store; the loop on a file's name runs on fuel, a round for each
--   byte of the valid zone and one more.
-- - Pager/Sound is the invariant of the memory, and the data of a block. Its children carry it through the
--   clock (Sound/Evict, Sound/Search), through a fault (Sound/Install, Sound/Load, Sound/Marks,
--   Sound/Fault), through vm_init (Sound/Start), a new page (Sound/Mapping) and one that goes
--   (Sound/Release). Pager/Clock says which page the clock takes.
-- - Pager/Pool adds the free swap blocks, Pager/Valid the process tables; Valid/Create, Valid/Fault,
--   Valid/Destroy, Valid/Grow, Valid/Map and Valid/Names are about the calls. Pager/Runs has the runs of the
--   calls that Project3/vm_pager.h allows, and of the stores of processes (Pager/Stores): a new process gets a number
--   that has no table and is not that of the last switch, vm_switch is for one that has a table, and the rest is
--   for the process of the last switch while it has not been destroyed. Pager/Reused is about a number that is used
--   again, Pager/Scenes has a run.
-- `file_read` and `file_write` are not in the repository: a file answers by the history of its accesses,
-- and `Files` is what Project3/vm_pager.h promises of it, with different names for different files: names that
-- lead to one file, as "f" and "./f" do, are left out. A result `none` stands for undefined behaviour: a null
-- pointer, `front` of an empty queue, a page of a table behind the last one. Arrays that are indexed by a
-- physical page or by an entry's number are total functions. Addresses of physical memory are computed in 32 bits,
-- as in the source, and wrap for physical pages from 65536 on; the invariant is for no more pages than that.
--
-- The calls `disk_readblock` and `disk_writeblock` are not in the repository; they stand here with the
-- contract that Project4/fs_server.h gives them. The handlers are sequential: the log of lock calls is
-- what they contribute to an interleaving. What uninitialised locals hold and what lies behind a
-- string is a parameter (`Stack`). A read of a single element of an array out of its bounds, which a
-- damaged disk can cause, gives 0, a write out of bounds nothing, and a loop on a directory's or a file's blocks
-- ends with the array. A block number that the disk does not have, for which the calls assert, is taken for one
-- more block, by the lock calls too. Memory that cannot be allocated, the socket calls
-- and `main` are left out.
pub mod Base
pub mod FileServer
pub mod Threads
pub mod DiskScheduler
pub mod Pager
