-- ===== src/Lib.antt =====
-- A model of the programs of this repository that change or extend the Linux kernel, with theorems
-- about them. Paths are from the repository's root.
--
-- The parts:
--
-- Wrr: the weighted round-robin scheduling class, "project_Android Kernel Scheduler/scheduler/
--   sched/wrr.c". Wrr.antt has its handlers under their C names (enqueue_task_wrr, task_tick_wrr and so
--   on), as functions from a run queue to a run queue. Wrr/Queue is about the list, Wrr/Invariant and
--   Wrr/Steps about the bookkeeping over all sequences of calls, Wrr/Rotation and Wrr/Turns about the
--   round robin itself, Wrr/Slices about time slices and accounting.
-- Core: what the scheduler core of the same folder, sched/core.c, does with priorities, with
--   the class interface and with changes of the policy. Core/Classes has struct sched_class as a record
--   of operations, which Wrr fills and in which the other classes are parameters, and Core/Picking
--   is about pick_next_task over the classes; Core/Prio has
--   nice values, priorities and load weights; Core/Setscheduler has the system calls
--   sched_setscheduler and sched_setparam down to __sched_setscheduler, with Checks and Errors on what is
--   refused and ToWrr on a change to SCHED_WRR; Core/Fork has sched_fork and rt_mutex_setprio. Core/Bandwidth
--   has the shares of the real-time class that task groups set (tg_set_rt_bandwidth and its callers),
--   with the tree of groups as two data types: Schedulable is about what the walk over it accepts,
--   Storing about what is stored, Shares about the sums, Setting about what is read back, Sysctl about
--   the global limits. Core/Completion has the completions and __wake_up_common: Steps has the calls as
--   a step relation, Waking is about the wake-ups, Tokens about any sequence of calls. Core/Running
--   has try_to_wake_up, the tick and one round of __schedule: Waking and Sleeping are about a wrr task
--   that wakes up or goes to sleep, Leaving about the run queue that it leaves, Placed about any
--   sequence of both. Core/Load has the load averages: Folding is about the count of active tasks,
--   Average about the bounds of the system's averages, Moving about the processor's. Core/Nice has
--   set_user_nice and the system call nice, and Nice/Wrr is about a task of the wrr class.
-- Rt: the real-time class, sched/rt.c of the same folder, whose handlers wrr.c follows. Rt/Structs has
--   the structs: an rt_rq for each task group, and entities that lead from a task over the groups' entities
--   up to the root. Rt.antt has the priority arrays and the ways in and out of them, Rt/Runtime the
--   accounting, the throttling and the period timer, Rt/Methods the handlers of rt_sched_class. Array,
--   Linking and Changes are about one array; Invariant is the bookkeeping of the whole hierarchy;
--   Leaving, Entering, Paths, Queueing, Groups and Hierarchy are about enqueue_rt_entity and
--   dequeue_rt_entity; Agreement, Accounting, Requeueing, Replacing, Handlers and Steps about all calls;
--   Picking about the choice of a task; Frames, Throttling, Returning and Period about groups that
--   are throttled; Ticks, Mates and Robin about SCHED_RR.
-- Romfs: the file system of "project_File system/src/super.c" with its parameters hided_file_name,
--   encrypted_file_name and exec_file_name. Romfs/Page has romfs_readpage, Romfs/Dir has
--   romfs_readdir and romfs_lookup, Romfs/Inode has romfs_iget, Romfs/Super has the mount and the
--   module.
-- Mtest, Maptest: /proc/mtest and /proc/maptest, "project_memory space/mtest/mtest.c" and
--   "project_memory space/maptest/maptest.c": a byte of any process, read and written by commands
--   (Mtest/Commands has the words of a command, Mtest/Access what they do, Mtest/Reading what is read
--   back), and a page that a process maps.
-- Dispatch: the counter `ctx` that "project_Process Scheduler/src" adds to the kernel's core.c, fork.c,
--   base.c and sched.h: __schedule, copy_process and proc_pid_ctx, with run queues for any number of
--   processors. Dispatch/Counting is about one call, Dispatch/Balance about any sequence of events,
--   Dispatch/Printing about the text.
-- Watch: /proc/watch, "project_Benchmark/src/watch.c": the pages and the times of a process, the text
--   made of them, and its reads.
--
-- Sched.antt has the data that Wrr and Core share: Task for struct task_struct, Rq for struct rq,
-- WrrRq for struct wrr_rq, with the fields that the modelled functions read or write. Tasks are
-- numbers, and a run queue holds the tasks as a function of the number; a list of the kernel is a
-- List of numbers. Prelude has shared tests, lists, machine words and error numbers.
--
-- How C is read: the scheduler is the one of a 32-bit ARM with one processor, so `unsigned int` and
-- `unsigned long` wrap at 2^32 and u64 at 2^64, and the wrap is written out wherever the code adds or
-- subtracts; Romfs, Watch, Mtest, Maptest
-- and Dispatch are read for a 64-bit machine. An error number is a negative ℤ. A fault
-- of the kernel is a constructor of its own (`none`, `oops`, `crash`, `fault`), never a value.
--
-- Parameters: the paths of the control groups, the clock, HZ; the classes other than wrr, capabilities,
-- rlimits and the security hooks; romfs's storage functions (storage.c is not in the repository),
-- the inode cache, memory allocation; page tables, pids, kstrtoul, remap_pfn_range, seq_printf and
-- copies to the user; schedule_timeout and pending signals; proc_dointvec;
-- sched_find_first_bit. What a theorem needs of one is a hypothesis of that theorem.
--
-- Loops: those over lists and words are structural. The retry loop of __sched_setscheduler runs over the
-- list of the states that other processors leave, and one state is enough if none interferes. The loops
-- of romfs over entries and hard links have no bound in C; they run on fuel, `none` is a loop that
-- goes on, and the theorems give a fuel that is enough: one more than the entries or links of the
-- chain. The digits of a 64-bit number need 20 rounds. The walk over the groups and __wake_up_common
-- are structural. The way from an entity to the root runs on fuel, and so does the way down from the
-- root's rt_rq to a task: a tree of `levels` levels is what their theorems ask for. sched_rt_period_timer
-- runs over the list of the overruns that hrtimer_forward returns. A wait for a
-- completion has no bound in C: it is cut where it sleeps, and its parts are steps. The loop of
-- __schedule is cut at its test of need_resched.
--
-- Not modelled: the rest of core.c (load balancing, domains, hotplug, the other system calls), which
-- is the kernel's own; in rt.c the parts for several processors, the allocation of a group's arrays
-- and the debugging output; the rest of the four files of
-- "project_Process Scheduler", which are copies of the kernel's; locks, messages, the benchmarks and test
-- programs, which are user programs, and the plots.
pub mod Prelude
pub mod Sched
pub mod Wrr
pub mod Core
pub mod Romfs
pub mod Watch
pub mod Mtest
pub mod Maptest
pub mod Dispatch
pub mod Rt
