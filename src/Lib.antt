-- ===== src/Lib.antt =====
-- A model of the operating system kernel of this repository: its memory manager, and its threads
-- with the scheduler, the sleeping threads, the semaphores and the system calls on them, the trap, the
-- console, the interfaces for programs, and the printing of numbers.
--
-- Memory.antt models struct MSH of h/memoryManager.hpp and src/memoryManager.cpp: the memory is a
-- function from addresses to headers, a pointer is an address, null is 0, and each method is a
-- function of the store (`merge`, `reduce`, `insert_after`, `insert_as_head`, `remove`,
-- `find_by_pointer`, `find_by_size`), with the head that it changes passed in and out.
-- Memory/Manager.antt models class MemoryManager: `init`, `mem_alloc` (memAlloc_), `mem_free`
-- (memFree_) and `mem_alloc_byte`, with an `Owner` for the list that the caller passes. Sums and
-- differences of addresses and sizes wrap around at 2 ^ 64. The abstract view, in
-- Memory/Manager/Layout.antt, is a list of tiles that cover the heap; Memory/Manager/State.antt says
-- when a manager stands for a layout. The other files under Memory/ hold the lemmas on linked lists.
--
-- Threads.antt models the fields of TCB and kSemaphore that the kernel's lists and calls use, the
-- class Scheduler, and TCB::yield of src/tcb.cpp; Threads/Blocking.antt the lists of kSemaphore and
-- of Sleep (src/kSemaphore.cpp, src/sleep.cpp); Threads/Sync.antt Sleep::sleep and Sleep::onTick,
-- the operations of kSemaphore and the timer's interrupt; Threads/Calls.antt TCB::finish and the
-- handlers of src/kernel.cpp. A call that may switch to another thread returns an `Outcome`: what
-- runs behind the switch runs when the thread is resumed, and returns what `resolve_manner` says.
-- The handlers cast a status to int and back, which keeps 0, 1 and the small negative codes.
--
-- Threads/Chains.antt, Threads/Ready.antt, Threads/Waiting.antt and Threads/Tokens.antt view the
-- ready queue and the queue of a semaphore as lists; Threads/Frames.antt says what each operation
-- leaves alone. Threads/Switch.antt is about TCB::yield, Threads/Blocks.antt and Threads/Wait.antt
-- about kSemaphore::put and kSemaphore::wait, Threads/Signal.antt about kSemaphore::signal, and
-- Threads/Wakeup.antt about kSemaphore::signalAll and kSemaphore::close.
--
-- Threads/Counts.antt models the counts of kSemaphore. Threads/Sleeping.antt views the list of
-- sleeping threads as a list of sleepers, Threads/Sleeping/Remaining.antt says what it means for
-- the time that is left to each thread; Threads/Sleeping/Behind.antt, Threads/Sleeping/Marks.antt
-- and Threads/Sleeping/Insert.antt are about Sleep::put, Threads/Sleeping/Wake.antt about
-- Sleep::get, Threads/Sleeping/Rounds.antt and Threads/Sleeping/Ticks.antt about Sleep::onTick, and
-- Threads/Sleeping/Waking.antt about both over time. Threads/Open.antt is about semaphores at which
-- nobody waits.
--
-- Threads/Removal.antt is about taking a given thread out of the middle of a list, with
-- Threads/Removal/Waiters.antt on kSemaphore::get and Threads/Removal/Sleepers.antt on Sleep::get.
-- Threads/Sound.antt puts all the lists together: its `View` holds the ready queue, the sleeping
-- threads and the queue of each semaphore, and `Linked` says that the kernel keeps these lists and
-- that each thread stands where its marks say. The files under Threads/Sound/ follow the operations:
-- Ready, Switch, Blocks, Sleep, Unblock and Wake the lists, Inert the writes to other fields, Wait,
-- Timed, Release, Signal, Pay, Ticks and Timer the calls and the clock, Names, Kept and Owners the
-- semaphores that each thread owns, Finish and Exit TCB::finish, Birth, Joining, Creation and
-- Admission TCB::threadCreate and TCB's constructor, Opening kSemaphore::kSemaphoreCreate. `Step` in
-- Threads/Sound/Steps.antt is one call of the running thread, thread_create, sem_open and thread_exit
-- among them, or one tick, `Steps` any number of them, and Threads/Sound/Lawful.antt says what holds
-- after them. The idle thread's function, Scheduler::spin, is empty: TCB::threadWrapper ends it on its
-- first run, so in `Step` it exits and makes no call that blocks. thread_create and sem_open are steps
-- where they get the memory that they ask for; that the addresses given to new objects are in no use is
-- a condition of those steps. timed_join_all, send, receive, the calls of the console, and a creation that
-- fails are not among the steps.
--
-- System.antt puts the memory manager, the threads, the console buffers and the registers into one
-- state. Code that a switch can interrupt is a `Program`: `exec` runs it to its end or to the next
-- switch, and what is left of it then is a program again, which runs when the thread is resumed.
-- Registers.antt models the accessors of h/kernel.hpp. System/Create.antt models the creation and
-- deletion of threads and semaphores, with the operators new and delete on the memory manager;
-- System/Console.antt class CharBuffer and IO::init, with System/Console/Window.antt on the ring
-- and System/Console/Exchange.antt on kPut and kGet; System/Routines.antt one round of the routines
-- of src/io.cpp, and TCB::threadWrapper; System/Handlers.antt the handlers of src/kernel.cpp that need more than the
-- threads, setMsg, and the table `irr`, with System/Messages.antt on send and receive;
-- System/Trap.antt Kernel::handleSupervisorTrap, Kernel::init, Scheduler::init and the start and
-- end of main. Api.antt models src/syscall_c.c and the classes of h/syscall_cpp.hpp, each call as
-- the program that puts its arguments into registers and traps; Api/Calls.antt follows the calls on
-- memory from the interface to the manager and back. The sizes of the objects, the addresses of
-- functions, and what the console registers and the interrupt controller hold are parameters. A
-- character is a number below 256, and a string the list of its characters.
--
-- Memory/Manager/Usage.antt models util/memoryManagerUtils.hpp.
--
-- Printing.antt models util/mPrint.cpp, util/mPrintUtils.hpp and util/arithmetics.hpp: what is printed
-- is the list of the characters that putc is called with. Printing/Decimal.antt and
-- Printing/Fixed.antt are about numbers in base 10 and about decimal places.
--
-- Loops run on fuel. In the memory manager it is the number of blocks of the heap and one more: each
-- segment takes a block at least, so no list is longer. For threads it is `threads`, the number of
-- thread control blocks, and one or two more: no list holds a thread twice. A printed `uint` has 32
-- digits at most, and ten in base 10; a `uint64` has twenty.
--
-- Not modelled: the context switch, the trap entry, popSppSpie and the locks around the printing
-- functions (assembly, or code that runs on saved registers), the libraries lib/, the testers under
-- kerneltest/ (switched off by their macros) and the test programs. A pointer to a function is an
-- address, and the code behind it is not run.
pub mod Prelude
pub mod Memory
pub mod Printing
pub mod Registers
pub mod Threads
pub mod System
pub mod Api
