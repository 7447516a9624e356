-- ===== src/Lib.antt =====
-- The kernel scheduler and parts of the Java virtual machine of mjvmk.
--
-- The library under lib/src is a small kernel: threads with 64 priorities, monitors, semaphores and a
-- timer queue. The virtual machine under jvm/src runs Java bytecode on it.
--
-- Base: the shared helpers: C's comparisons, arrays as lists and functions, machine words, options.
-- Jlong: the struct jlong of jvm/src/elements/types.h and types.c, a Java long as two 32-bit words with
--   the wrap-around written out. A macro that assigns to its argument (jlongIncrement) is a function that
--   returns the new value (increment). A shift that C leaves undefined is none.
-- Ready: the lists of ready threads and their bit maps (priorityRows, priorityMatrix) of
--   lib/src/thread/schedule.c and schedule.h. A list stands for the circular list of
--   lib/src/types/linkedList.c, which LinkedList has with its pointers.
-- Sched: the scheduler of lib/src/thread. The state holds the global variables of schedule.c and
--   timer.c, and the threads, monitors and semaphores by number; set_thread, set_monitor and
--   set_semaphore write through a pointer. Timers is timer.c and the callbacks; Monitors, Threads and
--   Semaphores are the calls of schedule.c under the names of the source (monitor_enter is
--   monitorEnter); Machine has the tick interrupt (concludeTimeShare), all calls as one type and runs
--   of them. A critical region is one step, since it runs with interrupts off; none is the use of a null
--   pointer, the removal of an entry that is not on the list, or the interrupt of the thread at the head of a
--   monitor's asleep list, where interruptThread runs on with a list whose head is not moved on. A context
--   switch changes the current thread; what a thread does between calls is any sequence of calls. Inv and
--   Preserve have the invariant; Dispatch, Handoff, Queues, Counting and Interrupts have what the calls do.
-- ClassTable: the open hash table of jvm/src/class/table.c. getClassInTableGeneric searches twice, the
--   second time in a critical region; the model has the table at both times. The searches run on fuel
--   for one round of the table, since the loop stops where it comes back to its start. Probe and Full are about
--   the loop, Table and Keep about the calls.
-- Classes: class definitions in a store. Lookup has the searches of jvm/src/resolution/resolve/lookup.c and
--   TypeCheck the checks of jvm/src/class/typeCheck.c. The loops over superclasses run on fuel, one round for
--   each class of the line up to the one without a superclass; Nearest and StaticFields are about them.
-- Interpreter: the frame registers of jvm/src/execute/frameRegisters.h and the handlers of
--   jvm/src/execute/handlers without floating point, one function from frames to frames for each
--   instruction, without stack maps: a field is an object word and a primitive word, as in
--   jvm/src/elements/types.h. Stack and Quick are stackHandlers.c and MATH_QUICK, Arithmetic and
--   Conversions are arithmeticHandlers.c and conversionHandlers.c, Branches is branchHandlers.c, Locals is
--   localHandlers.c and wideHandlers.c; Code has the bytes of the method. Shuffles, Longs, Switches and
--   Variables have what the handlers do. The loop of LOOKUPSWITCH counts down the pairs that are left.
-- LinkedList: the circular doubly linked lists of lib/src/types/linkedList.c on a memory of pointers. Chain
--   says when the memory holds a ring of entries; Refines, Removes, Moves, Joins and Sorted are about the
--   functions. The loop of doubleListAddOneSorted runs on fuel: one round for each entry of the list.
--   The lists of Ready and Sched are what such rings stand for.
-- Memory: the heap of lib/src/memory: the headers of heap.h by address, and memoryAlloc.c. Allocate has
--   allocateBlock, initializeHeap and addToFreeList, Free has memoryFree, with a function for each
--   branch, and the loop of resizeTable. The search of allocateBlock runs on fuel: one round for each free
--   block. Inv says when the headers fit together, FreeList when the free list does; Split, SplitInv,
--   TakeInv and Allocation are about allocateBlock, Merge, FreeInv, the three Join modules and Freeing about
--   memoryFree. The theorems on allocation are for blocks that are not collectible, in a heap that may
--   also hold collectible ones. Pointers have four bytes. Sweep is the sweep of garbageCollect.c, one walk
--   through the blocks with a round for each block, and Collect its callers, among them the allocations of
--   memoryAlloc.c that collect garbage when they find no block; the mark function is a parameter there, as
--   in the source. Keeps is about the flags and sizes that a collection leaves alone, Swept, Garbage and
--   NoGarbage about the blocks that it makes free and those that stay.
-- NativeTable: the tables of native functions of jvm/src/class/nativeTable.c (addNativeFunction and
--   getNativeFunctionIndex). Registered is about functions that are added.
-- Segments: the segments of a Java stack of jvm/src/frame/stackSegment.c, with what memoryAlloc returns as a
--   parameter. Chains is about the chain that a thread's segments form.
-- Strings: the strings of jvm/src/string. Pool is the pool of UTF-8 strings of stringPool.c, a hash table of
--   lists whose entries have keys; other threads may change it between the search and the critical section
--   of getUTF8StringByChars. Names has parseClassName, getClassParams and the bits of a package key of
--   jvm/src/elements/keys.h, Utf8 the conversions of javaString.c, where it is a parameter whether char is
--   signed, and Intern the interned strings. Buckets and Keys are about the pool, Encoding, Decoding and Signed
--   about UTF-8, ClassNames and ClassKeys about class names, Interned and Interning about interned
--   strings. The loops over a string run on as many rounds as it has bytes.
-- Throwing: the search for the handler of an exception of jvm/src/frame/throw.c, with the monitors of Sched
--   that it exits and the class definitions of Classes. Handlers is about foundHandler, Unwinding about
--   findNewFrame, whose loop runs on a round for each frame that is left, and one more.
--
-- The configuration is that of ps/x86: preemptive threads, no time shares, semaphores by priority.
-- Not modelled: the time-share variants, the cleanUp function of a thread, the tick counter (an argument
-- of the tick says that it has reached the expiry), floating point, and the rest of the virtual
-- machine: loading, the rest of resolution, the handlers of objects, fields and calls, the instruction
-- loop, the marking of the garbage collector and the threads that wait for it, the constants of
-- stringKeys.c, the output of stack traces, and the native methods.
pub mod Base
pub mod Jlong
pub mod LinkedList
pub mod Memory
pub mod NativeTable
pub mod Ready
pub mod Sched
pub mod Segments
pub mod Strings
pub mod Throwing
pub mod ClassTable
pub mod Classes
pub mod Interpreter
