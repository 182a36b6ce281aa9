-- ===== src/Lib.antt =====
-- Sixteen programs of the workspace, in C, with what makes each of them correct and the places where
-- they go wrong: servers and thread exercises, and a shell. The programs do not call each other; what
-- they share is C's mutexes, semaphores and condition variables, the text functions of its library,
-- and an array that some of them use as a queue.
--
-- Base: Machine has C functions as a monad over a program's state. A function returns, waits for
-- ever, calls exit, or makes an access that C leaves undefined (a fault). Text has strings as lists
-- of character codes with strcmp, strchr, strtok_r and atoi; Integers has int, without overflow.
--   Shelf is the array with a count at whose end entries are added and from whose front they are
--   taken, where a loop moves the others forward; ThreadPool, CommandQueue, SumPool and TimerPool use
--   it. With a full array some of these loops read behind its end: in ThreadPool, SumPool and
--   CommandQueue the step has what stands there as an argument. Splitting has lemmas on texts that
--   are put together from words.
--
-- JobServer: EXAMS/PART2_lab14/server.c, a server on which clients start and watch commands.
--   State has the globals (id_seed, jobs, running_jobs_nr, sem, the four mutexes), Launch the
--   splitting of the command line in run, Handler the functions run, thread_handle (one function
--   for each command), thread_handle_wait (take_unit is its sem_wait, reap the rest of a round,
--   wait_round both) and signal_handler, and System the events that drive them: an accepted client
--   with what recv and fork give, a return of sem_wait, a return of wait, SIGTERM. A handler runs
--   until it returns or waits; one that waits keeps its mutexes, and other events follow. It is not
--   preempted between two statements. Capacity, Mutexes, Decay and
--   Starvation have what holds over all sequences of events, by the rules of Rules; Listing and Jobs
--   have what single requests do, Commands what run executes for a line of words.
--
-- Store: EXAMS/examen_29_09_2024_STORE/server.c, a shop over two arrays.
--   State has the globals, Stock the searches get_USER_By_ID and get_PRODUCT_By_ID, the sum of the
--   stock and delete_stock, Handler what handle_every_clientByThread does with a received text,
--   Admin the lines of recv_stdin_from_admin, signal_handler and the child's rounds, Load the
--   reading of customers.txt and products.txt. Amounts of money are floats in C: their arithmetic is
--   the parameter Money. Sales, Deletion and Prices have the results.
--
-- Planner: Lab7_threads/practice/PLANNER/planner.c and planner.h, a scheduler with priorities.
--   Heap has tasks on an explicit heap with enqueue and dequeue over their next pointers, Scheduler
--   so_init, so_fork, select_next_task, a round of execute_the_thread_with_task (run_slice) and of
--   so_runnnn (round). unsigned int wraps at 2 ^ 32. The walk of enqueue takes fuel, one unit for
--   each pointer, and the number of tasks ever allocated is enough, since a queue holds a task once.
--   The two threads' hand-over is a choice followed by a slice; the mutex and the condition
--   variables behind it are left out. Queues, Choice and Slices have the results.
--
-- ProdCons: Lab7_threads/lin_Exercises/7-prodcons/prodcons.c, a producer and a consumer of a buffer
--   of three. Buffer has the buffer, System the two threads as a step relation: a step is what a
--   thread does under the mutex, and a wait may end without a signal. Every interleaving is a
--   sequence of steps. Invariant and Progress have the results.
--
-- ThreadPool: practice/thread_pool/pool.c, a queue of clients that four threads serve.
--   Queue has taskQueue with its two operations, System main and the threads as a step relation: a
--   step is what a thread does under task_mutex, or the end of a request. An idle thread may take a
--   task whenever there is one; which of them a signal of task_cond wakes is left open. With two
--   tasks the loop of start_routine reads behind the end of the array, and any number may stand
--   there, each time another. Order has the results.
--
-- TinyShell: LAB3/lab3_ex/TINY_SHELL/tiny_shell.c, a shell with variables and pipes.
--   Words has extract_first_cmd, read_line, parse_command, replace_ENV, set_environment_variable and
--   trim, Shell the functions that start processes and the loop of main. Which of the calls of pipe,
--   fork and open succeed, by their number, is a parameter; a started process is recorded with its
--   arguments, its input and its output. Commands, Trimming and Pipes have the results.
--
-- CommandQueue: EXAMS/01_02_2023/server.c, the first of the file's three programs: children write
--   commands into a pipe, main reads them into a list of four, two workers take them out. System has
--   main and the workers as a step relation: a step is a wait for a semaphore, a post, a test of
--   finished, or what a thread does under the mutexes. Pipe has the commands and the reads
--   of 18 bytes; pids and random numbers are arguments, and a pid has at most ten digits. What stands
--   behind the end of the list may be any text. Order and Pipe have the results.
--
-- FileTasks: EXAMS/30.01.2023/server.c, a server whose clients have files written and summed up.
--   Files has the list of files with its flags and the tasks on it, from verify_existency to
--   thread_handler_file, run one at a time; a task that waits for a flag never gets it. A char is
--   signed, and the fuel of a sum is one more than the length of the file, since each round reads
--   one byte at least. System has many threads on one list as a step relation, a step for what a
--   thread does under the mutex. Sharing, with Search, and Tasks have the results.
--
-- PageCache: EXAMS/cache_exam_30_01_2024/server.c, a cache of ten slots, each with pages of a file.
--   Slots has the test for a hit, the choice of a slot and the filling of it, Choice the results.
--   Sizes and offsets are not negative.
--
-- ParallelFgrep: Lab7_threads/lin_Exercises/4-pfgrep/parallel_fgrep.c and serial_fgrep.c, the count of
--   a pattern in a file by four threads and by one. Count has count with size_t of 64 bits and unsigned
--   int of 32, Chunks split_file_mapping, thread_code and the sum in main. The loop takes fuel, and more
--   than the bytes of the file is enough, since each round goes on by one byte at least. Equivalence,
--   by way of Occurrences, and Ends have the results.
--
-- SumPool: EXAMS/restanta_30_06_2023/server_semaphore.c, three threads that sum up files of numbers.
--   Tasks has the list of tasks, what is done on it under the mutexes and what a file is read as,
--   System populate_vector and the threads as a step relation, with the one place that strtok keeps for
--   all threads. A step is a call of strtok or of a semaphore, or what is done under _task_mutex_; two
--   calls of strtok that overlap are left out, since C gives them no meaning. What
--   stands behind the bytes of a file in buffer, behind the end of a full list, in a buffer that a
--   thread has gone through, and where a name that strtok took from a thread's buffer was, may be
--   anything. The main that starts these functions is commented out in the file. Ledger, by way of
--   Sums, and Lost have the results.
--
-- FuelTank: practice/thread_pool/server.c, a thread that fills a tank and a car that waits for it.
--   System has both as a step relation, Level the result.
--
-- DavServer: lab14_DAv/server.c, an earlier job server, in which each thread waits for its own job.
--   State has the globals with what run does to them, get_status and the name that get_stdout makes of
--   an id that is not negative; System the threads that handle a run as a step relation, Names, Ids and
--   Limit the results. The arrays of main, with places for 100 threads, are left out.
--
-- Encrypt: EXAMS/encrypted_2023/server.c, children that encrypt what they get through pipes.
--   Key has the global array key, what generate_random_key writes into it and what a child starts
--   openssl with; Pipes has pipe_fd as the memory that it is, with the indices of main and those of
--   init_pip_for_CHILDERN. The bytes of RAND_bytes, whether dup2 succeeds, and the ends that pipe
--   gives are parameters, the ends of different calls being different. Digits and Ends have the results.
--
-- TimerPool: practice/timer__/server.c, three threads on a list of tasks, ended by a timer.
--   System has main, the threads, the timer and SIGUSR2 as a step relation: a step is a test of
--   stop_threads, what a thread does under task_mutex, or what it does with the timer behind it. The
--   timer may expire whenever it is set, a wait may end without a signal, and SIGUSR2 may come at any
--   time. Order and Endings have the results.
--
-- CacheStore: EXAMS/30.01.2024/server.c, a cache of ten slots with a page of 100 bytes in each.
--   Slots has store_cache with its two loops, and the test of get_from_cache for a hit. What a read of
--   a file gives is a parameter. The for loop has fuel for 120 rounds, which is enough: it begins anew
--   only after a free slot was filled. Rounds and Places are about the loops, Full and Free have the results.
--
-- Not modelled: sockets, files and the clock; the creation and the join of threads; the results of
-- fork, wait, malloc and pthread_create, which are arguments; what a started command or a task's
-- handler does; the barrier and the child of FileTasks, the message queues of PageCache, and the
-- second and third program in the file of CommandQueue; the signal handler of SumPool; the output that
-- DavServer sends; what get_from_cache and write_to_cache of CacheStore do behind the test for a hit,
-- with string functions on bytes that no zero closes. The other programs of the workspace are short
-- exercises that mostly call the system, or earlier states of these, and have no model.
pub mod Base
pub mod JobServer
pub mod Store
pub mod DavServer
pub mod SumPool
pub mod Encrypt
pub mod TimerPool
pub mod CacheStore
pub mod FuelTank
pub mod ParallelFgrep
pub mod Planner
pub mod ProdCons
pub mod ThreadPool
pub mod TinyShell
pub mod CommandQueue
pub mod FileTasks
pub mod PageCache
