-- ===== src/Lib.antt =====
-- Models and theorems for the exercises of an operating systems course, written in C.
--
-- Game models cw10/zad1, tic-tac-toe over sockets:
-- - Game/Message: the messages of utils.h, as the server and the clients send them.
-- - Game/Board: check_line and check_game_status of server.c. A board is a function from the index of
--   a cell; the program reads it at 0..8.
-- - Game/Server: the table `clients`, the boards that malloc returns as a heap of addresses, and the
--   accept loop (check_username, register_client, find_opponent). -1 and NULL are `none`.
-- - Game/Server/Handlers: handle_disconnect, handle_move, handle_exit, the switch of
--   start_routine_manage_sockets and a round of start_routine_ping. `none` stands for undefined
--   behaviour: a null or dangling pointer, a write outside a board, or the mutex of clients[-1]. Every call of the system is
--   kept in a log, so that what is sent, and in which order, is part of the theorems.
-- - Game/Client: the switch over messages of client.c, and the loop that reads a move.
-- A handler runs to its end before the next one begins: what the two threads of the server may do to
-- each other inside a handler is not modelled. Neither are sockets, epoll sets and their set-up.
--
-- Pizzeria models cw07/zad1, cooks and deliverers over shared memory:
-- - Pizzeria/Kitchen: struct Oven_table with -1 as `none`, the five semaphores as a function of their
--   numbers, `semop` (all operations at once, or wait), find_free, find_taken, and the initial values
--   of main.c. Pizzeria/Kitchen/Spots has the lemmas on the searches.
-- - Pizzeria/System: make_pizza and deliver_pizza as moves of a process between two calls of semop,
--   any number of cooks and of deliverers interleaved in any order. What stands between two calls of
--   semop is one move.
-- - Pizzeria/System/Weights and Invariant: each semaphore as a sum over the processes.
-- Printing, sleeping, signals and the removal of the shared memory are not modelled.
--
-- PosixPizzeria models cw07/zad2, the same pizzeria over POSIX semaphores, on the shared memory and the
-- searches of Pizzeria/Kitchen: each call of sem_wait or sem_post is a step, and the calls that `|`
-- joins are made from left to right, which C leaves open. PosixPizzeria/Weights and Invariant have the
-- sums, Progress the absence of deadlocks.
--
-- Santa models cw09/zad1/main.c, Santa, nine reindeers and ten elves under one mutex: each thread is a
-- place in its routine, and the code between taking the mutex and giving it up is one step. A wait on
-- a condition variable may return at any time, so that signals need no state. Santa/Invariant says how
-- the counters belong to the threads, with a file for each of the three routines. Cancelling the
-- threads, sleeping and printing are not modelled.
--
-- Image models cw08/zad1/main.c, the negation of a grey image by several threads:
-- - Image/Pixels: start_routine_numbers and start_routine_block, as one thread runs them, for values
--   between 0 and the maximum. The inner loop over a column is given `height` rounds as fuel, which is
--   how many rows there are.
-- - Image/Schedule, Pixels/Columns and Blocks: the threads of the mode `block`, whose rounds are merged in
--   any order; a round is one step, since no two of these threads use the same pixel.
-- - Image/Pixels/Race: the mode `numbers`, where threads do use the same pixel, with each access to a
--   pixel as a step.
-- - Image/Files: save_image and read_image on the bytes of a file, whose numbers fit an `int`,
--   width * height included. What happens after a negative dimension is left out.
--   read_image runs on fuel, since its loop need not end; Files/Ending says which amount is enough for
--   which files. Files/Lines, Values and RoundTrip read what was written, line by line.
-- Measuring the time, `main`, and errors of the file system are not modelled.
--
-- Pipeline models cw05/zad1/main.c, which runs the pipelines that a file describes:
-- - Pipeline/Parse: count_lines, count_words and the loops of parse_file. Each line has a byte, so the
--   length of the file is enough fuel; a write behind an array is undefined. Structures take 24 and 16
--   bytes, as on a 64-bit machine, since one array is allocated in units of the other. Parse/Counts,
--   Words, Components and Executables read what was written, part by part.
-- - Pipeline/Run: the processes that exec_commands forks, with the pipes they read and write. Wiring
--   compares them with a chain.
-- - Pipeline/Program: the loop of `main` over the pipelines.
-- Errors of system calls, a program that cannot be executed, and free_all are not modelled.
--
-- Blocks models cw01, an array of what wc counts in some files:
-- - Blocks: mylib.c of cw01/zad1 (the other directories have copies): the command for the shell, the
--   array of blocks, the temporary file and the entries read from it. An access outside of an array is
--   undefined. The shell that runs wc is a parameter. Command, Places and Array follow the functions.
-- - Blocks/Driver: run_commands of cw01/zad2/main.c, on one round per argument at most, which
--   Driver/Termination shows to be enough.
-- Failed allocations, errors of the file system and the measurement of time are not modelled.
--
-- Counting models count_chars_and_lines of cw02/zad2/main_lib.c, which reads a file by buffers of 1024
-- bytes; one round for each byte and one more are enough. The main programs are not modelled.
--
-- Blanks models copy_and_remove_blanks of cw02/zad1/main_lib.c: a round of the outer loop reads 1024
-- bytes, and the inner loop is structural on them. Blanks/Lines splits any file into lines, Walk and
-- Buffers follow one buffer, and Copy the rounds; a round ends a line at least, so that one round for
-- each byte and one more are enough for the files it is stated for. The main programs are not modelled.
--
-- Traverse models traverse_dir of cw03/zad3/main.c by recursion on the depth: what the paths name and the
-- answers of libmagic are parameters, and a result is the list of the names that the processes print.
-- Traverse/Found says which files should be shown. The order in which several processes print, and
-- `main`, are not modelled.
--
-- Integral models cw03/zad2/main.c: the rectangles that each process computes, the files, and the sum that
-- is read back. Floating numbers and their addition are parameters. A process runs to its end when it
-- is forked; each has a file of its own, so that their order does not matter. `main` is not modelled.
--
-- Text is what the programs use of the C library on strings (sprintf, strtol, strtok_r, getline,
-- fgets). Text/Tokens has the lemmas on words that are joined and split.
--
-- Chat models cw06/zad1, a chat over System V message queues:
-- - Chat: struct Message of consts.h and the kernel, which is a parameter: it answers each call from
--   the calls made before it.
-- - Chat/Server: the table `clients` of server.c, the handlers, the switch of `main`, and `exit` with
--   close_on_exit, an exit inside of which is undefined. A content is a string that fits its array.
-- - Chat/Client: the commands of client.c (handle_input, from the line that fgets reads to the message
--   that is sent), the messages that arrive, and the end of `initialize`. The errors that end the
--   client are not modelled.
-- - Chat/Client/Dialogue: client and server together, through a message whose uninitialised fields
--   hold anything.
-- The log file, the times and the set-up of the queues are not modelled.
--
-- PosixChat models cw06/zad2, the same chat over POSIX queues, where a message is an array of bytes:
-- - PosixChat: the constants of consts.h, the arrays, and strcpy and strcat in them, which are `none`
--   where they leave the array. Buffers has the lemmas on an array that holds a string.
-- - PosixChat/Server: the handlers of server.c, the switch of `main`, `exit` with close_on_exit. The
--   kernel answers each call from the calls made before it. What the arrays on the stack hold before
--   and the time of day are parameters (Frame). An index outside of the table is undefined.
-- - PosixChat/Client: the commands of client.c, from the line that fgets reads to the array that is
--   sent, and from an array that arrives to what is printed.
-- - PosixChat/Client/Dialogue, Direct and Joining: client and server together, byte by byte.
-- The errors that end the client, the log file and the set-up of the queues are not modelled.
--
-- Fifo models cw05/zad3, texts that producers send over a FIFO to the lines of a file:
-- - Fifo and Fifo/Lines: add_line of consumer.c, whose loop reads a byte at least in each round, so
--   that the length of the file is enough fuel.
-- - Fifo/Producer: read_to_fifo of producer.c. Buffers above PIPE_BUF, which
--   the kernel may cut, are `none`. The byte behind a
--   buffer is a parameter, since remove_newlines may read it. Writes and Chunks say what it writes.
-- - Fifo/Consumer: read_from_fifo of consumer.c, in Reads one buffer at a time.
-- - Fifo/Delivery: producers and a consumer together.
-- Several consumers at a time, the locks on the file, and errors of the file system are not modelled.
pub mod Prelude
pub mod Game
pub mod Pizzeria
pub mod Santa
pub mod Image
pub mod Text
pub mod Blocks
pub mod Counting
pub mod Blanks
pub mod Traverse
pub mod Integral
pub mod Chat
pub mod PosixChat
pub mod PosixPizzeria
pub mod Fifo
pub mod Pipeline
