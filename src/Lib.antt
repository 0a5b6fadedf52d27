-- ===== src/Lib.antt =====
-- batchkit hands the work items of a batch to a changing set of endpoints. The files of this
-- library model its core, from batchkit/ in the repository, and the speech application on it, from
-- batchkit_examples/:
--   Prelude        Boolean tests, lists and their slices, integers, text, and Dict: Python dictionaries
--                  and sets as lists, with the lemmas on how often a key occurs.
--   WorkItem       work_item.py: the requests and results, and WorkItemQueue. Heap is the list of
--                  entries in ascending order that stands for heapq's array.
--   Endpoint       endpoint_config.py and the fields of endpoint_manager.py that matter to the
--                  orchestrator. Capacity has the counters of a manager, its wait for capacity,
--                  the sections of pool_callback and the health check, Bounds their invariant.
--   Orchestrator   orchestrator.py. State has the fields of Orchestrator and its methods as a
--                  monad with exceptions; the file itself steal_work, notify_work_success,
--                  notify_work_failure and _merge_results; Hotswap hotswap_endpoint_managers;
--                  Batches request_stop, cancel_running_batch and the parts of
--                  _master_thread_loop that take a request and start a batch; Summaries the run
--                  summary, with set_run_summary and run_summary of batch_status.py.
--                  The other children prove what these do.
--   System         the orchestrator with the managers' threads (run and pool_callback of
--                  endpoint_manager.py): an event is one call under `_accounting_lock`, and a run is
--                  any sequence of events.
--   BatchStatus    batch_status.py: the scratch directory as a list of batches; Master has what
--                  _master_thread_loop of orchestrator.py does to a status, Watch the watches
--                  on statuses and the handler of inotify's events, Paths the names of directories.
--   Master         orchestrator.py: _master_thread_loop as a whole, over the orchestrator, the scratch
--                  directory and the disk. Turns has what the other threads leave between two steps,
--                  Valid and Steps what holds at each stage, for Finished, and Ends counts the steps
--                  to the end of a round.
--   LogQueue       logger.py: LogEventQueue as a list of bytes. Framing has the frames that are written
--                  and read back, Delivery a whole sequence of records, Shrinking the loop that
--                  shortens a message, Sinks the levels and the listener's handlers.
--   Files          utils.py and handlers.py. Inputs finds the input files, Disk has the operations of
--                  the file system that may fail or break off and what utils.py does with them, Atomic what an
--                  atomic write leaves, Checksum the hash of a file.
--   Config         endpoint_config.py: the loading and validation of the endpoints; Schema its defaults
--                  and bounds.
--   Dispatch       batch_request.py and work_item_processor.py: which class takes a request.
--   ApiServer      apiserver.py: submission, queries, deletion, watches, and their controllers.
--   Client         client.py: the factory and the signals. Sync is the wait for one batch, Daemon the
--                  rounds of the daemon, OneShot the run for one batch, Main the entry point of the
--                  process and Started what its success says.
--   Speech         batchkit_examples/speech_sdk. Recognize, Retry, Waiting, Session and Results are
--                  recognize.py, as are Options and Host; Status is endpoint_status.py and
--                  work_item_processor.py, CommandLine parser.py, Audio audio.py, Request
--                  batch_request.py and work_item.py, Summary run_summarizer.py; Outcomes, Placed,
--                  Behind, Progress, Accepted and Reading prove what they do.
--   Examples       concrete runs, calls, directories, clients and recognitions.
-- The managers call steal_work for work and report to notify_work_success or notify_work_failure;
-- the master thread takes requests, hot-swaps the managers and starts batches; the API server
-- submits and cancels; BatchStatus keeps what the API server answers.
--
-- Each method that holds `_accounting_lock` is one step. The wait in steal_work ends a step with
-- `none`; a manager that is woken makes another. The loops that drain the queue run for as many
-- rounds as the queue's count, which is all that they have. Identities of work items, and their
-- priorities, are fields, since what `id()` and `priority()` return is not the framework's.
--
-- The loops that wait take rounds or fuel. The loop that shortens a log message gets one round more
-- than the message has characters, the read of n bytes n rounds, since each takes a byte; the wait for
-- the Speech SDK and the wait for a batch end within the rounds that their theorems name.
--
-- An operation of the file system passes, is refused, or breaks off with a part of the text written: a
-- write and a copy can leave that part, a removal and a renaming leave what was there. shutil.move is a
-- renaming where both paths are on one device, and else a copy and a removal; whether they are is a
-- field of the disk.
--
-- Sockets, argparse, hashlib, pickle, os.path, cerberus and the parsers of JSON and YAML, the wave
-- module's errors, GStreamer, inotify and the Speech SDK are parameters. Floats are natural numbers of a small
-- unit: the Speech SDK's time unit, or milliseconds for the priority of a work item. The texts of
-- exceptions are abbreviated.
--
-- Not modelled: the start and end of threads and processes, Flask and the writing of log files, which
-- are calls of other libraries; the touching of the input directory and the dumps for debugging, which
-- are input and output; the reload of a changed configuration by its watch.
pub mod Prelude
pub mod WorkItem
pub mod Endpoint
pub mod Orchestrator
pub mod System
pub mod BatchStatus
pub mod LogQueue
pub mod Speech
pub mod Files
pub mod Config
pub mod Dispatch
pub mod ApiServer
pub mod Master
pub mod Client
pub mod Examples
