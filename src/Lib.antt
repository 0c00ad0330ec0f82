-- ===== src/Lib.antt =====
-- The review core of Revue: packaging/revue_core/src/revue_core/.
--
-- A run of Revue begins with a check of the license, routes the changed files to agents, and runs
-- each agent in a tool loop with a language model, whose last text is classified. The findings of the
-- agents are filtered, consolidated, anchored in the diff of the pull request and posted, with their
-- states in a store; a later run decides what became of them. The run ends with a verdict. Its parts
-- and their files:
--
--   Position      comments/position_adapter.py and the line lookup of core/diff_position_resolver.py.
--                 Hunk is `_HUNK_RE`, Parsed `_parse_diff`, Classify `calculate`, Adapter the three
--                 platform adapters, Resolver `line_in_diff` and `_map_diff_lines`. Image, Anchoring,
--                 Agreement, Params and Skips hold the theorems.
--   Tracker       comments/hunk_tracker.py, with `HunkState` of comments/models.py. States is the
--                 transition table, Sentinel the text that a reply carries, Exec the effects of a
--                 method that calls the platform and may raise, Run `resolution_status` and its
--                 helpers, Prior `build_prior`. Legality, RoundTrip, Calls, Raises, NextRun and Merged
--                 hold the theorems. The tracker asks Position whether a line is still in the diff.
--   Verdict       core/run_verdict.py; Meaning, Codes and Order hold the theorems.
--   Runner        core/agent_runner.py, and the snapshot of the statuses in core/pipeline.py, which
--                 Verdict reads; Complete and Degraded hold the theorems.
--   License       core/license_validator.py. Retry is the retry loop, Validate the cache and
--                 `validate`; Attempts, Answers and Grace hold the theorems.
--   Consolidator  comments/consolidator.py, with the types of comments/models.py. Findings, Grouping,
--                 Vote, Fallback and Chain are the types, the grouping, the majority vote, the
--                 deterministic fallback and `consolidate`; their children hold the theorems.
--   Guard         comments/_orphan_line_guard.py, the post-processor that takes away a replacement
--                 which would orphan lines; Orphans and Reads hold the theorems.
--   Noise         core/noise_filters.py: the generic filters, the configured list, and the loop over
--                 the findings; Applied holds the theorems.
--   Router        core/cleo_router.py. Triggers is the languages, the globs, `evaluate_triggers` and
--                 `assign_files_to_agents`, Teams `select_team`, Signal `route`; Floor, Security and
--                 Assigned hold the theorems.
--   ToolLoop      core/tool_loop.py. Dispatch is `_dispatch_tool`, Messages and Anthropic are
--                 `anthropic_tool_loop`, OpenAi is `openai_tool_loop`. Requests, Conversation,
--                 Breakpoints and Sent hold the theorems on the first loop, Deadline and Answers those
--                 on the second.
--   TerminalState core/terminal_state.py, with ERROR_CODES of core/finding_schema.py. Json is the values
--                 of the parser, Classify the classifier; Closed and Earned hold the theorems.
--   StateStore    comments/state_store.py. Operations is the methods on the content of the file, View
--                 what `transition_state` reads of it, Refinement the theorems.
--   Poster        comments/poster.py with comments/json_store.py and comments/fingerprint.py.
--                 Fingerprint and Store are those two files, Fields the findings of a response, World
--                 what a run is given and keeps, Collect its groups, Run what becomes of a group, Review
--                 the whole run, with `build_prior` of Tracker and the adapters of Position. Opened,
--                 Attempts, Seen, Kept, Repost, Calls and Anchors hold the theorems.
--   Tools         core/tools: Sandbox is the checks of a path that the three tools share, Read
--                 read_file.py and read_lines.py, Find find_code.py; Isolation, Bounds and Cut hold the
--                 theorems. Their results are those that ToolLoop.Dispatch gives to the model.
--   Prelude       text as Python treats it, dicts, stable sorting, lists, integers.
--
-- Each component has a module Examples with tests and its theorems at concrete inputs.
--
-- How the program is represented. A `str` is its list of code points; strings that are only compared
-- are native strings. Line numbers, counts and times are natural numbers, and a computed end line is
-- an integer. `\d` is read as an ASCII digit; `\w` beyond ASCII is a parameter. A confidence has a
-- type that is a parameter, with its order and its test for the unit interval. Methods that call the
-- platform pass a log of calls and transitions along, which stays when they raise. The license check
-- counts time in seconds, and the sleeps of its loop in half seconds; the tool loops count it in
-- milliseconds. The client of a tool loop is a function of the requests that it was sent so far, and
-- so is the clock; each loop keeps the list of its requests, the latest first. That the loop takes
-- the mark off the caller's own message objects too is not seen, since the messages are values. The
-- store is the content of its file: a method reads it and gives the content that it writes. A run of
-- the poster passes a state along, with the store's files, the calls of the platform, the counters
-- and whether an exception has stopped it; the set of fingerprints to resolve is taken in the order
-- of its dict. A call in the log has the fingerprint of its group too.
--
-- Parameters: the platform's and the strategy's answers and the clock (World of Tracker), the HTTP
-- client's answers and the hash of a key (License), the grouping and synthesis strategies and the
-- post-processors (Chain), the tool that reads a file (Guard), `str.lower` and the filters that match
-- regular expressions (Noise), `fnmatch` and the teams of the YAML files (Router), the client, the
-- handlers of the tools, the JSON parser and the clock (ToolLoop), `json.loads`, `str` and `repr`
-- (TerminalState), `str` of a number and the rounded percentage (StateStore), `json.loads`, `int`,
-- SHA-256, the comment bodies, whether a finding can be made a ConsolidatedFinding, the tracker's
-- verdict on an entry and the answers of the platform (Poster: a call of the platform returns, and the
-- body and the verdict may raise), the file system and ripgrep, whose calls may raise (Tools), the agents, the order in which they complete and whether the timeout has struck
-- (Runner).
--
-- No definition runs on fuel but the retry loop, which counts down the three attempts that the source
-- makes, and the tool loops, which count down max_iterations as the source does. All other loops go
-- over lists.
--
-- Not modelled: log lines other than the transitions, the wording of errors, the thread pool (its
-- results are taken in the order of the groups), the HTTP requests, the calls of a language model, the
-- metrics events, the messages and the usage that ai_client.py converts, the files of the stores, the
-- summary comments and the summary mode of the poster, the JSON schemas of the tools,
-- `DiffPositionResolver.snap`, `_build_api_fingerprint_map` of the tracker, the
-- rest of the pipeline, the command line and the web application.
mod Prelude
pub mod Position
pub mod Tracker
pub mod Verdict
pub mod License
pub mod Consolidator
pub mod Guard
pub mod Noise
pub mod Router
pub mod ToolLoop
pub mod TerminalState
pub mod StateStore
pub mod Poster
pub mod Tools
pub mod Runner
