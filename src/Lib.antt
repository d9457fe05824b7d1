-- ===== src/Lib.antt =====
-- A model of the core of the prompt performance engine (src/prompt_performance_engine).
--
-- The program turns a source prompt into an optimized one by calling a model, compares the two on
-- benchmark cases under blind judges, and accounts for the cost of campaigns of such calls. The
-- parts that are modelled, and the modules that model them:
--
-- Contracts: `OptimizationRequest` and `candidate_strategy_plan` of contracts.py. Request has
-- `validate`, `from_dict` and `to_dict`; RoundTrip and Strategies reason about them.
--
-- Runtime: `optimize` of runtime.py with `_extract_candidate`, `_select_candidate`, `_artifact`
-- (its runtime section) and `_aggregate_usage`; `extract_optimized_prompt` of parser.py; the
-- responses, call records, adapter protocol and mock adapter of adapters.py. The runtime takes its
-- request from Contracts. The list `model_calls` that its helpers append to stands beside the
-- world of the adapter, in a `Session`.
--
-- Provider: `OpenAIResponsesAdapter.complete` of adapters.py with `_extract_output_text` and `_usage`.
-- Output reads a response, Attempts has the loop over the attempts and its `except`
-- clauses, Permissions `ToolPermissionManifest.validate`.
--
-- Budget: `BudgetLedger` of frontier_budget.py. Ledger has the record of the object's fields and a
-- function for each method, a call that runs to its end under the lock; Calls has the sequences
-- of calls; Invariant says what a sound ledger is.
--
-- Host: `FrontierExecutionHost` of frontier_host.py. Plan has the frozen data and the fields of
-- the host; Catalog, Schedule and Construct have the constructor from its models on, with
-- `validate_frontier_execution_plan`. Of `execute_attempt`, Attempt has the code up to the call
-- of the runner, and Checking, Assess and Finish the code after it. Steps has sequences of
-- attempts that overlap in time: what the code does before the call, from its lock regions in a
-- row, is one step, and what it does after the call is another. Regions has the same code with
-- each lock region a step of its own, `advance`, between which other threads may run; Orderly
-- says what holds there. Each attempt spends from a ledger of Budget. Invariant says what a
-- consistent host is, and Board what the host looks like from outside.
--
-- Statistics: `pareto_nondominated_ids` (Pareto), `holm_bonferroni` (Holm) and
-- `aggregate_case_safety_failures` (Safety) of frontier_statistics.py. Floats has the floats, which are
-- given to the model, as is their division.
--
-- Evidence: evidence.py, the levels of evidence and what an evaluation may claim.
--
-- Checks: case_checks.py, the table of software cases and the rule that a sandbox is required.
--
-- Evaluation: evaluation.py up to the result of a suite. Case has the cases and decisions, Judging
-- `_map_winner` and `_aggregate_judges`, Forbidden `_contains_unnegated_forbidden`, HardChecks
-- `_hard_checks`, Run `evaluate_case` and Suite `evaluate_suite`. The hard checks ask Checks, and a
-- suite asks Evidence what it may claim.
--
-- Prelude has what the parts share: native numbers and lists measured by them, Python values, code
-- that raises (`Result`), code that calls out to the world and may raise (`Action`), sets of keys,
-- and sorting.
--
-- How the code is written down. A raise is an error value, with a constructor for each reason; the
-- messages are left out. Integers are exact, as in Python. A value whose type the code tests is a
-- `Value`; a decimal number is an integer over a power of ten. A field that the code neither tests nor
-- converts has its annotated type. The order of the checks is the order of the source.
--
-- A text has no lone surrogates, so each has a digest.
--
-- What is given to the model: regular expressions, case folding, `strip`, the JSON library, digests,
-- tokens drawn at random, clocks, floats, executors, judges, model adapters, runners of attempts and
-- verifiers of their receipts, and the parts of the program that only make or check texts
-- (`compile_request`, `validate_artifact`, domain checks, software verifiers). Nothing is supposed of
-- any of them except where a theorem says so.
--
-- Loops are recursion on the list that they run through, but for two on fuel. The search for a
-- forbidden text has the length of the output and two: each round with a text that is not empty
-- starts at least one character further on, and the last finds nothing. The attempts of the provider
-- have one more than the retries: an attempt beyond the retries is not repeated.
--
-- Not modelled: the readers of files and the command line, which are input and output; the HTTP
-- service; the sandbox and its child processes; the compiler, the audit and the profiles, which are
-- texts and heuristics on texts; the contracts, the preflight, the replay and the reports of
-- campaigns, the other statistics, the human and image reviews and the readiness assessment, which
-- are large; of evaluation.py, the validators of recorded runs; of frontier_host.py, the checks of the
-- preflight in the constructor, the snapshot and the validators of its files.
pub mod Prelude
pub mod Contracts
pub mod Budget
pub mod Evidence
pub mod Checks
pub mod Evaluation
pub mod Runtime
pub mod Provider
pub mod Host
pub mod Statistics
