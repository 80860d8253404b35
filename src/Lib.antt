-- ===== src/Lib.antt =====
-- The core of the Sustentra platform (backend): how users sign in, how a file becomes extraction
-- candidates, how reviewed candidates become approved evidence, and the second stage, which goes from
-- approved evidence to methodology values, and from these to completeness, derivations, verification
-- and gap records.
--
-- Parts, and the code that each file models (paths relative to backend/app):
--   Condition            services/condition_evaluator.py. Tokenizer is `_tokenize` with the
--                        alternatives of TOKEN_PATTERN; Parser is `_Parser`, which evaluates while
--                        it reads; Evaluator is `ConditionEvaluator.evaluate`. Grammar and Meaning
--                        are the documented grammar and its truth values, written apart from the
--                        parser; Reads, Agrees and Exact relate the two.
--   Methodology          domain/methodology.py, domain/verification_rule.py and
--                        domain/methodology_value.py (Types);
--                        services/methodology_registry_service.py (Registry);
--                        services/approved_evidence_mapping_service.py (Mapping);
--                        services/methodology_value_service.py with the repository in memory of
--                        repositories/methodology_value_repository.py (Projection); `_index_values`
--                        of the tracker and the engine (ValueIndex).
--   Completeness         services/completeness_tracker_service.py
--   VerificationEngine   services/verification_engine_service.py
--   Derivation           services/derivation_service.py
--   Recompute            services/recompute_service.py
--   GapRecords           services/s2_gap_record_service.py
--   Orchestration        services/s2_orchestration_service.py
--   Review               domain/review.py and domain/extraction.py (Types);
--                        services/review_decision_service.py with the repository in memory of
--                        repositories/review_repository.py (Decisions);
--                        services/approved_evidence_service.py (Evidence) over domain/evidence.py
--                        (Aggregate).
--                        Submit, Latest, Approval and Status say what they guarantee; Latest has the
--                        description of the latest decision of a field that the loop is held against.
--   Auth.Table           the statements of SQL on one table, as a list of rows
--   Auth.Database        the tables, the row-level security and the SQL functions of
--                        backend/migrations/versions/0002 to 0007; `set_tenant` and `set_provider`
--                        of core/db.py are the scope that a statement takes
--   Auth.Primitives      core/security_primitives.py
--   Auth.Audit           services/audit_log.py
--   Auth.Session         services/sessions.py
--   Auth.Outcome         services/login.py: its limits, and what its operations read and answer
--   Auth.Login           services/login.py: `start_login` and what the other two share with it
--   Auth.Challenge       services/login.py: `verify_login` and `resend_code`
--   Auth.PasswordReset   services/password_reset.py
--   Auth.CurrentUser     core/auth.py, and `logout` of api/v1/auth.py
--   Auth.Invariant, Auth.Steps
--                        the invariant of the tables, and the requests as a step relation
--   Auth.SignIn, SingleUse, PasswordStep, Account, Lockout, Access, Stay, Entered, Flow, ResetLaws,
--   ResetOnce, Otp       what the flows guarantee, each file by its subject
--   Identity             services/identity_service.py: `IdentityService`, its users, clients, sessions
--                        and second factors. Passwords and Totp are security/passwords.py and
--                        security/totp.py; Store is repositories/identity_repository.py; Records is
--                        domain/identity.py; State has the state of the service and the helpers that
--                        its operations share; Login, Users, ClientUsers, Clients, ClientChanges,
--                        Reset and Mfa are its operations. StoreLaws, Revoked, Hex, Entered, Created,
--                        Guards, Stale and ResetLaws say what they guarantee.
--   Pipeline             services/pipeline_orchestration_service.py: Stages has its arguments, its local
--                        variables and its status functions, Steps the try statement by stages, Process
--                        `process_local_document`, EvidenceStatus `get_evidence_status`. Runs is
--                        domain/pipeline.py and repositories/pipeline_repository.py; Targets is
--                        services/extraction_target_service.py. Endings, Trace, Saved, Projected,
--                        Sorting and TargetLaws say what they guarantee.
--   Prelude, Text, Value, Dict, Counter, Samples: shared helpers; `str`, scalar values, `dict` with
--                        the indexes built on it, `Counter`, and a number type to run things on.
--
-- `process_local_document` takes a file through the parser, the classifier, the plan of targets and the
-- extraction of candidates, and stores a run that says how far it came.
--
-- A reviewer's decision on a candidate is a record of the review repository. A projection takes the
-- latest decision of each field of an evidence, and keeps the fields that are accepted or edited as an
-- aggregate of approved evidence.
--
-- `S2OrchestrationService.run` projects the approved fields to methodology values by the mappings
-- (Projection, over Mapping and Registry), gives the values to the tracker (Completeness, which asks
-- Condition whether a row applies), to the derivations and to the rules, and turns the three results
-- into gap records and a summary.
--
-- A login is two requests. `start_login` checks the password, counts failures and locks the account,
-- and stores a challenge with the hash of a code that it mails. `verify_login` takes the code back,
-- consumes the challenge and creates a session, whose cookie `get_current_user` checks and refreshes
-- from then on. A password reset consumes a token, and deletes the sessions of the user.
--
-- `IdentityService` is a second way to sign in, with tables of its own: a record is never
-- changed, but saved again, and the last version with its id counts.
--
-- How the code is represented:
--   - A `str` is a list of code points. White space is all of `str.isspace`; letters, digits and case
--     folding are those of ASCII, so results on other letters are outside the model.
--   - A scalar value is null, a Boolean, a text or a number. Numbers are a parameter (`Numbers`):
--     Python's int and float with `str`, `float(s)` and the arithmetic that the services use.
--   - A `dict` is an association list in insertion order; `defaultdict(list)` is `append_at`.
--   - A raised exception is a value: `unsupported` and `unknown` of the evaluator, `error` of the
--     services, `unresolved` of the mapping service, `none` of `derive_field`.
--   - `uuid5` and the clock are parameters; the clock is the sequence of the texts that its calls
--     return.
--   - A repository in memory is the list of its records, passed and returned.
--   - `datetime.fromisoformat` is a parameter (`Dates`), which gives microseconds, and Python's `==`
--     on numbers another (`Equality`). The source reference of a decision is of any type.
--   - That the required keys of a candidate or a decision are there is in the types of Review.
--   - The database of the auth flows is a record of lists of rows, passed and returned. A request is
--     one transaction, and transactions come one after another. A statement sees the rows that the
--     policies of row-level security show to the scope that the transaction has set.
--   - UUIDs are natural numbers, and times natural numbers of microseconds. What a request draws
--     (ids, codes, tokens) and the clocks that it reads are the fields of a record `Request`.
--   - bcrypt, SHA-256, HMAC, the text of a UUID and the list of common passwords are a parameter
--     (`Crypto`).
--   - The audit log has the newest event first.
--   - The record store of IdentityService is the list of the versions, the oldest first, as both of its
--     stores keep them. Sustentra users and the users of clients are one record type. A time is a
--     number of microseconds, whose order is that of the texts of `isoformat` in UTC. What a call reads
--     (clock, ids, tokens, salt) is a record `Call`; the clock is read at numbered places. An operation
--     that raises has the state that is left beside its error. PBKDF2 and SHA-256 are a parameter
--     (`Hashing`), and so is HMAC with its key (`Mac`). The details of audit events, the fields that
--     `public_record` takes out, the time that `dummy_verify` takes, and codes in the first 30 seconds
--     of 1970 are left out.
--   - The parser, the classifier, the target service and the extraction service of the pipeline are what
--     its constructor is given: a record `Services` of functions that may raise. The runs are kept in
--     memory, where storing one does not raise.
--
-- Loops are structural recursion over lists, except for two in Condition that run on fuel. The
-- tokenizer gets one unit for each character and one more, and reads a character in each round. The
-- parser gets three units for each token and three more, since at most three nested calls (expression,
-- term, factor) come between two tokens that are read. Both bounds are proved to be enough on every
-- input.
--
-- Not modelled: the regular-expression indexes of the registry (vocabulary references, rules and
-- edges by field), the loaders of workbooks and seed files, the JSONL repositories, extraction,
-- classification, parsing of documents, the routes of the HTTP API other than `logout`, cookies, mail
-- and rate limits. They are file I/O, calls of third-party code, or parts with their own state that
-- this library does not cover yet. Two transactions that run at the same time are outside the model too.
pub mod Prelude
pub mod Text
pub mod Value
pub mod Dict
pub mod Condition
pub mod Samples
pub mod Counter
pub mod Methodology
pub mod Completeness
pub mod VerificationEngine
pub mod Derivation
pub mod Recompute
pub mod GapRecords
pub mod Orchestration
pub mod Auth
pub mod Review
pub mod Identity
pub mod Pipeline
