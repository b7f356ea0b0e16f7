-- ===== src/Lib.antt =====
-- The verification library of the study planner's brain (Courseo), a service that talks with a student,
-- confirms the metadata of a degree and lets language models make and check a study plan.
--
-- The program's parts and the files that model them (paths from the repository's root):
--   * Advisor: the graph of app/agents. Advisor/State.antt is AdvisorState and its messages, and
--     Advisor/Messages.antt, Metadata.antt and Updates.antt are the functions of app/agents/state.py
--     (extract_and_parse_json, the handbook identity, sanitize_confirmed_metadata,
--     apply_confirm_metadata, apply_plan_change_request). Each node of app/agents/nodes is a function
--     from a state to the state with its updates applied: Advisor/Conversation.antt and Capture.antt
--     (nodes/conversation.py), Handbook.antt, Stage1.antt and Stage2.antt. Advisor/Graph.antt is
--     app/agents/graphAPI.py: the routes, the edges and a run, node by node. What a language model, a
--     tool, the handbook service or the ranking service answers is an argument (`World`), with `none`
--     for an exception; Advisor/Outcome.antt says how an exception ends a run.
--   * Vault: the students' API keys, app/services/vault_service.py over the table of
--     app/models/credential.py. Vault/Rows.antt has the rows and the SQL statements, Vault/Secrets.antt
--     the interface of app/services/secret_store.py and app/llm/keyshape.py, Vault/Requests.antt,
--     Service.antt and Upkeep.antt the operations, and Vault/Resolver.antt
--     app/services/credential_resolver.py. A failing operation drops its changes to the database and
--     not those of a store. The remaining files under Vault hold lemmas on the rows and proofs.
--   * RateLimit: app/core/ratelimit.py, the limiter in front of the vault's endpoints.
--   * Auth: app/services/auth_service.py over the tables of app/models/auth.py. Auth/Rows.antt has the
--     rows and the SQL statements, Auth/Service.antt sign-up, sign-in, sign-out and password reset,
--     Auth/Deletion.antt the deletion of an account with its keys, chats and checkpoints (it calls
--     the purge of Vault/Upkeep.antt, and what ON DELETE CASCADE of each foreign key of app/models
--     deletes is a definition of its own), and Auth/Calls.antt the runs of calls. Argon2, SHA-256,
--     drawn values, the clock and LangGraph's checkpointer are arguments.
--   * Enrolment: app/services/enrolment.py. Enrolment/Cells.antt and Rows.antt read lines and rows of
--     a table, Header.antt the header, Table.antt and Flat.antt are the two parsers, Render.antt the
--     text for the advisor. Wam.antt is app/services/wam.py; the average is a number of hundredths,
--     which is what the 28 digits of Decimal give while the credit points stay below 10 ^ 24.
--   * Crypto: app/core/crypto.py. Crypto/Keyring.antt is MasterKeyring, Crypto/Seal.antt sealing, opening
--     and rewrapping, Crypto/Token.antt the text that carries a sealed secret. AES-GCM, base64, UTF-8
--     (each with `none` where it raises) and the drawn bytes are arguments.
--   * Pools: app/services/elective_pools.py, the candidates of a pool of electives, with normalize_code
--     of app/services/prerequisite_parser.py.
--   * Json and Regex are the parts of Python's json and re that the nodes use, Base the shared types,
--     tests, texts and integers.
--
-- The parts interact through the state of the graph, and the vault through the rows and its stores.
-- Upper and lower case are those of ASCII; Advisor/Stage2.antt adds the letter İ, which str.lower() makes
-- longer, where it looks for the JSON fence. A text is the list of its code points; a dictionary of metadata is a record with `null` for a missing
-- key. A run of the graph is on fuel. The bound for it is 42 nodes: the greatest value at the agent of
-- the rank in Advisor/Graph/Termination.antt, which is made of what is left of the tool calls of the
-- turn, of the two retry counts and of stage 2's tool loop.
--
-- Not modelled: the prompts, the HTTP and database layers, the email, and the services that
-- rank electives and check eligibility and prerequisites.
pub mod Base
pub mod Regex
pub mod Json
pub mod RateLimit
pub mod Advisor
pub mod Vault
pub mod Auth
pub mod Crypto
pub mod Enrolment
pub mod Pools
pub mod Wam
