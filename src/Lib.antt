-- ===== src/Lib.antt =====
-- Verification library of the Signal bot that runs in a trusted execution environment: a user's
-- message reaches the bot through the Signal CLI, is answered by a model, kept in a conversation,
-- and paid for from a credit balance that deposits on a chain fill. A second program, the
-- registration proxy, registers and configures the phone numbers of such bots.
--
-- Parts and files:
--   Common        Boolean tests, lists, results, the actions `Exec` on a state that may fail,
--                 `HashMap` as an association list (Table, IdTable), `HashSet<String>` (StringSet), the searches,
--                 trimming, lines and number parsing of texts (Text, Trim, TextLines, Numeral), and the
--                 answer to an HTTP request (Http).
--   Platform      what the two encrypted files of the program rest on: the TEE agent, SHA-256, AES-GCM,
--                 serde, the random source and the file system, as the record TeeStorage.
--   Credits       crates/x402-payments: types.rs, error.rs (Types), credits/pricing.rs (Pricing),
--                 credits/store.rs. Store/Data is what `CreditStore` does under its lock: `grant`
--                 and `spend` are the locked blocks of `add_credits` and `deduct_credits`, which
--                 Store/Persist composes with key derivation and the encrypted file as the source
--                 does, over Platform.
--   Registration  crates/signal-registration-proxy: registry/mod.rs (Phone, Registry),
--                 registry/memory.rs (Registry), api/types.rs (Requests), api/handlers.rs (Handlers,
--                 Handlers/Bots). A handler is a check under the read lock, calls of the Signal
--                 client, and a commit under the write lock, in this order; Handlers/Races
--                 interleaves the parts of two requests. Server serves a sequence of requests.
--                 Listing is the two listings. Outside lists what the handlers call: the Signal CLI,
--                 the storage, the clock. Client is signal/client.rs, the requests to the Signal CLI;
--                 Storage is registry/encrypted.rs, the storage that main.rs starts with.
--   Conversation  crates/conversation-store: types.rs (Types), store.rs (Store). Store/Events is an
--                 abstract view of one user's history, which the store is compared with.
--   Tools         crates/tools: registry.rs (Registry), executor.rs (Executor). The tools themselves are
--                 functions that the registry holds.
--   Payments      crates/x402-payments: chains/mod.rs (Facilitator), api/handlers.rs (Deposits:
--                 `process_deposit` over the credit store; Advertising: the handlers that read, and the
--                 facilitators that lib.rs makes when the server starts), sweeper.rs (Sweeper), chains/base.rs, near.rs
--                 and solana.rs (Chains, with the nodes as parameters; NEAR and Solana fill the record
--                 Facilitator of the trait `ChainFacilitator`; the transfers and the status of a
--                 transaction are in Near/Transfer, Solana/Transfer and Base/Wallet), and the two credit stores that
--                 signal-bot/src/main.rs and lib.rs open (Process).
--   Chat          crates/signal-bot/src/commands/chat.rs: Handler is `ChatHandler::execute` over the
--                 conversation store and the credit store, its loop of rounds by recursion on
--                 `max_tool_iterations`. Types/Services lists the model, the tools and the Signal
--                 client, which it calls; Usage adds up the tokens of the replies.
--   Negotiation   crates/signal-bot/src/commands/conditional_recall.rs: Types (a negotiation and what an
--                 offer does to it), Store (`NegotiationStore`; its children prove), Commands (the
--                 handlers of !negotiate, !offer, !withdraw and !deals, from the text of the message).
--                 `f64` is the record Float.
--   Dispatch      crates/signal-bot/src/main.rs, commands/mod.rs and translation_interceptor.rs: the loop over
--                 the messages, which composes Conversation, Chat and Negotiation. Groups is the
--                 configuration of the groups that are translated. `to_lowercase`
--                 is a parameter here and in Payments/Chains.
--   NearAi        crates/near-ai-client: the requests to the model and what is made of the answers (Client),
--                 `chat_with_retry` by recursion on the rounds that are left (Retry), and the events of a
--                 streamed answer (Stream, Events).
--   Attestation   crates/dstack-client (Agent), and crates/signal-bot/src/commands/verify.rs: Verify is
--                 `generate_attestation`, Reply the text of the answer.
--   Translation   crates/translation: detect.rs (Languages), translator.rs (Truncate, RateLimiter, Translator) and
--                 provider/libretranslate.rs (Translator).
--   Signal        crates/signal-client: types.rs and client.rs (Client), and the rounds of the two streams of
--                 receiver.rs (Receiver).
--   Tests         each theorem of the list below at a concrete input, and runs of the definitions.
--
-- State is passed explicitly: an operation is a function of the state before, and answers with a
-- result and the state after. The clocks, and the ids that are random, are arguments. Loops are
-- structural recursion on lists and, in the chat handler, on the rounds
-- that the source allows; `trim_start_matches` has the characters of its text as fuel, which Common/Trim
-- shows to be enough. `u32`, `u64` and `usize` are natural numbers with
-- the reduction of a release build written out where the source may wrap, and with its saturating
-- operations as such. `HashMap` iteration has no order in the source, and no theorem depends on one.
--
-- The `f64` of the translator's rate limit is a parameter, Translation.RateLimiter.Float, with the laws
-- of IEEE 754 that its theorem uses in IsFloat; a witness instantiates it with whole numbers.
--
-- A panic is modelled where the tool executor, the negotiation, the topics of a receipt on Base, the
-- storing of a group message, the description of a bot and the log line of the verify command cut a text;
-- those of other slices in log lines are not.
--
-- Not modelled: the network below the clients, the parsing of JSON and of the environment, logging, the
-- web front end; and of the crates above the derivation of the chains' wallets, the built-in tools, and
-- the commands of the bot that only format text.
pub mod Common
pub mod Credits
pub mod Registration
pub mod Conversation
pub mod Tools
pub mod Payments
pub mod Chat
pub mod Negotiation
pub mod Platform
pub mod Dispatch
pub mod NearAi
pub mod Attestation
pub mod Translation
pub mod Signal
pub mod Tests
