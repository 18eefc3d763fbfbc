-- ===== src/Lib.antt =====
-- TG Guard Bot: a Telegram bot that guards groups (cmd/tgguard, internal/...), in Go over MySQL and
-- Redis. Updates enter a durable inbox, workers claim them one chat at a time, the rules and the AI
-- judge each message, the policy turns the judgement into a decision, and new members answer a
-- question before they may write.
--
-- Domain models internal/domain: messages and their context, settings, the text of the custom rules
-- (Domain.AdRules), keywords, risks, decisions, the table of built-in rules. Rules models
-- internal/rules: Rules.Text the normal form of texts, Rules.Normalize what a message is reduced to,
-- Rules.Evaluate its score part by part, Rules.Decide the policy, Rules.Keywords the match of a
-- keyword. Inbox models internal/store/queue.go, with the steps of a run in Inbox.Order.Runs and the
-- claims of two workers in Inbox.Superseded. Verification models the sessions of
-- internal/store/verification.go. Database models the tables that the workflows share, with the
-- statements of internal/store on the sessions (Database.Sessions), the punishments
-- (Database.Punishments, Database.Takeover, Database.Due), the logs (Database.Logs), the groups and
-- members (Database.Members) and the approval of a group (Database.Authority). Effects is the monad
-- of the workflows: every statement on the database and every call of Telegram, Redis and the AI is
-- a step that the environment may let fail, a trace keeps the calls of Telegram but getChatMember,
-- and the members that it names stand beside the trace.
--
-- Service models the workflows of internal/service. Service.Moderate is ModerateResult, with
-- Service.Engine for the engine of rules, spam counter and AI, and Service.Keywords for the replies;
-- Service.Punish and Service.Moderation are Punish and punishLocked of moderation.go;
-- Service.SenderChat is ModerateSenderChat, Service.Review is Review. Service.Join is Join,
-- Service.Start is StartVerification and VerificationReply, Service.Verify is finishVerification of
-- the session of a join, whose caller holds the member's lock; Service.Answering is
-- AnswerVerification, the sweep and finishSelfVerification. Service.Recovery is recovery.go,
-- Service.Membership what happens to the bot itself, Service.Commands the form of commands.
-- Bot.Dispatch is internal/bot/handler.go, which composes them: Service.Recovery runs
-- Service.Moderation again, and the dispatch runs the command of a group only behind
-- Service.Moderate. Bot.Poll is the polling loop of internal/bot/runner.go, which fills the Inbox.
-- Common holds what all share, Examples the properties at concrete inputs.
--
-- Strings that the code compares with fixed words are data types where the words are the code's own,
-- and texts elsewhere; texts that the rules search are lists of runes. An `int` that the validated
-- settings keep from being negative is a natural number, an identifier (int64) is a signed one; none
-- of them is ever computed with in a way that could overflow. A confidence (float64) is only
-- compared, and is the whole number of units of 2^-1074 that it holds. A table is a list of records,
-- an SQL statement a function on it that is atomic, and a time a number of microseconds. Loops are
-- recursions on lists, so that no fuel is needed, but for Bot.Poll, which takes the number of rounds
-- that the context lives.
--
-- Parameters: the tables of Go's package unicode, the regular expressions of package regexp,
-- SHA-256, the catalogue of texts, the answers of Telegram, Redis, the AI and the random source,
-- which the environment gives step by step, and the text of an error.
--
-- In Service a text sent is known by what it is made from; sql.ErrNoRows and the errors of a
-- transaction are results, the audit records and the queue of welcome messages to delete are kept
-- apart.
--
-- Not modelled: the HTTP API and its web page, the Telegram client, the AI provider, Redis itself,
-- the menus and the handlers of the commands, which the dispatch takes as operations of an
-- interface, the concurrency and the deadline of a round of the recovery, the configuration, the
-- upgrade agent and the database driver: they are input and output around the parts above, or
-- independent services.
pub mod Common
pub mod Domain
pub mod Effects
pub mod Rules
pub mod Inbox
pub mod Verification
pub mod Database
pub mod Service
pub mod Bot
mod Examples
