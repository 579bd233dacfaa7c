-- ===== src/Lib.antt =====
-- ANetHub: the credit ledger of a hub, the replay protection of its requests, its quotas, its
-- revocations and sessions, its budget of request bodies, its registry and the admission to it.
--
-- A hub keeps accounts of credit for its agents. Credit is created by a grant, by a trial or by a
-- peer hub's receipt, moves from account to account by signed payment authorizations, and leaves
-- when an account pays the hub itself or an account of a peer hub. This library models that
-- ledger as functions on a record of tables, one function per operation of the code. An AID
-- enters the registry through the admission gate, by the operator's list, a sign-up window or
-- open registration; the list's grant and the trial credit are paid on the same ledger, which an
-- AID that leaves keeps.
--
-- Prelude         Booleans, options, lists, integers and tables.
-- Ledger.State    The tables of internal/aghub/aghub.go (coreSchema), x402_first_verify of
--                 facilitator.go and supply_totals of supply.go, a payment's records, and Result.
-- Ledger.Core     The functions of the package ANetCore that the hub calls: a record of
--                 parameters.
-- Ledger.Rows     internal/aghub/amount.go: amountInt64, storedAmount, addToRow, issuanceRoom.
-- Ledger.Issue    facilitator.go creditTx, issueTx, GrantCredit; supply.go supplyEventTx.
-- Ledger.Settle   facilitator.go settleAuth and repeatOf, with what they call.
-- Ledger.Sound    The invariant, and the transfers that keep it.
-- Ledger.Clear    facilitator.go ClearFromPeer and DischargeDue; redemption.go SettleOwed.
-- Ledger.Payment  facilitator.go CheckRequirements, parseAuth, verifiedAuth; kelreplay.go.
-- Ledger.Facilitator
--                 facilitator.go SettleWithRequirements, SettleForPeer, keyAtFirstVerify.
-- Ledger.Verify   facilitator.go VerifyWithRequirements.
-- Ledger.Peers    facilitator.go ClearPeerSettlement; cmd/anet-hub/wire_federation.go peerSettler.
-- Ledger.Redeem   redemption.go Redeem.
-- Ledger.Janitor  janitor.go pruneLedgerAt.
-- Ledger.Epochs   supply.go publishDueAt, pruneLiabilityProofsAt, Supply.
-- Ledger.Run      All of the above as one transition system, and its runs.
-- Replay          auth2.go: the replay protection RC1 of signed requests (rc1State, rc1Signer).
-- Bodies          federation/bodybudget.go (internal/federation): the bytes of bodies held at
--                 once.
-- Revoke          revoke.go: RevokeCaps, CapRevoked and the cache revokedCache.
-- Sessions        session.go: sessionTable, the sessions of senders.
-- Registry        aghub.go and admission.go: the tables of the registry, and the monad of its
--                 transactions.
-- Registry.Departs
--                 deregister.go: DeregisterTx, writeTombstone, deregSteps, Deregister.
-- Admission       admission.go: Admit, payListGrantTx, RevokeAdmission, writeAdmissionTx.
-- Admission.Windows
--                 admission.go: openWindow, OpenWindow, CloseWindow.
-- Admission.Trials
--                 admission.go: maybeGrantTrial, SweepInactive, and what is told of a trial.
-- Admission.Gate  admission.go: admissionGate (the type), its reservations, and release and
--                 committed.
-- Admission.Door  server.go: admissionGate (the method of Server).
-- Registration    aghub.go: registerAgent, putAgent, kelChangedTx.
-- Registration.Flow
--                 server.go: hRegister, the gate with the write and the hold.
-- Hub             The operations on the registry as one transition system, and its runs.
-- Quota           quota.go: SetQuota, QuotaOf, QuotaFor and the cache of the hub process.
--
-- A text (an AID, an id, a marshaled value) is only compared by this code, so it stands as a
-- natural number, 0 for the empty text. A uint64 of the wire is a natural number, an int64 column
-- an integer whose range addToRow keeps. `now` is the store's clock in nanoseconds, `hub` the AID
-- of this hub. What the packages of ANetCore compute (key histories, signatures, HMAC, proof of
-- work) is a record of parameters: Core, Kels, Hashes. A SQL transaction is a function into
-- Result or Outcome: where it ends in an error, the tables are those before it. Functions are
-- structurally recursive; the one loop on fuel is `trim` of Replay, whose fuel is the length of
-- the list that each turn shortens.
--
-- Not modelled: the directory and its entries, kel:push, what hRegister checks and does besides
-- the gate and the write (its checks are arguments), relay and delivery, reviews and cards, the
-- federation's transport, restore, commands and web pages; errors of the database itself;
-- the column ledger_hw of an epoch, which the database counts; concurrent transactions, which the database's write lock puts in a row; the texts of refusals
-- and the log; HTTP and JSON. What a peer hub answers is an argument, and Run takes any answer. A
-- grant names a registered agent (cmd/anet-hub/admit_ops.go); Run takes none to the hub's own
-- row.
pub mod Prelude
pub mod Ledger
pub mod Admission
pub mod Bodies
pub mod Hub
pub mod Quota
pub mod Registration
pub mod Registry
pub mod Replay
pub mod Revoke
pub mod Sessions
