-- ===== src/Lib.antt =====
-- The exchange: orders, the matching engine, the ledger and the wallets, and what is built on them:
-- payments, dividends, governance, settlement on a chain, identity checks, and how an
-- asset enters and leaves the exchange.
--
-- The parts and how they interact. A controller hands a request to OrdersService
-- (src/modules/orders/services/orders.service.ts). Placing an order locks its funds through
-- TradingLedgerService, inserts a row and queues a job; the job runs OrderMatchingService.matchOrder,
-- which plans its fills from one query and writes them in one transaction, in which
-- TradingLedgerService moves the funds of both sides. The changes of wallets go through
-- BalancesService, but for the confirmations of payments and the first wallet of a user. A job of settlement.service.ts takes the trades to the chain and unlocks what a
-- settlement has left locked. Trades and claims of dividends queue commissions for referrers. The
-- votes on proposals are weighed by the wallets of the holders of an asset.
--
-- Which file models which code:
-- - Exchange: the tables of prisma/schema.prisma and the state of a run. Db is what a rollback
--   restores; World adds the ids handed out, the clock, the job queues and what market data was told.
-- - Exec: a service method as a function of the world that returns a value or an error, in place of
--   promises and exceptions; Exec/Ensures has the relations between the states before and after.
-- - Errors: one constructor for each exception; the messages are left out.
-- - Balances (src/modules/balances/services/balances.service.ts): updateBalance is update_balance,
--   transferBetweenAvailableAndLocked is transfer_between_available_and_locked, both inside a
--   transaction of the caller; transaction and with_retries are the transaction that they open
--   without one. Balances/Table is the balance table, and the proofs are in Balances/Effects,
--   Outcomes, Safety, RoundTrip and Atomic. Balances/Views tells the same calls of the two amounts of
--   a wallet, without rows, and Balances/Refines compares the two.
-- - Ledger (src/modules/orders/services/trading-ledger.service.ts): lockOrderFunds,
--   unlockOrderRemainder, settleMatch and refundBuyerPriceImprovement, under their names.
-- - Orders (src/modules/orders/services/orders.service.ts): Orders/Data has the requests and replies,
--   Orders/Table the rows, Orders/Create createOrder, and Orders/Change updateOrder, cancelOrder and
--   bulkCancelOrders.
-- - Matching (src/modules/orders/services/order-matching.service.ts): Matching/Candidates is the query
--   of matchOrder, Matching/Loop its loop, and Matching the operations that the loop collects, the
--   transaction that runs them, and matchOrder itself.
-- - Payments (src/modules/payment/services/payment-ledger.service.ts and payment.service.ts):
--   depositDemo, processWithdrawal, processTransfer and adminUpdateWithdrawStatus; Payments/Jobs is
--   src/modules/payment/jobs: the scan for deposits, the confirmations and the sending of withdrawals.
--   Payments/Gas and Payments/Refunds are gas-spike.service.ts of the same folder;
--   the client of the chain (the record Gas) is a parameter.
-- - Tables: the rows of the tables that the parts below use, and Users their lookups and the audit
--   log, whose performer is a foreign key to a user.
-- - Dividends (src/modules/dividends/services/dividends.service.ts): Dividends/Snapshots is
--   createDistribution and processSnapshots, Claims claimDividend, Merkle the tree and its proofs,
--   Proofs getClaimProof and the worker of jobs/merkle-tree.processor.ts, and Interest
--   processInterestPayments.
-- - Dao (src/modules/dao/services/dao.service.ts): createProposal, vote, executeProposal and
--   finalizeProposals, and Dao/Snapshots processSnapshots.
-- - Settlement (src/modules/settlement/settlement.service.ts): processSettlements.
-- - Commissions (src/modules/commissions/commissions.processor.ts): the job of one commission.
-- - Kyc (src/modules/kyc/services/kyc.service.ts and jobs/kyc-approval.processor.ts), with
--   Kyc/MultiSig for src/shared/services/multisig.service.ts.
-- - Redemptions (src/modules/assets/services/redeem.service.ts): requestRedeem,
--   updateRedemptionStatus and completeRedemption, and the job that ends a redemption.
-- - Onboarding (src/modules/onboarding/services/onboarding.service.ts): createRequest, updateStatus and
--   tokenize, and the job finalize-mint of src/modules/assets/jobs/asset-blockchain.processor.ts.
-- - Auth (src/modules/auth/services): the tables of signing in, in a state of their own. Auth/Tokens is
--   token.service.ts, Otps otp.service.ts, Challenges mfa.service.ts, Web3 web3-auth.service.ts and
--   Accounts auth.service.ts. Times are in milliseconds.
-- - MarketData (src/modules/market-data/services/market-data.service.ts): recordTrade and
--   syncTradesToDB, with the queue of Redis as a list and its cache as entries that expire.
-- - Trading: the trading requests, one after the other.
-- - Tests: a small exchange on which the theorems are applied.
--
-- Bounds and fuel. Most loops run over a list. The layers of a Merkle tree and the pages of a
-- snapshot are loops on fuel, given as the number of leaves and one more than the number of wallets;
-- the theorems on them prove that this is enough. The retries of a
-- transaction are a number, and a list says which attempts meet a conflict of the database.
--
-- Decimals. A decimal is an integer, the number of units of the last place, and sums, differences and
-- comparisons are exact. decimal.js rounds its results to 20 significant digits, those of sums and
-- differences too, so that what is shown of sums holds of the program where no sum or difference has
-- more digits than that. Products and quotients are parameters (the record Arithmetic).
--
-- What is not modelled: failures of the connection to the database or to Redis outside a
-- transaction, but for the insert and the job of createOrder and the batch of syncTradesToDB, where
-- they are arguments; the unique columns of the transaction table on an insert; a quotient by zero,
-- which decimal.js gives as an infinity; the text of a decimal; the paged read of getOrders and
-- other reads for a reply; logging; the connections and timing of the queues; requests that
-- interleave, so that a theorem speaks of requests that run one after the other; adminSweepFunds of
-- payment.service.ts, which pages by a cursor on rows that it changes and so rests on how Prisma
-- reads one, and createWallet; the liquidation of an asset, whose upsert names a null in a unique
-- key; the hashes, the chain, encryption and signatures, which are parameters; the names, images
-- and texts of rows; the other modules of src/modules.
pub mod Prelude
pub mod Errors
pub mod Exec
pub mod Tables
pub mod Exchange
pub mod Users
pub mod Balances
pub mod Ledger
pub mod Payments
pub mod Dividends
pub mod Dao
pub mod Settlement
pub mod Commissions
pub mod Kyc
pub mod Redemptions
pub mod Onboarding
pub mod Orders
pub mod Matching
pub mod Auth
pub mod MarketData
pub mod Trading
pub mod Tests
