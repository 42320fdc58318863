-- ===== src/Lib.antt =====
-- SolArch: the payment and licensing backend under apps/api, which sells archives of files for USDC
-- on Solana and leases each bought archive to one device.
--
-- A buyer creates a payment intent (createPaymentIntent), asks for its one payable transaction
-- (buildTransaction), signs and sends it, and has it verified on the chain (verifyPayment), which
-- records a payment and an entitlement. The entitlement is activated on the buyer's device
-- (activateDevice), and the license is renewed from then on (refreshLicense). All of them work on one
-- database through Prisma.
--
-- The files:
--   Db           the tables of apps/api/prisma/schema.prisma as association lists by id;
--                Db/Writes and Db/Leases are the calls of the Prisma client, each with the unique
--                indices, checks, foreign keys and triggers of apps/api/prisma/migrations that refuse it
--   Action       a handler: from the database to a result and the database after it. A throw keeps what
--                was written before it, except inside `transaction`, which is prisma.$transaction;
--                Action/Keeps, Action/Returns and Action/Rollback carry the rules for proofs
--   Failure      the exceptions of the services, by their codes
--   Platform     what the repository does not implement, as records of functions: web3.js, spl-token, bs58,
--                Buffer, crypto, HPKE, tweetnacl, canonicalize; Platform/Chain is what a Solana node answers
--   Crypto       apps/api/src/crypto and apps/api/src/modules/uploads/ack-custody.service.ts: device keys,
--                credentials, the wrapping of content keys, the signature of a license
--   Payments     apps/api/src/modules/payments/payments.service.ts: Economics (the 95/5 split), Checks (the
--                private checks), Create, Issue (buildTransaction), Evidence (the checklist on a landed
--                transaction), Commit (the transaction that records a purchase), Verify; Ledger is the
--                invariant of the purchase records, and Ledger/History the interleavings of all writes
--   Licensing    apps/api/src/modules/licensing/licensing.service.ts: Request (the checks of a request),
--                Authority (assertEntitlementAuthority and its neighbours), Seal (payload, wrapped key and
--                signature), Activate, Refresh
--   Uploads      apps/api/src/modules/uploads/uploads.service.ts: Owned (init, setUploadedFile, cancel),
--                Scan (the inspection of a ZIP), Complete, and Handlers, the requests of the controller;
--                Db/Contents holds its writes, Frozen and Completed its theorems
--   Archives     apps/api/src/modules/archives/archives.service.ts: Price (calculateEconomics and the answer of
--                formatCreatorArchive), Ata (isAtaReady and its cache), Manage (create, update, publish,
--                unpublish, blockArchive and the reads), Handlers; the other files are its theorems
--   Auth         apps/api/src/modules/auth/auth.service.ts: Login, with the wallet's signature of
--                apps/api/src/crypto/ed25519.util.ts; Challenge holds its theorems
--   Marketplace  apps/api/src/modules/marketplace/marketplace.service.ts (Pages, Views) and
--                apps/api/src/modules/analytics/analytics.service.ts (Revenue); their visitor events, challenges
--                and tokens are states of their own beside the database
--   Web          apps/web/src/lib: Base58 (solana-address.ts), Redirect (auth/redirect.ts), UploadFiles
--                (upload-files.ts), Files (files.ts), Money (money.ts)
--   Samples      test data; the modules called Tests evaluate on it
--
-- Numbers and bounds: natural numbers throughout. A price is its number of hundredths of a USDC, and
-- `Math.round` of doubles is exact on it while the units stay below 2 ^ 51. Times are milliseconds.
-- `toFixed(2)` is written out on 53-bit doubles; its 80 doublings reach 2 ^ 52 for every amount that
-- is not zero. The amount that a creator enters is a double, a mantissa over a power of two; 80 halvings
-- bring its product with a million back to 53 bits. The decimal text of a number has fuel for one digit
-- more than the number itself, which has no more digits than that. Nothing else runs on fuel. Texts are
-- lists of characters, of the Basic Multilingual Plane where the source counts UTF-16 units.
--
-- One request sees one `Chain`: the answers of the node while it runs, about which nothing is assumed.
-- Row locks are not modelled: a transaction is one step, and the writes that verifyPayment makes outside
-- its transaction are single steps between which any other step may come (Payments/Ledger/History).
-- A request of the uploads service is one step (Uploads/Handlers): what comes between two of its awaits
-- is not represented, but for the late end of a complete (Uploads/Frozen/Overtaken). A request of the
-- marketplace is taken apart at its write (Marketplace/Views/Traffic). The requests of the archives and
-- the licensing services are one step each. A page or a limit with a fraction is not represented.
--
-- Foreign keys that the schema guarantees are not proved; a missing row is the error that it would raise.
--
-- Not modelled: the archive builder's process, covers; the routes and
-- components of the web application, the viewer, the Rust crates; logging, routing, start-up; random
-- draws, which are arguments; errors of the file system other than a missing file; the JSON texts of
-- responses, the Solana Pay URL, and the columns that no modelled code reads.
pub mod Prelude
pub mod Table
pub mod Failure
pub mod Db
pub mod Action
pub mod Platform
pub mod Crypto
pub mod Payments
pub mod Licensing
pub mod Uploads
pub mod Archives
pub mod Auth
pub mod Marketplace
pub mod Web
pub mod Samples
