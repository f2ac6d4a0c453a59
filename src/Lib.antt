-- ===== src/Lib.antt =====
-- GlukVPN: the browser gateway, the server choice and routing of the browser extension, and the
-- sessions, plans and routes of the control server.
--
-- The extension (glukvpn-extension-1.5.0/extension) chooses a node, asks the control server for a
-- session and points the browser's proxy settings at that node. There the browser gateway
-- (glukvpn-extension-1.5.0/server/glukvpn-browser-proxy/src/server.js, "server.js" below) checks the
-- credentials of each request with the control server, limits what a device may do, dials the
-- target and counts the bytes. The control server (control-server/src) decides who may connect where
-- and how fast, keeps sessions and tunnel addresses, and queues commands for the node agents, whose
-- answers drive the states of a session.
--
-- Common                 names, Boolean tests, lists, string maps and texts that the others share
-- Gateway.Config         the settings of server.js and their clamps
-- Gateway.State          the module-level variables of server.js as one record, Gateway: stats,
--                        userStats, totals, shapers, authCache, tokenApi, the cutoffs, liveTunnels;
--                        `boot` is the state at the start
-- Gateway.Counters       the counters of devices and users
-- Gateway.Credentials    parseBasic, extractUserId
-- Gateway.ControlPlane   what a control server answers, as the fields that verifyWith reads of it
-- Gateway.Auth           verifyWith, verifyFresh, verify, authCleanupTimer; Auth.Verdicts, Auth.Cache
--                        and Auth.Identity are about them
-- Gateway.Shaping        TokenBucket, shaperFor, shaperCleanupTimer; Shaping.Bounds, Shaping.Waiting
-- Gateway.Target         the block list, resolveTarget
-- Gateway.Connect        handleConnect up to net.connect; Connect.Admission
-- Gateway.Tunnels        the events of an admitted tunnel: connected, data both ways, close;
--                        Tunnels.Counting
-- Gateway.Requests       handleControl, handleRequest, reportToControlPlane, flushStatsToControlPlane
-- Gateway.Revalidation   revalidateLiveTunnels and the shutdown; Revalidation.Closing
-- Gateway.System         the turns of the event loop as a step relation; System.Keeping and
--                        System.Reachable are about its reachable states, System.Overrun about two
--                        requests at once
-- Gateway.Tests          runs at concrete inputs
-- Extension.Pick         pickNode, bestNode and the scores (glukvpn-extension-1.5.0/extension/lib/pick.js)
--                        Pick.Best is about the automatic choice, Pick.Fallback about the wanted one
-- Extension.Tests        runs at concrete inputs
-- Extension.Pac          cleanHostRule, alwaysDirect, buildPac (extension/lib/proxy.js)
-- Extension.Pac.Script   FindProxyForURL of the script that buildPac writes; Pac.Rules and Pac.Direct
--                        are about it
-- Extension.Pac.Layers   ProxyEngine.apply and clear
-- Extension.Destination  pickNode and gatewayFor of extension/background.js
-- Extension.Store        normaliseList and mergeSettings (extension/lib/store.js); Store.Repair
-- Server.Ip              lib/ip.ts; Ip.Print and Ip.Pool are about it
-- Server.Store           the tables of users, devices, nodes, sessions, addresses and commands
-- Server.Results         chains of checks
-- Server.Nodes           services/nodes.ts and pickNode of services/sessions.ts
-- Server.Admission       ensureIpPool and createSessionWithLease; Admission.Gate, Admission.Opened
--                        and Admission.Capacity are about what it lets through and writes
-- Server.Commands        services/nodeCommands.ts and the acknowledgement of routes/node.ts
-- Server.Sessions        closeSession and its callers, connectSession, closeSessionsInTransaction,
--                        the maintenance switches, the monitor's reclaiming of addresses
-- Server.Monitor         the closing of sessions in the tick of services/monitor.ts; Monitor.Closed
-- Server.Lifecycle       any order of these as a step relation; Lifecycle.Sound is the invariant,
--                        Leases, Closing, Switches, Opening, Delivering and Answering keep it,
--                        Reachable draws its consequences, Repeated is about an answer that is
--                        given twice
-- Server.Speed           the gateway that a client is sent to; Speed.Tiers, Speed.Choice
-- Server.Routes          services/tunnelRoutes.ts; Routes.Blocks, Routes.Holes and
--                        Routes.Excluded are about the routes around ranges, Routes.Read and
--                        Routes.Named about exclusions that are texts
-- Server.Entitlements    services/entitlements.ts; Entitlements.Window, Entitlements.Best
-- Server.Quota           services/quota.ts; Quota.Enforced
-- Server.Promo           services/promo.ts; Promo.Discount, Promo.Redeemed
-- Server.Tokens          services/tokens.ts; Tokens.Rotated is about an exchange, Tokens.Reused and
--                        Tokens.Lookups about a secret that is offered again, Tokens.History has
--                        any order of the calls as steps, Tokens.Stolen, Tokens.SignedOut and
--                        Tokens.Ended are about tokens that end for good
-- Server.Link            services/linkAuth.ts, the client's side in Link.Poll; Link.Traces has its
--                        statements in any interleaving, Link.Yields, Link.Sound, Link.Kept,
--                        Link.Once, Link.Handed, Link.Written, Link.Granted and Link.Purged are
--                        about them
-- Server.Orders          the grants and the orders of services/billing.ts, what the gateways report
--                        in Orders.Events, what an order charges in Orders.Pricing (services/pricing.ts
--                        too) and createOrder in Orders.Create; Orders.Charged, Orders.Verdicts,
--                        Orders.Placed and Orders.Sent are about these, Orders.Granted and
--                        Orders.Running are about a grant,
--                        Orders.Paid, Orders.Again and Orders.Delivered about a settlement and its
--                        repetition; Orders.Traces has the statements in any interleaving,
--                        Orders.Once and Orders.Handled are about them
-- Server.Throttle        services/loginThrottle.ts; Throttle.Cleared
-- Server.Tests           runs at concrete inputs
--
-- The gateway's code is single-threaded: between two waits it runs alone. A handler is cut at its
-- waits, each part is a function of the state, and a step runs one part. So one CONNECT request is
-- an admission, then `connected` when the dial succeeds, data events, and `close`; steps of other
-- requests and of the timers may come between any two of them.
--
-- In the control server a handler runs without another between its statements, which its locks and
-- transactions give within a transaction and the database does not promise between two of them.
-- For orders and for the sign-in by link the statements of the handlers are steps of their own, since
-- there the code relies on conditional updates: a step acts on a row as some handler read it
-- before. The write of a failed checkout, which has no condition, is a step too, on any order.
-- The id of a row is its position in its table, and texts are ordered by their code points. Codes,
-- texts of the configuration and addresses are lists of code points, numbers in them decimal digits.
-- The loops over an address range and over the alignment of an address run on fuel: as many rounds
-- as the range has addresses, and 32.
--
-- Parameters stand for what the repository does not contain: Runtime (SHA-256, base64, the payload
-- of a token), Net (net.isIP, dns.lookup, Number on a port), the URL parser, and an Exchange, which
-- gives for each control server and token the reply or the failure of fetch; in the extension,
-- Browser (isPlainHostName, shExpMatch) and which layers of the proxy settings may be written. Nothing
-- is assumed of them. Times are milliseconds, and a clock is an argument of each part that reads it.
--
-- Numbers are natural numbers; byte counters have no bound, as JavaScript's numbers are exact below
-- 2 ^ 53. The tokens of a bucket are exact thousandths of a byte. The loop of TokenBucket.take runs on
-- fuel, and what the other connections of the device do to its bucket meanwhile is a parameter: two
-- rounds more than the bytes to be paid are enough where they leave it a byte at each waking. The
-- other loops are structural.
--
-- Not modelled: Node's streams (pipeThrottled, the relaying of an HTTP response), logging and start
-- of the servers; sockets are known by the number of their tunnel. Of environment variables the
-- cases "unset" and "a natural number" are covered, lower case is ASCII's, and scores of nodes are
-- exact fractions where the code rounds. The second attempt of a report is left out. The rest of the
-- extension's service worker, its calls of the browser's storage, the rest of the control server (the
-- payment adapters and the trial, accounts and verification, policies and usage, Telegram and mail, the
-- routes' validation),
-- the node agent and the clients in other languages are outside this library.
pub mod Common
pub mod Gateway
pub mod Extension
pub mod Server
