-- ===== src/Server/Orders/Delivered.antt =====
-- A webhook that is delivered again: `handleTabpayEvent` of
-- control-server/src/services/billing.ts.
