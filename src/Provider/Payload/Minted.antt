-- ===== src/Provider/Payload/Minted.antt =====
-- providers/duckbug/provider.go: `preparePayload` with the ids of `core.NewEventID`.
