-- ===== src/Reader/Ingests.antt =====
-- On `_ingest_session`: a pass over a session, from the tables as they are.
