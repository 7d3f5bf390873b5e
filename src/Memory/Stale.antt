-- ===== src/Memory/Stale.antt =====
-- Optimistic concurrency of the memory service: `expected_version` after another change.
use gnomon.Prelude.{◌≡◌, some}
use gnomon.Memory.Model.{MemoryChange, KnowledgeRecord, MemoryDb}
use gnomon.Memory.Records.{get_record, version_of}

-- The record that a change is about stands under the version of the change.
record IsCurrent (c : MemoryChange) (db : MemoryDb) : Type 0 where
  row : KnowledgeRecord
  found : get_record c.target_type c.target_id db ≡ some row
  version : version_of row ≡ c.version
