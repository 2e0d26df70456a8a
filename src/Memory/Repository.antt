-- ===== src/Memory/Repository.antt =====
-- src/eden/memory/repository.py: where durable records are kept. `InMemory` keeps them by their
-- namespace; `Jsonl` keeps a file for each namespace, which is the list of its lines. `encode` is
-- the line that `json.dumps` makes of a record, and `decode` the record that `json.loads` and
-- `from_dict` make of a line, or none where either raises. No call to the file system fails.
pub mod Paths
pub mod InMemory
pub mod Jsonl
pub mod Refines
