-- ===== src/Kb/Store.antt =====
-- crates/oracle-automate-kb/src/store.rs: the store in memory. One lock after the other is taken and
-- released inside an operation, so that a call is one step on the whole state. The texts' SHA-256 is
-- `sha256`, an argument.
pub mod Dedup
use oracle_automate.Prelude.{
  ℕ, ◌+◌, ◌%◌, ◌^◌, String, Bool, true, false, Option, none, some, List, [], ◌∷◌, length, str_eq,
  string_Eq, if◌then◌else◌,
}
use oracle_automate.Prelude.Map.{Map, get, insert}
use oracle_automate.Text.Codes.{Codes}
use oracle_automate.Kb.Schema.{Document, Chunk}
use oracle_automate.Kb.Tree.{DocumentTree}
use oracle_automate.Kb.DocTree.{build_document_tree}

pub record UpsertBatch : Type 0 where
  pub documents : List Document
  pub chunks : List Chunk

-- The counters are u64.
pub record UpsertStats : Type 0 where
  pub chunks_written : ℕ
  pub chunks_dedup_skipped : ℕ
  pub documents_written : ℕ

pub record InMemoryKb : Type 0 where
  pub documents : Map String Document
  pub chunks : Map String Chunk
  pub content_hashes : Map String String
  pub stats : UpsertStats

abbrev pub new_kb : InMemoryKb
new_kb = record {
  documents = [];
  chunks = [];
  content_hashes = [];
  stats = record { chunks_written = 0; chunks_dedup_skipped = 0; documents_written = 0 };
}

abbrev next : ℕ → ℕ
next n = (n + 1) % 2 ^ 64

unfoldable pub insert_document : Document → InMemoryKb → InMemoryKb
unfolding insert
insert_document doc kb = record kb {
  documents = insert doc.id doc kb.documents;
  stats = record kb.stats { documents_written = next kb.stats.documents_written };
}

-- `is_some_and(|h| h == &hash)`
abbrev pub is_hash : Option String → String → Bool
is_hash none hash = false
is_hash (some h) hash = str_eq h hash

abbrev skip : InMemoryKb → InMemoryKb
skip kb = record kb {
  stats = record kb.stats { chunks_dedup_skipped = next kb.stats.chunks_dedup_skipped };
}

write : String → Chunk → InMemoryKb → InMemoryKb
unfolding insert
write hash chunk kb = record kb {
  content_hashes = insert chunk.id hash kb.content_hashes;
  chunks = insert chunk.id chunk kb.chunks;
  stats = record kb.stats { chunks_written = next kb.stats.chunks_written };
}

module _ (sha256 : Codes → String) where
  unfoldable pub insert_chunk : Chunk → InMemoryKb → InMemoryKb
  unfolding get write
  insert_chunk chunk kb =
      let hash = sha256 chunk.text in
      if is_hash (get chunk.id kb.content_hashes) hash then skip kb else write hash chunk kb

  unfoldable pub insert_chunks : List Chunk → InMemoryKb → InMemoryKb
  unfolding insert_chunk
  insert_chunks [] kb = kb
  insert_chunks (c ∷ cs) kb = insert_chunks cs (insert_chunk c kb)

unfoldable pub insert_documents : List Document → InMemoryKb → InMemoryKb
unfolding insert_document
insert_documents [] kb = kb
insert_documents (d ∷ ds) kb = insert_documents ds (insert_document d kb)

unfoldable pub upsert : (Codes → String) → UpsertBatch → InMemoryKb → InMemoryKb
unfolding insert_chunks insert_documents
upsert sha256 batch kb = insert_chunks sha256 batch.chunks (insert_documents batch.documents kb)

unfoldable pub get_document : String → InMemoryKb → Option Document
unfolding get
get_document id kb = get id kb.documents

unfoldable pub chunk_count : InMemoryKb → ℕ
chunk_count kb = length kb.chunks

abbrev pub tree_of_found : Option Document → Option DocumentTree
tree_of_found none = none
tree_of_found (some doc) = some (build_document_tree doc)

unfoldable pub get_document_tree : String → InMemoryKb → Option DocumentTree
unfolding get_document
get_document_tree id kb = tree_of_found (get_document id kb)
