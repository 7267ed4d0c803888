-- ===== src/Kb/Store/Dedup.antt =====
-- crates/oracle-automate-kb/src/store.rs: what the store holds although it skips texts that it knows.
use mathlib.Core.Path.{subst}
use oracle_automate.Prelude.{
  ◌≡◌, refl, sym, ap, ◌∙◌, Bool, Bool-cases, true, false, inl, inr, Option, none, some, List, [],
  ◌∷◌, All, String, str_eq, string_Eq, eq_iff, if◌then◌else◌,
}
use oracle_automate.Prelude.Map.{get, get-insert}
use oracle_automate.Text.Codes.{Codes}
use oracle_automate.Kb.Schema.{Document, Chunk}
use oracle_automate.Kb.Store.{
  InMemoryKb, UpsertBatch, insert_document, insert_documents, is_hash, skip, write, insert_chunk,
  insert_chunks, upsert, get_document, get_document_tree, tree_of_found,
}

abbrev pub text_of : Option Chunk → Option Codes
text_of none = none
text_of (some c) = some c.text

-- The text that the last chunk of a batch with an id brings, if there is one.
unfoldable pub last_text : String → List Chunk → Option Codes → Option Codes
last_text id [] old = old
last_text id (c ∷ cs) old = last_text id cs (if str_eq c.id id then some c.text else old)

abbrev hash_of : (Codes → String) → Option Chunk → Option String
hash_of sha256 none = none
hash_of sha256 (some c) = some (sha256 c.text)

hash_of-if :
    (sha256 : Codes → String) (b : Bool) (c : Chunk) (o : Option Chunk)
    → hash_of sha256 (if b then some c else o)
      ≡ (if b then some (sha256 c.text) else hash_of sha256 o)
hash_of-if sha256 true c o = refl
hash_of-if sha256 false c o = refl

text_of-if :
    (b : Bool) (c : Chunk) (o : Option Chunk)
    → text_of (if b then some c else o) ≡ (if b then some c.text else text_of o)
text_of-if true c o = refl
text_of-if false c o = refl

abbrev text_or : Chunk → Option Chunk → Codes
text_or c none = c.text
text_or c (some d) = d.text

-- The hash that is kept for an id is that of the stored text.
unfoldable pub IsConsistent : (Codes → String) → InMemoryKb → Type 0
IsConsistent sha256 kb =
    (id : String) → get id kb.content_hashes ≡ hash_of sha256 (get id kb.chunks)

-- Every text in the store satisfies `T`.
unfoldable pub Holds : (Codes → Type 0) → InMemoryKb → Type 0
Holds T kb = (id : String) (c : Chunk) → get id kb.chunks ≡ some c → T c.text

-- No two texts that satisfy `T` have the same hash.
unfoldable pub IsCollisionFree : (Codes → String) → (Codes → Type 0) → Type 0
IsCollisionFree sha256 T = (a b : Codes) → T a → T b → sha256 a ≡ sha256 b → a ≡ b

skip-Holds : (T : Codes → Type 0) (kb : InMemoryKb) → Holds T kb → Holds T (skip kb)
unfolding Holds
skip-Holds T kb held = held

module _ (sha256 : Codes → String) where
  pub insert_chunk-IsConsistent :
      (c : Chunk) (kb : InMemoryKb)
      → IsConsistent sha256 kb
      → IsConsistent sha256 (insert_chunk sha256 c kb)
  unfolding IsConsistent insert_chunk write
  insert_chunk-IsConsistent c kb w id =
      elim (Bool-cases (is_hash (get c.id kb.content_hashes) (sha256 c.text))) [
        | inl b ↦ rw b (w id)
        | inr b ↦
            rw
              (
                b,
                get-insert c.id id (sha256 c.text) kb.content_hashes,
                get-insert c.id id c kb.chunks,
                hash_of-if sha256 (str_eq c.id id) c (get id kb.chunks),
                w id,
              )
              refl
      ]

  -- A text that is skipped is the one that is stored.
  known_text :
      (T : Codes → Type 0) (c : Chunk) (o : Option Chunk)
      → IsCollisionFree sha256 T
      → T c.text
      → ((d : Chunk) → o ≡ some d → T d.text)
      → is_hash (hash_of sha256 o) (sha256 c.text) ≡ true
      → text_of o ≡ some c.text
  unfolding IsCollisionFree
  known_text T c none free t held h = absurd cc
  known_text T c (some d) free t held h =
      ap some (free d.text c.text (held d refl) t ((eq_iff (sha256 d.text) (sha256 c.text)).0 h))

  holds-if :
      (T : Codes → Type 0) (b : Bool) (c d : Chunk) (o : Option Chunk)
      → T c.text
      → (o ≡ some d → T d.text)
      → (if b then some c else o) ≡ some d
      → T d.text
  holds-if T true c d o t held at = subst (λ e. T (text_or c e)) at t
  holds-if T false c d o t held at = held at

  write-Holds :
      (T : Codes → Type 0) (hash : String) (c : Chunk) (kb : InMemoryKb)
      → T c.text
      → Holds T kb
      → Holds T (write hash c kb)
  unfolding Holds write
  write-Holds T hash c kb t held id d at =
      holds-if T (str_eq c.id id) c d (get id kb.chunks) t (held id d)
        (sym (get-insert c.id id c kb.chunks) ∙ at)

  pub insert_chunk-Holds :
      (T : Codes → Type 0) (c : Chunk) (kb : InMemoryKb)
      → T c.text
      → Holds T kb
      → Holds T (insert_chunk sha256 c kb)
  unfolding insert_chunk
  insert_chunk-Holds T c kb t held =
      elim (Bool-cases (is_hash (get c.id kb.content_hashes) (sha256 c.text))) [
        | inl b ↦ rw b (skip-Holds T kb held)
        | inr b ↦ rw b (write-Holds T (sha256 c.text) c kb t held)
      ]

  skipped_text :
      (T : Codes → Type 0) (c : Chunk) (kb : InMemoryKb) (id : String)
      → text_of (get c.id kb.chunks) ≡ some c.text
      → text_of (get id kb.chunks)
        ≡ (if str_eq c.id id then some c.text else text_of (get id kb.chunks))
  skipped_text T c kb id h = elim (Bool-cases (str_eq c.id id)) [
    | inl b ↦ rw b (subst (λ j. text_of (get j kb.chunks) ≡ some c.text) ((eq_iff c.id id).0 b) h)
    | inr b ↦ rw b refl
  ]

  text_of-insert_chunk :
      (T : Codes → Type 0) (c : Chunk) (kb : InMemoryKb) (id : String)
      → IsCollisionFree sha256 T
      → T c.text
      → Holds T kb
      → IsConsistent sha256 kb
      → text_of (get id (insert_chunk sha256 c kb).chunks)
        ≡ (if str_eq c.id id then some c.text else text_of (get id kb.chunks))
  unfolding Holds IsConsistent insert_chunk write
  text_of-insert_chunk T c kb id free t held w =
      elim (Bool-cases (is_hash (get c.id kb.content_hashes) (sha256 c.text))) [
        | inl b ↦ rw b (
            skipped_text T c kb id
              (known_text T c (get c.id kb.chunks) free t (held c.id) (rw (sym (w c.id)) b)))
        | inr b ↦
            rw (b, get-insert c.id id c kb.chunks)
              (text_of-if (str_eq c.id id) c (get id kb.chunks))
      ]

  -- After a list of chunks, the text under each id is that of the last of them with this id, and
  -- the one from before if there is none, when no two of the texts have the same hash.
  pub insert_chunks-last_text :
      (T : Codes → Type 0) (cs : List Chunk) (kb : InMemoryKb) (id : String)
      → IsCollisionFree sha256 T
      → All (λ c. T c.text) cs
      → Holds T kb
      → IsConsistent sha256 kb
      → text_of (get id (insert_chunks sha256 cs kb).chunks)
        ≡ last_text id cs (text_of (get id kb.chunks))
  unfolding insert_chunks last_text
  insert_chunks-last_text T [] kb id free t held w = refl
  insert_chunks-last_text T (c ∷ cs) kb id free t held w =
      insert_chunks-last_text T cs (insert_chunk sha256 c kb) id free t.1
        (insert_chunk-Holds T c kb t.0 held) (insert_chunk-IsConsistent c kb w)
      ∙ ap (last_text id cs) (text_of-insert_chunk T c kb id free t.0 held w)

insert_documents-chunks :
    (ds : List Document) (kb : InMemoryKb)
    → ((insert_documents ds kb).chunks ≡ kb.chunks)
      × ((insert_documents ds kb).content_hashes ≡ kb.content_hashes)
unfolding insert_documents
insert_documents-chunks [] kb = (refl, refl)
insert_documents-chunks (d ∷ ds) kb = insert_documents-chunks ds (insert_document d kb)

-- The document that the last of a list with an id brings, if there is one.
unfoldable pub last_document : String → List Document → Option Document → Option Document
last_document id [] old = old
last_document id (d ∷ ds) old = last_document id ds (if str_eq d.id id then some d else old)

insert_documents-last_document :
    (id : String) (ds : List Document) (kb : InMemoryKb)
    → get id (insert_documents ds kb).documents ≡ last_document id ds (get id kb.documents)
unfolding insert_documents insert_document last_document
insert_documents-last_document id [] kb = refl
insert_documents-last_document id (d ∷ ds) kb =
    insert_documents-last_document id ds (insert_document d kb)
    ∙ ap (last_document id ds) (get-insert d.id id d kb.documents)

insert_chunk-documents :
    (sha256 : Codes → String) (c : Chunk) (kb : InMemoryKb)
    → (insert_chunk sha256 c kb).documents ≡ kb.documents
unfolding insert_chunk write
insert_chunk-documents sha256 c kb =
    elim (Bool-cases (is_hash (get c.id kb.content_hashes) (sha256 c.text))) [
      | inl b ↦ rw b refl
      | inr b ↦ rw b refl
    ]

insert_chunks-documents :
    (sha256 : Codes → String) (cs : List Chunk) (kb : InMemoryKb)
    → (insert_chunks sha256 cs kb).documents ≡ kb.documents
unfolding insert_chunks
insert_chunks-documents sha256 [] kb = refl
insert_chunks-documents sha256 (c ∷ cs) kb =
    insert_chunks-documents sha256 cs (insert_chunk sha256 c kb)
    ∙ insert_chunk-documents sha256 c kb

-- After a batch, the tree under an id is that of the last document of the batch with this id, and
-- the one from before if there is none.
pub get_document_tree-upsert :
    (sha256 : Codes → String) (batch : UpsertBatch) (kb : InMemoryKb) (id : String)
    → get_document_tree id (upsert sha256 batch kb)
      ≡ tree_of_found (last_document id batch.documents (get_document id kb))
unfolding get_document_tree get_document upsert
get_document_tree-upsert sha256 batch kb id =
    ap (λ m. tree_of_found (get id m))
      (insert_chunks-documents sha256 batch.chunks (insert_documents batch.documents kb))
    ∙ ap tree_of_found (insert_documents-last_document id batch.documents kb)

-- After a batch, the text under a chunk's id is that of the last chunk of the batch with this id,
-- and the one from before if there is none, although texts with a known hash are skipped: in a
-- consistent store, when no two texts of the store and the batch have the same hash.
pub upsert-last_text :
    (sha256 : Codes → String) (T : Codes → Type 0) (batch : UpsertBatch) (kb : InMemoryKb)
    (id : String)
    → IsCollisionFree sha256 T
    → All (λ c. T c.text) batch.chunks
    → Holds T kb
    → IsConsistent sha256 kb
    → text_of (get id (upsert sha256 batch kb).chunks)
      ≡ last_text id batch.chunks (text_of (get id kb.chunks))
unfolding upsert Holds IsConsistent
upsert-last_text sha256 T batch kb id free t held w =
    let same = insert_documents-chunks batch.documents kb in
    insert_chunks-last_text sha256 T batch.chunks (insert_documents batch.documents kb) id free t
      (rw same.0 held) (rw (same.0, same.1) w)
    ∙ ap (λ m. last_text id batch.chunks (text_of (get id m))) same.0
