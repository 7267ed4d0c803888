-- ===== src/Memory/Episodic/Index.antt =====
-- What the tag index of `EpisodicMemory` (crates/oracle-automate-memory/src/lib.rs) finds, against the
-- plain list of the episodes recorded.
use mathlib.Core.List.{reverse-cons, append_assoc, append-nil}
use oracle_automate.Prelude.{
  ℕ, ◌≤◌, ◌<◌, String, ◌≡◌, ◌≢◌, refl, sym, inl, inr, true, Option, none, some, List, [], ◌∷◌, ◌++◌,
  reverse, length, length-append, get_elem?, get_elem?-append_length, get_elem?-append_left, take,
  keep_if, All, All-append, All-take, All-reverse, All-keep_if, arith, str_eq, eq_iff, string_Eq,
  Bool-cases, if◌then◌else◌,
}
use oracle_automate.Prelude.Map
use oracle_automate.Memory.Entry.{MemoryEntry}
use oracle_automate.Memory.Episodic.{
  EpisodicMemory, new_episodic, indices, index_tags, record_episode, cons_some, resolve,
  tenant_matches, visible_to, by_tag,
}

-- The episodes recorded, oldest first, each with its tags.
abbrev pub Episodes : Type 0
Episodes = List (MemoryEntry × List String)

unfoldable pub record_all : EpisodicMemory → Episodes → EpisodicMemory
record_all m [] = m
record_all m ((e, tags) ∷ es) = record_all (record_episode m e tags).1 es

-- An episode once for each time that it was given the tag.
abbrev pub copies : String → MemoryEntry → List String → List MemoryEntry
copies tag e [] = []
copies tag e (t ∷ ts) = if str_eq t tag then e ∷ copies tag e ts else copies tag e ts

abbrev pub tagged : String → Episodes → List MemoryEntry
tagged tag [] = []
tagged tag ((e, tags) ∷ es) = copies tag e tags ++ tagged tag es

-- The positions that the loop adds for a tag.
abbrev repeats : String → ℕ → List String → List ℕ
repeats tag idx [] = []
repeats tag idx (t ∷ ts) = if str_eq t tag then idx ∷ repeats tag idx ts else repeats tag idx ts

indices-insert :
    (t tag : String) (xs : List ℕ) (index : Map.Map String (List ℕ))
    → indices tag (Map.insert t xs index) ≡ (if str_eq t tag then xs else indices tag index)
indices-insert t tag xs index = rw Map.get-insert (ground arith)

indices-index_tags :
    (idx : ℕ) (ts : List String) (tag : String) (index : Map.Map String (List ℕ))
    → indices tag (index_tags idx ts index) ≡ indices tag index ++ repeats tag idx ts
unfolding index_tags
indices-index_tags idx [] tag index = sym (append-nil _)
indices-index_tags idx (t ∷ ts) tag index = elim (Bool-cases (str_eq t tag)) [
  | inl same ↦
      let e : t ≡ tag = (eq_iff t tag).0 same in
      rw
        (
          indices-index_tags idx ts tag (Map.insert t (indices t index ++ idx ∷ []) index),
          indices-insert,
          same,
          e,
        )
        (append_assoc (indices tag index) (idx ∷ []) (repeats tag idx ts))
  | inr other ↦ rw (
    indices-index_tags idx ts tag (Map.insert t (indices t index ++ idx ∷ []) index),
    indices-insert,
    other,
  )
]

resolve-append :
    (es : List MemoryEntry) (xs ys : List ℕ)
    → resolve es (xs ++ ys) ≡ resolve es xs ++ resolve es ys
resolve-append es [] ys = refl
resolve-append es (x ∷ xs) ys = ground (arith, resolve-append es xs ys)

reverse-cons_some :
    (o : Option MemoryEntry) (es : List MemoryEntry)
    → reverse es ++ cons_some o [] ≡ reverse (cons_some o es)
reverse-cons_some none es = append-nil (reverse es)
reverse-cons_some (some e) es = sym (reverse-cons e es)

resolve-reverse :
    (es : List MemoryEntry) (xs : List ℕ) → resolve es (reverse xs) ≡ reverse (resolve es xs)
resolve-reverse es [] = refl
resolve-reverse es (x ∷ xs) =
    rw (reverse-cons x xs, resolve-append es (reverse xs) (x ∷ []), resolve-reverse es xs)
      (reverse-cons_some (get_elem? es x) (resolve es xs))

-- Old positions mean the same entries after a push.
resolve-push :
    (es : List MemoryEntry) (e : MemoryEntry) (xs : List ℕ)
    → All (λ i. i < length es) xs
    → resolve (es ++ e ∷ []) xs ≡ resolve es xs
resolve-push es e [] h = refl
resolve-push es e (x ∷ xs) h =
    ground (arith, resolve-push es e xs h.1, get_elem?-append_left es (e ∷ []) x h.0)

resolve-repeats :
    (es : List MemoryEntry) (e : MemoryEntry) (tag : String) (ts : List String)
    → resolve (es ++ e ∷ []) (repeats tag (length es) ts) ≡ copies tag e ts
resolve-repeats es e tag [] = refl
resolve-repeats es e tag (t ∷ ts) =
    ground (arith, resolve-repeats es e tag ts, get_elem?-append_length es [] e)

abbrev pub Bounded : EpisodicMemory → Type 0
Bounded m = (tag : String) → All (λ i. i < length m.entries) (indices tag m.by_tag_index)

-- The index of the memory finds, for each tag, the episodes of `h` that carry it, in order.
pub record Finds (m : EpisodicMemory) (h : Episodes) : Type 0 where
  pub bounded : Bounded m
  pub found : (tag : String) → resolve m.entries (indices tag m.by_tag_index) ≡ tagged tag h

All-weaken : (n k : ℕ) (xs : List ℕ) → n ≤ k → All (λ i. i < n) xs → All (λ i. i < k) xs
All-weaken n k [] h a = tt
All-weaken n k (x ∷ xs) h a = (omega arith, All-weaken n k xs h a.1)

repeats_bounded :
    (tag : String) (idx n : ℕ) (ts : List String) → idx < n → All (λ i. i < n) (repeats tag idx ts)
repeats_bounded tag idx n [] h = tt
repeats_bounded tag idx n (t ∷ ts) h = ground (arith, repeats_bounded tag idx n ts h)

tagged-snoc :
    (tag : String) (h : Episodes) (e : MemoryEntry) (ts : List String)
    → tagged tag (h ++ (e, ts) ∷ []) ≡ tagged tag h ++ copies tag e ts
tagged-snoc tag [] e ts = append-nil (copies tag e ts)
tagged-snoc tag ((x, xs) ∷ h) e ts =
    rw (tagged-snoc tag h e ts)
      (sym (append_assoc (copies tag x xs) (tagged tag h) (copies tag e ts)))

record_episode-Finds :
    (m : EpisodicMemory) (h : Episodes) (e : MemoryEntry) (ts : List String)
    → Finds m h
    → Finds (record_episode m e ts).1 (h ++ (e, ts) ∷ [])
unfolding record_episode
record_episode-Finds m h e ts f = record {
  bounded = λ tag. rw (indices-index_tags (length m.entries) ts tag m.by_tag_index) (
      All-append (λ i. i < _) (indices tag m.by_tag_index) (repeats tag (length m.entries) ts)
        (All-weaken (length m.entries) _ (indices tag m.by_tag_index) grows (f.bounded tag))
        (repeats_bounded tag (length m.entries) _ ts grows_lt));
  found = λ tag.
      rw
        (
          indices-index_tags (length m.entries) ts tag m.by_tag_index,
          resolve-append (m.entries ++ e ∷ []) (indices tag m.by_tag_index)
              (repeats tag (length m.entries) ts),
          resolve-push m.entries e (indices tag m.by_tag_index) (f.bounded tag),
          resolve-repeats m.entries e tag ts,
          f.found tag,
        )
        (sym (tagged-snoc tag h e ts));
}
  where
    grows : length m.entries ≤ length (m.entries ++ e ∷ [])
    grows = omega (arith, length-append m.entries (e ∷ []))

    grows_lt : length m.entries < length (m.entries ++ e ∷ [])
    grows_lt = omega (arith, length-append m.entries (e ∷ []))

record_all-Finds :
    (es h : Episodes) (m : EpisodicMemory) → Finds m h → Finds (record_all m es) (h ++ es)
unfolding record_all
record_all-Finds [] h m f = rw append-nil f
record_all-Finds ((e, ts) ∷ es) h m f = rw (← append_assoc h ((e, ts) ∷ []) es) (
    record_all-Finds es (h ++ (e, ts) ∷ []) (record_episode m e ts).1
      (record_episode-Finds m h e ts f))

-- After any episodes recorded in a fresh memory, `by_tag` returns the newest `limit` of those that
-- carry the tag and that the tenant may see, oldest first, an episode as often as it was given the
-- tag.
pub by_tag-record_all :
    (es : Episodes) (tag : String) (tenant : Option String) (limit : ℕ)
    → by_tag (record_all new_episodic es) tag tenant limit
      ≡ reverse (take limit (keep_if (visible_to tenant) (reverse (tagged tag es))))
unfolding by_tag Map.get
by_tag-record_all es tag tenant limit =
    let f = record_all-Finds es [] new_episodic start in
    let m = record_all new_episodic es in
    rw (resolve-reverse m.entries (indices tag m.by_tag_index), f.found tag)
  where
    start : Finds new_episodic []
    start = record { bounded = λ t. tt; found = λ t. refl }

-- A tenant's lookup never returns another tenant's episode.
pub by_tag_tenancy :
    (m : EpisodicMemory) (tag tenant other : String) (limit : ℕ)
    → tenant ≢ other
    → All (λ e. e.tenant ≢ some other) (by_tag m tag (some tenant) limit)
unfolding by_tag tenant_matches
by_tag_tenancy m tag tenant other limit h =
    All-reverse (λ e. e.tenant ≢ some other) _
      (All-take (λ e. e.tenant ≢ some other) limit _
        (All-keep_if (λ e. e.tenant ≢ some other) (visible_to (some tenant)) hides _))
  where
    hides : (e : MemoryEntry) → visible_to (some tenant) e ≡ true → e.tenant ≢ some other
    hides e seen owned = ground (arith, eq_iff tenant other, h)
