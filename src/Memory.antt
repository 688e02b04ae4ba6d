-- ===== src/Memory.antt =====
-- ron/memory: long-term memory. Its records and the table that lists them, of ron/memory/models.py and
-- ron/memory/catalog.py. How the database compares a summary with a text is an argument.
pub mod Service
pub mod Dialogue
use Prim.Native.String
use Prim.Native.Nat.{Ordering}
use ron_personal_assistant.Prelude.{
  ℕ, ◌+◌, String, count, Bool, true, false, ◌&&◌, ◌||◌, not, Option, none, some, List, [], ◌∷◌, ltb,
  leb, ◌==◌, if◌then◌else◌, is_truthy, strip, squeeze, str_eq, take, length, keep, any,
}
use ron_personal_assistant.Prelude.Dict.{Dict, text_key, get, put, remove}

pub data MemoryKind : Type 0 where
  conversation knowledge person project experience : MemoryKind

-- A value of a record's metadata.
pub data Metadatum : Type 0 where
  text : String → Metadatum
  texts : List String → Metadatum

pub record MemoryRecord : Type 0 where
  pub memory_id : String
  pub kind : MemoryKind
  pub summary : String
  pub relative_path : String
  pub created_utc : String
  pub project : Option String
  pub importance : ℕ
  pub queued : Bool
  pub sha256 : String
  pub metadata : Dict String Metadatum

pub record RecalledMemory : Type 0 where
  pub record_of : MemoryRecord
  pub content : String
  pub full_content_available : Bool

abbrev pub kind_text : MemoryKind → String
kind_text conversation = "conversation"
kind_text knowledge = "knowledge"
kind_text person = "person"
kind_text project = "project"
kind_text experience = "experience"

-- The table `memories`, by its primary key.
abbrev pub MemoryCatalog : Type 0
MemoryCatalog = Dict String MemoryRecord

-- `relative_path` is UNIQUE.
unfoldable pub path_taken : MemoryCatalog → MemoryRecord → Bool
path_taken [] r = false
path_taken ((memory_id, other) ∷ rows) r =
    (str_eq other.relative_path r.relative_path && not (str_eq memory_id r.memory_id))
    || path_taken rows r

abbrev pub dated : MemoryRecord → Option MemoryRecord → MemoryRecord
dated r none = r
dated r (some old) = record r { created_utc = old.created_utc }

-- `upsert_memory`; `none` is the database's error. A row that is there keeps its date.
unfoldable pub upsert_memory : MemoryCatalog → MemoryRecord → Option MemoryCatalog
upsert_memory rows r =
    if path_taken rows r then none else some (put rows r.memory_id (dated r (get rows r.memory_id)))

-- `delete_memory`
unfoldable pub delete_memory : MemoryCatalog → String → MemoryCatalog
delete_memory rows memory_id = remove rows memory_id

-- `set_memory_queued`
unfoldable pub set_memory_queued : MemoryCatalog → String → Bool → MemoryCatalog
set_memory_queued [] path queued = []
set_memory_queued ((memory_id, r) ∷ rows) path queued =
    (memory_id, if str_eq r.relative_path path then record r { queued = queued } else r)
    ∷ set_memory_queued rows path queued

-- All rows.
unfoldable pub all_rows : MemoryCatalog → List MemoryRecord
all_rows [] = []
all_rows ((_, r) ∷ rows) = r ∷ all_rows rows

-- What the database and the standard library make of texts: `casefold`, the search tokens of a query,
-- `LOWER(summary) LIKE '%token%'`, `LOWER(memory_id) LIKE 'prefix%'` and
-- `LOWER(TRIM(summary, ' .!?'))`.
pub record Texts : Type 0 where
  pub casefold : String → String
  pub search_tokens : String → List String
  pub like : String → String → Bool
  pub has_prefix : String → String → Bool
  pub exact_key : String → String
  -- `text.strip(" .!?")`
  pub strip_marks : String → String
  -- `[0-9a-f]+`
  pub is_hexadecimal : String → Bool

abbrev same_kind : MemoryKind → MemoryKind → Bool
same_kind a b = str_eq (kind_text a) (kind_text b)

-- `_filters`
unfoldable pub passes : List MemoryKind → ℕ → MemoryRecord → Bool
passes kinds min_importance r =
    (length kinds == 0 || any (same_kind r.kind) kinds) && leb min_importance r.importance

-- `ORDER BY`: a row before those that do not come before it.
unfoldable pub insert_row :
    (MemoryRecord → MemoryRecord → Bool) → MemoryRecord → List MemoryRecord → List MemoryRecord
insert_row before r [] = r ∷ []
insert_row before r (x ∷ xs) =
    let rest = insert_row before r xs in if before x r then x ∷ rest else r ∷ x ∷ xs

unfoldable pub order_by :
    (MemoryRecord → MemoryRecord → Bool) → List MemoryRecord → List MemoryRecord
unfolding insert_row
order_by before [] = []
order_by before (r ∷ rs) = insert_row before r (order_by before rs)

abbrev text_after : String → String → Bool
text_after a b = elim (String.compare a b) [ Ordering.gt ↦ true | _ ↦ false ]

abbrev newer : MemoryRecord → MemoryRecord → Bool
newer a b = text_after a.created_utc b.created_utc

-- `recent_memories`
unfoldable pub recent_memories : MemoryCatalog → ℕ → List MemoryKind → ℕ → List MemoryRecord
unfolding all_rows order_by passes
recent_memories rows limit kinds min_importance =
    take limit (order_by newer (keep (passes kinds min_importance) (all_rows rows)))

module _ (db : Texts) where
  score : List String → MemoryRecord → ℕ
  score [] r = 0
  score (token ∷ tokens) r = (if db.like token r.summary then 1 else 0) + score tokens r

  better : List String → MemoryRecord → MemoryRecord → Bool
  unfolding score
  better tokens a b =
      ltb (score tokens b) (score tokens a)
      || (score tokens a == score tokens b
          && (ltb b.importance a.importance || (a.importance == b.importance && newer a b)))

  -- `search`
  unfoldable pub search_rows :
      MemoryCatalog → String → ℕ → List MemoryKind → ℕ → Bool → List MemoryRecord
  unfolding better all_rows order_by passes
  search_rows rows query limit kinds min_importance fallback_recent =
      elim (db.search_tokens query) [
        | [] ↦ if fallback_recent then recent_memories rows limit kinds min_importance else []
        | token ∷ tokens ↦ take limit (
            order_by (better (token ∷ tokens)) (
              keep
                (λ r.
                  any (λ t. db.like t r.summary) (token ∷ tokens) && passes kinds min_importance r)
                (all_rows rows)))
      ]

  -- `get_memory_by_prefix`
  unfoldable pub get_memory_by_prefix : MemoryCatalog → String → Option MemoryRecord
  unfolding all_rows
  get_memory_by_prefix rows prefix =
      let clean = db.casefold (strip prefix) in
      if ltb (count clean) 6 || not (db.is_hexadecimal clean)
      then none
      else elim (keep (λ r. db.has_prefix clean r.memory_id) (all_rows rows)) [
        | r ∷ [] ↦ some r
        | _ ↦ none
      ]

  abbrev greater : MemoryRecord → Option MemoryRecord → MemoryRecord
  greater r none = r
  greater r (some other) = if ltb r.importance other.importance then other else r

  most_important : String → List MemoryRecord → Option MemoryRecord
  most_important key [] = none
  most_important key (r ∷ rs) =
      let rest = most_important key rs in
      if str_eq (db.exact_key r.summary) key then some (greater r rest) else rest

  -- `find_exact_summary`
  unfoldable pub find_exact_summary : MemoryCatalog → String → Option MemoryRecord
  unfolding most_important all_rows
  find_exact_summary rows summary =
      let clean = db.strip_marks (db.casefold (squeeze summary)) in
      if not (is_truthy clean) then none else most_important clean (all_rows rows)
