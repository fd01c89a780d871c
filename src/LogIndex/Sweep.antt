-- ===== src/LogIndex/Sweep.antt =====
-- `LogIngestRepository.sweep_blobs` and what it calls: the blobs that nothing reaches are deleted.
-- A set is the list of its members, of which only membership is asked, and a dict of candidates is
-- an association list from addresses to ids.
pub mod Batches
mod Texts
mod Claim
mod Loop
mod Candidates
mod Deletion
pub mod References
pub mod Safety
pub mod Distinct
pub mod Exact
use claude_agent_wrap.Prelude.{
  ℕ, zero, suc, ◌+◌, Bool, true, false, not, Option, none, some, ◌>>=◌, List, [], ◌∷◌, ◌++◌, leb,
  length, take, drop, keep, sum_by, map, elem, if◌then◌else◌, nat_eq, Text, text_eq, text_beq,
}
use claude_agent_wrap.Prelude.Dict.{Dict, get, put, values}
use claude_agent_wrap.LogIndex.Codec.{Bytes, Codec, Zlib, decode, unpack_ids}
use claude_agent_wrap.LogIndex.Pointers.{find_pointers}

-- A row of `blobs`.
pub record Blob : Type 0 where
  pub id : ℕ
  pub sha256 : Bytes
  pub codec : Codec
  pub payload : Bytes

-- The columns of a row of `requests` that reach blobs.
pub record RequestRow : Type 0 where
  pub message_refs : Bytes
  pub system_blob : Option ℕ
  pub tools_blob : Option ℕ
  pub response_blob : Option ℕ
  pub error : Option Text

pub record Database : Type 0 where
  pub blobs : List Blob
  pub requests : List RequestRow

pub record BlobSweep : Type 0 where
  pub removed : ℕ
  pub freed_bytes : ℕ

abbrev pub Candidates : Type 0
Candidates = Dict Bytes ℕ

abbrev pub to_list {ℓ} : {A : Type ℓ} → Option A → List A
to_list none = []
to_list (some a) = a ∷ []

-- The ids that one request names. A vector that does not unpack raises: `none`.
unfoldable pub row_refs : RequestRow → Option (List ℕ)
unfolding unpack_ids
row_refs r = elim (unpack_ids r.message_refs) [
  | none ↦ none
  | some ids ↦
      some (ids ++ (to_list r.system_blob ++ (to_list r.tools_blob ++ to_list r.response_blob)))
]

-- `_referenced_blob_ids`
unfoldable pub referenced_blob_ids : List RequestRow → Option (List ℕ)
unfolding row_refs
referenced_blob_ids [] = some []
referenced_blob_ids (r ∷ rs) = elim (row_refs r) [
  | none ↦ none
  | some ids ↦ elim (referenced_blob_ids rs) [ none ↦ none | some rest ↦ some (ids ++ rest) ]
]

-- `_unreferenced_blobs`: the dict comprehension, row by row.
unfoldable pub unreferenced_from : List ℕ → Candidates → List Blob → Candidates
unreferenced_from reachable found [] = found
unreferenced_from reachable found (b ∷ bs) =
    unreferenced_from reachable (if elem b.id reachable then found else put b.sha256 b.id found) bs

unfoldable pub unreferenced_blobs : List ℕ → List Blob → Candidates
unfolding unreferenced_from
unreferenced_blobs reachable bs = unreferenced_from reachable [] bs

-- `candidates.pop(address, None)`: the dict without the address.
unfoldable pub without : Bytes → Candidates → Candidates
without a [] = []
without a ((k, i) ∷ c) = let rest = without a c in if text_beq k a then rest else (k, i) ∷ rest

-- The inner loop of `_claim`, over the pointers of one text: what is left, and what was reached.
unfoldable pub claim_pointers : List Bytes → Candidates → Candidates × List ℕ
unfolding without
claim_pointers [] c = (c, [])
claim_pointers (a ∷ as') c =
    let (left, reached) = claim_pointers as' (without a c) in (left, to_list (get a c) ++ reached)

-- `_claim`
unfoldable pub claim : List Text → Candidates → Candidates × List ℕ
unfolding claim_pointers find_pointers
claim [] c = (c, [])
claim (t ∷ ts) c =
    let (c', first) = claim_pointers (find_pointers t) c in
    let (left, reached) = claim ts c' in (left, first ++ reached)

-- `_error_texts`
unfoldable pub error_texts : List RequestRow → List Text
error_texts [] = []
error_texts (r ∷ rs) = to_list r.error ++ error_texts rs

-- `sorted` on ids.
unfoldable pub insert_id : ℕ → List ℕ → List ℕ
insert_id n [] = n ∷ []
insert_id n (m ∷ ms) = let rest = insert_id n ms in if leb n m then n ∷ m ∷ ms else m ∷ rest

unfoldable pub sorted : List ℕ → List ℕ
unfolding insert_id
sorted [] = []
sorted (n ∷ ns) = insert_id n (sorted ns)

-- `_batched`: slices of at most `size`, one for each start; `fuel` bounds their number.
unfoldable pub batches : {A : Type 0} → ℕ → ℕ → List A → List (List A)
batches zero size ns = []
batches (suc fuel) size [] = []
batches (suc fuel) size (n ∷ ns) =
    let more = batches fuel size (drop size (n ∷ ns)) in take size (n ∷ ns) ∷ more

abbrev pub max_query_parameters : ℕ
max_query_parameters = 5000

unfoldable pub batched : {A : Type 0} → List A → List (List A)
unfolding batches
batched ns = batches (length ns) max_query_parameters ns

-- `SELECT … FROM blobs WHERE id IN (batch)`
abbrev pub select : List Blob → List ℕ → List Blob
select blobs batch = keep (λ b. elem b.id batch) blobs

-- `zlib`, and `bytes.decode("utf-8", errors="replace")`.
pub record Runtime : Type 0 where
  pub zlib : Zlib
  pub decode_utf8 : Bytes → Text

module _ (rt : Runtime) where
  unfoldable pub text_of : Blob → Option Text
  unfolding decode
  text_of b = do payload ← decode rt.zlib b.codec b.payload; some (rt.decode_utf8 payload)

  unfoldable pub texts_of_rows : List Blob → Option (List Text)
  unfolding text_of
  texts_of_rows [] = some []
  texts_of_rows (b ∷ bs) = do t ← text_of b; ts ← texts_of_rows bs; some (t ∷ ts)

  -- `_blob_texts`, batch by batch; its consumer reads all of it. A payload that does not
  -- decompress raises: `none`.
  unfoldable pub texts_of_batches : List Blob → List (List ℕ) → Option (List Text)
  unfolding texts_of_rows
  texts_of_batches blobs [] = some []
  texts_of_batches blobs (batch ∷ more) = do
    ts ← texts_of_rows (select blobs batch)
    rest ← texts_of_batches blobs more
    some (ts ++ rest)

  abbrev pub blob_texts : List Blob → List ℕ → Option (List Text)
  blob_texts blobs ids = texts_of_batches blobs (batched ids)

  -- The `while` loop of `_follow_pointers`; `none` is an exception, or that the fuel ran out.
  unfoldable pub follow : List Blob → ℕ → List ℕ → Candidates → Option Candidates
  unfolding claim texts_of_batches batched sorted
  follow blobs zero frontier candidates = none
  follow blobs (suc fuel) [] candidates = some candidates
  follow blobs (suc fuel) (i ∷ frontier) [] = some []
  follow blobs (suc fuel) (i ∷ frontier) (e ∷ candidates) = do
    texts ← blob_texts blobs (sorted (i ∷ frontier))
    follow blobs fuel (claim texts (e ∷ candidates)).1 (claim texts (e ∷ candidates)).0

  -- `_follow_pointers`: every round that reaches something removes a candidate, so one round more
  -- than there are candidates is fuel enough.
  unfoldable pub follow_pointers : Database → List ℕ → Candidates → Option Candidates
  unfolding follow error_texts
  follow_pointers db reachable candidates =
      let (first, by_error) = claim (error_texts db.requests) candidates in
      blob_texts db.blobs (sorted reachable) >>= λ texts.
      let (left, by_text) = claim texts first in
      follow db.blobs (suc (length left)) (by_error ++ by_text) left

-- `_delete_blobs`: the blobs that stay, and the payload bytes that go, batch by batch.
unfoldable pub delete_batches : List Blob → List (List ℕ) → List Blob × ℕ
delete_batches blobs [] = (blobs, 0)
delete_batches blobs (batch ∷ more) =
    let freed = sum_by (λ b. length b.payload) (select blobs batch) in
    let (kept, rest) = delete_batches (keep (λ b. not (elem b.id batch)) blobs) more in
    (kept, freed + rest)

-- What a sweep does once the doomed ids are known.
unfoldable pub delete_doomed : Database → List ℕ → Database × BlobSweep
unfolding delete_batches batched
delete_doomed db [] = (db, record { removed = 0; freed_bytes = 0 })
delete_doomed db (i ∷ doomed) =
    let (kept, freed) = delete_batches db.blobs (batched (i ∷ doomed)) in
    (record db { blobs = kept }, record { removed = length (i ∷ doomed); freed_bytes = freed })

-- `none` stands for a reference vector that does not unpack, a payload that does not decompress,
-- or a loop out of fuel.
unfoldable pub sweep_blobs : Runtime → Database → Option (Database × BlobSweep)
unfolding referenced_blob_ids unreferenced_blobs follow_pointers delete_doomed sorted
sweep_blobs rt db = elim (referenced_blob_ids db.requests) [
  | none ↦ none
  | some reachable ↦
      elim (follow_pointers rt db reachable (unreferenced_blobs reachable db.blobs)) [
        | none ↦ none
        | some candidates ↦ some (delete_doomed db (sorted (values candidates)))
      ]
]
