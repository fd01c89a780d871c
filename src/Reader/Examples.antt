-- ===== src/Reader/Examples.antt =====
-- Runs of the reader on small files, with stand-ins for what the runtime implements.
use claude_agent_wrap.Prelude.{
  Bool, ◌&&◌, Option, ◌≢◌, inl, inr, ap, subst, drop, In, ℕ, zero, suc, ◌≡◌, refl, true, false, not,
  none, some, List, [], ◌∷◌, eqb, keep, length, codes, if◌then◌else◌, arith, elem, text_beq,
  text_eq, nat_eq,
}
use claude_agent_wrap.Listing.Sessions.{SessionKey, sort_by}
use claude_agent_wrap.LogIndex.Codec.{Bytes}
use claude_agent_wrap.LogIndex.Ingest.{IngestChunk, session_state}
use claude_agent_wrap.LogIndex.Ingest.Storable.{is_storable}
use claude_agent_wrap.LogIndex.Ingest.History.{empty_store}
use claude_agent_wrap.Reader.Json.{str, obj, Fields, end, field, Runtime, truthy}
use claude_agent_wrap.Reader.Records.{has_key}
use claude_agent_wrap.Reader.Chunks.{
  Limits, chunk_limits, split_lines, is_complete, record_of, read_ingest_chunks,
}
use claude_agent_wrap.Reader.Ready.{AreReady}
use claude_agent_wrap.Reader.Passes.{read_ingest_chunks-AreReady}
use claude_agent_wrap.Reader.Uncut.{all_requests, requests_in, read_ingest_chunks-requests}
use claude_agent_wrap.Reader.Raises.{read_ingest_chunks_raises}
use claude_agent_wrap.Reader.Resume.{Resumes}
use claude_agent_wrap.Reader.Interrupted.{read_ingest_chunks-Resumes}
use claude_agent_wrap.Reader.Retention.{Tree, Removal, gone, ExpiredSession, apply_retention}
use claude_agent_wrap.Reader.Retained.{apply_retention-unread}
use claude_agent_wrap.Reader.Session.{LogFiles, unseen, resume}

repeat : ℕ → ℕ → List ℕ
repeat zero a = []
repeat (suc n) a = a ∷ repeat n a

length-repeat : (n a : ℕ) → length (repeat n a) ≡ n
unfolding repeat
length-repeat zero a = refl
length-repeat (suc n) a = omega (arith, length-repeat n a)

abbrev answered : Fields
answered =
    field (codes "response") (str (codes "ok")) (field (codes "status") (str (codes "success")) end)

abbrev unanswered : Fields
unanswered = field (codes "status") (str (codes "failure")) end

-- A line that begins with "a" is a record with a response, one with "b" a record without, and any
-- other is no JSON.
abbrev runtime : Runtime
runtime = record {
  loads = λ line. elim line [
    | [] ↦ none
    | (c ∷ rest) ↦
        if eqb c b'a'
        then some (obj answered)
        else if eqb c b'b'
        then some (obj unanswered)
        else none
  ];
  loads_text = λ t. none;
  dumps = λ value. elim value [ str t ↦ t | _ ↦ [] ];
  encode_utf8 = λ t. t;
  sha256 = λ b. repeat 32 (length b);
  zlib = record { compress = λ b. b; decompress = λ b. some b };
  strip = λ t. t;
  strip_bytes = keep (λ c. not (eqb c b'\n'));
  is_zero = λ t. false;
  round_micros = λ t. none;
  search_name = λ t. none;
  search_title = λ t. none;
}

whole : (b : Bytes) → length (runtime.sha256 b) ≡ 32
whole b = length-repeat 32 (length b)

abbrev one_record : Limits
one_record = record { max_records = 1; max_payload_bytes = 100 }

-- Two records with a line between them that is no JSON, and a line that is torn.
abbrev messages : Bytes
messages = codes "a\nx\na\na"

read_run : (read_ingest_chunks runtime one_record (some messages) none unseen).1 ≡ true
unfolding read_ingest_chunks has_key truthy text_beq elem repeat sort_by
read_run = refl

read_ingest_chunks-AreReady_example :
    AreReady [] 0 (read_ingest_chunks runtime one_record (some messages) none unseen).0
read_ingest_chunks-AreReady_example =
    read_ingest_chunks-AreReady runtime whole one_record (some messages) none unseen

read_ingest_chunks-requests_example :
    all_requests (read_ingest_chunks runtime one_record (some messages) none unseen).0
    ≡ requests_in runtime (split_lines messages) 0
read_ingest_chunks-requests_example =
    read_ingest_chunks-requests runtime one_record messages none unseen read_run

two_requests : length (requests_in runtime (split_lines messages) 0) ≡ 2
unfolding requests_in split_lines has_key truthy text_beq elem repeat
two_requests = refl

read_ingest_chunks-Resumes_example :
    Resumes runtime messages
      (requests_in runtime (split_lines messages) 0)
      []
      (read_ingest_chunks runtime one_record (some messages) none unseen).0
read_ingest_chunks-Resumes_example =
    read_ingest_chunks-Resumes runtime one_record messages none unseen

b_line : split_lines (codes "b\na\n") ≡ codes "b\n" ∷ codes "a\n" ∷ []
unfolding split_lines
b_line = refl

b_complete : is_complete (codes "b\n") ≡ true
unfolding is_complete
b_complete = refl

b_record : record_of runtime (codes "b\n") ≡ some unanswered
unfolding record_of
b_record = refl

b_missing : has_key (codes "response") unanswered ≡ false
unfolding has_key text_beq
b_missing = refl

read_ingest_chunks_raises_example :
    read_ingest_chunks runtime chunk_limits (some (codes "b\na\n")) none unseen ≡ ([], false)
read_ingest_chunks_raises_example =
    read_ingest_chunks_raises runtime chunk_limits (codes "b\na\n") none unseen (codes "b\n")
      (codes "a\n" ∷ []) unanswered b_line b_complete b_record b_missing

abbrev key : SessionKey
key = record {
  project_hash = codes "p";
  provider = codes "anthropic";
  claude_session_id = codes "s";
}

abbrev files : LogFiles
files = record { messages = some messages; strings = none }

-- A time of less than 2 ^ 63, though the clock is any.
abbrev clock : ℕ → ℕ
clock k = 50

read_chunks : List IngestChunk
read_chunks =
    (read_ingest_chunks runtime one_record files.messages files.strings
      (resume key files empty_store).1).0

are_storable : List IngestChunk → Bool
are_storable [] = true
are_storable (c ∷ cs) = is_storable 50 key c && are_storable cs

-- Two sessions with files of two bytes: one was read to the end, the other grew after the survey.
abbrev spent : ExpiredSession
spent = record {
  key = record { project_hash = codes "p"; provider = []; claude_session_id = codes "s" };
  messages_offset = 2;
  size_bytes = 2;
}

abbrev grown : ExpiredSession
grown = record { key = key; messages_offset = 1; size_bytes = 1 }

abbrev log_tree : Tree
log_tree k = record { messages = some (7 ∷ 8 ∷ []); strings = none }

abbrev removes : SessionKey → LogFiles → Removal
removes k f = gone

abbrev past_first : Option Bytes → Bytes
past_first none = []
past_first (some f) = drop 1 f

grown-unread :
    (e : ExpiredSession)
    → In e (spent ∷ grown ∷ [])
    → e.key ≡ key
    → (f : Bytes) → (log_tree key).messages ≡ some f
    → drop e.messages_offset f ≢ []
grown-unread e (inl p) q f h d = cc (ap (λ x. x.key.provider) p, ap (λ k. k.provider) q)
grown-unread e (inr (inl p)) q f h d =
    let empty : drop 1 f ≡ [] = subst (λ x. drop x.messages_offset f ≡ []) p d in
    let rest : (8 ∷ []) ≡ drop 1 f = ap past_first h in cc (rest, empty)
grown-unread e (inr (inr m)) q f h d = absurd m

apply_retention-unread_example :
    ((apply_retention removes (spent ∷ grown ∷ []) log_tree empty_store).0 key ≡ log_tree key)
    × (session_state key
          (apply_retention removes (spent ∷ grown ∷ []) log_tree empty_store).1.sessions
        ≡ session_state key empty_store.sessions)
apply_retention-unread_example =
    apply_retention-unread removes (spent ∷ grown ∷ []) log_tree empty_store key grown-unread
