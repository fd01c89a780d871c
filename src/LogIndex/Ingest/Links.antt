-- ===== src/LogIndex/Ingest/Links.antt =====
-- On `_insert_requests`: the rows that it writes, and what their vectors of ids unpack to.
use mathlib.Core.Option.{some-injective}
use claude_agent_wrap.Prelude.{
  ℕ, ◌≡◌, refl, sym, subst, ◌∙◌, ◌^◌, inl, inr, Option, none, some, >>=-some, List, [], ◌∷◌, In,
  In-append_left, In-append_right, Bool-cases, Option-cases, ltb, arith, text_eq,
}
use claude_agent_wrap.Prelude.Dict.{Dict, get}
use claude_agent_wrap.LogIndex.Codec.{Bytes, pack_ids, unpack_ids}
use claude_agent_wrap.LogIndex.Sweep.{to_list}
use claude_agent_wrap.LogIndex.Sweep.References.{Names}
use claude_agent_wrap.LogIndex.Ingest.{RequestRecord, StoredRequest, row_of, record_addresses}
use claude_agent_wrap.LogIndex.Ingest.Apply.{ids_of, id_of, request_row}

-- A vector that was packed unpacks to the same ids.
pub unpack_ids-packed : (ns : List ℕ) (b : Bytes) → pack_ids ns ≡ some b → unpack_ids b ≡ some ns
unfolding pack_ids unpack_ids
unpack_ids-packed [] b h = subst (λ x. unpack_ids x ≡ some []) (some-injective [] b h) refl
unpack_ids-packed (n ∷ ns) b h = elim (Option-cases (pack_ids ns)) [
  | inl bad ↦ cc (rw (bad, pack_ids) at h)
  | inr (rest, e) ↦ elim (Bool-cases (ltb n (2 ^ 32))) [
    | inl low ↦
        let back = unpack_ids-packed ns rest e in
        subst (λ x. unpack_ids x ≡ some (n ∷ ns)) (some-injective _ b (rw (e, low, pack_ids) at h))
          (ground arith)
    | inr high ↦ cc (rw (e, high, pack_ids) at h)
  ]
]

-- The addresses and the ids are related in pairs, in their order.
pub data Pairs (R : Bytes → ℕ → Type 0) : List Bytes → List ℕ → Type 0 where
  done : Pairs R [] []
  pair :
      (a : Bytes) (i : ℕ) (as' : List Bytes) (is : List ℕ)
      → R a i
      → Pairs R as' is
      → Pairs R (a ∷ as') (i ∷ is)

Pairs-In :
    (R : Bytes → ℕ → Type 0) (as' : List Bytes) (is : List ℕ) (i : ℕ)
    → Pairs R as' is
    → In i is
    → (a : Bytes) × In a as' × R a i
Pairs-In R [] [] i done m = absurd m
Pairs-In R [] (j ∷ is) i p m = elim p [ ]
Pairs-In R (a ∷ as') [] i p m = elim p [ ]
Pairs-In R (a ∷ as') (j ∷ is) i (pair _ _ _ _ e p) (inl q) = (a, inl refl, subst (R a) (sym q) e)
Pairs-In R (a ∷ as') (j ∷ is) i (pair _ _ _ _ e p) (inr m) =
    let (b, n, f) = Pairs-In R as' is i p m in (b, inr n, f)

Pairs-map :
    (R S : Bytes → ℕ → Type 0) (as' : List Bytes) (is : List ℕ)
    → ((a : Bytes) (i : ℕ) → R a i → S a i)
    → Pairs R as' is
    → Pairs S as' is
Pairs-map R S [] [] f done = done
Pairs-map R S [] (j ∷ is) f p = elim p [ ]
Pairs-map R S (a ∷ as') [] f p = elim p [ ]
Pairs-map R S (a ∷ as') (j ∷ is) f (pair _ _ _ _ e p) =
    pair a j as' is (f a j e) (Pairs-map R S as' is f p)

-- The ids that a dict gives.
abbrev pub Gives : Dict Bytes ℕ → Bytes → ℕ → Type 0
Gives found a i = get a found ≡ some i

module _ (found : Dict Bytes ℕ) where
  ids_of-Pairs :
      (as' : List Bytes) (is : List ℕ) → ids_of found as' ≡ some is → Pairs (Gives found) as' is
  unfolding ids_of
  ids_of-Pairs [] is h = subst (Pairs (Gives found) []) (some-injective [] is h) done
  ids_of-Pairs (a ∷ as') is h =
      let (i, e, h1) = >>=-some (get a found) _ is h in
      let (rest, f, h2) = >>=-some (ids_of found as') _ is h1 in
      subst (Pairs (Gives found) (a ∷ as')) (some-injective (i ∷ rest) is h2)
        (pair a i as' rest e (ids_of-Pairs as' rest f))

  id_of-Pairs :
      (o : Option Bytes) (q : Option ℕ)
      → id_of found o ≡ some q
      → Pairs (Gives found) (to_list o) (to_list q)
  unfolding id_of
  id_of-Pairs none q h =
      subst (λ x. Pairs (Gives found) [] (to_list x)) (some-injective none q h) done
  id_of-Pairs (some a) q h =
      let (i, e, h1) = >>=-some (get a found) _ q h in
      subst (λ x. Pairs (Gives found) (a ∷ []) (to_list x)) (some-injective (some i) q h1)
        (pair a i [] [] e done)

-- What a row says of the request it stands for: its columns are the request's, and its vector and
-- its three blob columns are ids that `R` relates to the request's addresses, in their order.
pub record Stands (R : Bytes → ℕ → Type 0) (session : ℕ) (r : RequestRecord) (q : StoredRequest)
    : Type 0 where
  pub same_session : q.session_id ≡ session
  pub same_ordinal : q.ordinal ≡ r.ordinal
  pub same_columns : q.columns ≡ r.columns
  pub refs : List ℕ
  pub unpacked : unpack_ids q.message_refs ≡ some refs
  pub messages : Pairs R r.message_addresses refs
  pub system : Pairs R (to_list r.system_address) (to_list q.system_blob)
  pub tools : Pairs R (to_list r.tools_address) (to_list q.tools_blob)
  pub response : Pairs R (to_list r.response_address) (to_list q.response_blob)

pub request_row-Stands :
    (found : Dict Bytes ℕ) (session : ℕ) (r : RequestRecord) (q : StoredRequest)
    → request_row found session r ≡ some q
    → Stands (Gives found) session r q
unfolding request_row
request_row-Stands found session r q h =
    let (refs, e, h1) = >>=-some (ids_of found r.message_addresses) _ q h in
    let (packed, f, h2) = >>=-some (pack_ids refs) _ q h1 in
    let (s, es, h3) = >>=-some (id_of found r.system_address) _ q h2 in
    let (t, et, h4) = >>=-some (id_of found r.tools_address) _ q h3 in
    let (p, ep, h5) = >>=-some (id_of found r.response_address) _ q h4 in
    subst (Stands (Gives found) session r) (some-injective _ q h5) (record {
      same_session = refl;
      same_ordinal = refl;
      same_columns = refl;
      refs = refs;
      unpacked = unpack_ids-packed refs packed f;
      messages = ids_of-Pairs found r.message_addresses refs e;
      system = id_of-Pairs found r.system_address s es;
      tools = id_of-Pairs found r.tools_address t et;
      response = id_of-Pairs found r.response_address p ep;
    })

Pairs-to_list :
    (R : Bytes → ℕ → Type 0) (o : Option Bytes) (q : Option ℕ) (i : ℕ)
    → Pairs R (to_list o) (to_list q)
    → q ≡ some i
    → (a : Bytes) × In a (to_list o) × (R a i)
Pairs-to_list R o none i p e = cc
Pairs-to_list R o (some j) i p e =
    Pairs-In R (to_list o) (j ∷ []) i p (inl (sym (some-injective j i e)))

-- Each id that such a row names is the one of an address of the request.
pub Stands-Names :
    (R : Bytes → ℕ → Type 0) (session : ℕ) (r : RequestRecord) (q : StoredRequest) (i : ℕ)
    → Stands R session r q
    → Names (row_of q) i
    → (a : Bytes) × In a (record_addresses r) × (R a i)
Stands-Names R session r q i s (Names.message ids u m) =
    let same : ids ≡ s.refs = some-injective ids s.refs (sym u ∙ s.unpacked) in
    let (a, n, e) = Pairs-In R r.message_addresses s.refs i s.messages (subst (In i) same m) in
    (a, In-append_left a r.message_addresses _ n, e)
Stands-Names R session r q i s (Names.system p) =
    let (a, n, e) = Pairs-to_list R r.system_address q.system_blob i s.system p in
    (
      a,
      In-append_right a r.message_addresses _ (In-append_left a (to_list r.system_address) _ n),
      e,
    )
Stands-Names R session r q i s (Names.tools p) =
    let (a, n, e) = Pairs-to_list R r.tools_address q.tools_blob i s.tools p in
    (
      a,
      In-append_right a r.message_addresses _ (
          In-append_right a (to_list r.system_address) _
            (In-append_left a (to_list r.tools_address) _ n)),
      e,
    )
Stands-Names R session r q i s (Names.response p) =
    let (a, n, e) = Pairs-to_list R r.response_address q.response_blob i s.response p in
    (
      a,
      In-append_right a r.message_addresses _ (
          In-append_right a (to_list r.system_address) _
            (In-append_right a (to_list r.tools_address) _ n)),
      e,
    )

pub Stands-map :
    (R S : Bytes → ℕ → Type 0) (session : ℕ) (r : RequestRecord) (q : StoredRequest)
    → ((a : Bytes) (i : ℕ) → R a i → S a i)
    → Stands R session r q
    → Stands S session r q
Stands-map R S session r q f s = record {
  same_session = s.same_session;
  same_ordinal = s.same_ordinal;
  same_columns = s.same_columns;
  refs = s.refs;
  unpacked = s.unpacked;
  messages = Pairs-map R S r.message_addresses s.refs f s.messages;
  system = Pairs-map R S (to_list r.system_address) (to_list q.system_blob) f s.system;
  tools = Pairs-map R S (to_list r.tools_address) (to_list q.tools_blob) f s.tools;
  response = Pairs-map R S (to_list r.response_address) (to_list q.response_blob) f s.response;
}
