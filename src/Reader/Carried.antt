-- ===== src/Reader/Carried.antt =====
-- On `_BlobAccumulator`: what a record names was carried by the time the record is parsed.
use mathlib.Core.Option.{some-injective}
use claude_agent_wrap.Prelude.{
  ℕ, ◌+◌, ◌≡◌, refl, sym, ap, subst, ◌⊎◌, inl, inr, Bool, true, false, some, >>=-some, List, [],
  ◌∷◌, ◌++◌, map, elem, In, elem-In, In-append_left, In-append_right, In-split, Bool-cases, length,
  leb, ltb, if◌then◌else◌, Text, text_eq, codes, arith,
}
use claude_agent_wrap.LogIndex.Codec.{Bytes}
use claude_agent_wrap.LogIndex.Sweep.{to_list}
use claude_agent_wrap.LogIndex.Ingest.{ContentBlob, Columns, RequestRecord, record_addresses}
use claude_agent_wrap.LogIndex.Ingest.Apply.{are_digests, split_fits}
use claude_agent_wrap.Reader.Json.{
  Json, null, bool, int, float, str, arr, obj, Fields, Runtime, find, canonical_bytes, fields_or,
  to_micros,
}
use claude_agent_wrap.Reader.Records.{extract_record_fields}
use claude_agent_wrap.Reader.Parser.{
  Accumulator, intern, add_value, add_values, addresses_of, add_optional, optional_address,
  add_interned_string, columns_of, iterated, or_none, parse, fitted, cache_split,
}

abbrev pub shas : List ContentBlob → List Bytes
shas = map (λ (b : ContentBlob). b.sha256)

-- From one accumulator to a later one: nothing seen is forgotten, and what is newly seen is carried.
pub record Grows (old new : Accumulator) : Type 0 where
  pub seen_kept : (a : Bytes) → In a old.seen → In a new.seen
  pub pending_kept : (a : Bytes) → In a (shas old.pending) → In a (shas new.pending)
  pub carried : (a : Bytes) → In a new.seen → In a old.seen ⊎ In a (shas new.pending)
  pub digests : are_digests old.pending ≡ true → are_digests new.pending ≡ true

pub Grows-refl : (b : Accumulator) → Grows b b
Grows-refl b = record {
  seen_kept = λ a m. m;
  pending_kept = λ a m. m;
  carried = λ a m. inl m;
  digests = λ d. d;
}

pub Grows-trans : (a b c : Accumulator) → Grows a b → Grows b c → Grows a c
Grows-trans a b c f g = record {
  seen_kept = λ x m. g.seen_kept x (f.seen_kept x m);
  pending_kept = λ x m. g.pending_kept x (f.pending_kept x m);
  carried = λ x m. elim (g.carried x m) [
    | inr new ↦ inr new
    | inl old ↦ elim (f.carried x old) [ inl older ↦ inl older | inr p ↦ inr (g.pending_kept x p) ]
  ];
  digests = λ d. g.digests (f.digests d);
}

map-append : {A B : Type 0} (f : A → B) (xs ys : List A) → map f (xs ++ ys) ≡ map f xs ++ map f ys
map-append f [] ys = refl
map-append f (x ∷ xs) ys = ap (◌∷◌ (f x)) (map-append f xs ys)

are_digests-snoc :
    (bs : List ContentBlob) (b : ContentBlob)
    → length b.sha256 ≡ 32
    → are_digests bs ≡ true
    → are_digests (bs ++ (b ∷ [])) ≡ true
unfolding are_digests
are_digests-snoc [] b l d = ground arith
are_digests-snoc (c ∷ bs) b l d = ground (arith, are_digests-snoc bs b l)

module _ (rt : Runtime) (whole : (b : Bytes) → length (rt.sha256 b) ≡ 32) where
  intern-Grows :
      (raw' raw : Bytes) (blobs : Accumulator)
      → Grows blobs (intern rt (rt.sha256 raw') raw blobs)
        × In (rt.sha256 raw') (intern rt (rt.sha256 raw') raw blobs).seen
  unfolding intern
  intern-Grows raw' raw blobs =
      let a = rt.sha256 raw' in
      elim (Bool-cases (elem a blobs.seen)) [
        | inl there ↦ rw (there, intern) (Grows-refl blobs, elem-In a blobs.seen there)
        | inr absent ↦
            rw (absent, intern)
              (
                record {
                  seen_kept = λ x m. inr m;
                  pending_kept = λ x m.
                      subst (In x)
                        (sym (map-append (λ (c : ContentBlob). c.sha256) blobs.pending _))
                        (In-append_left x _ _ m);
                  carried = λ x m. elim m [
                    | inr old ↦ inl old
                    | inl same ↦ inr (
                        subst (In x)
                          (sym (map-append (λ (c : ContentBlob). c.sha256) blobs.pending _))
                          (In-append_right x (shas blobs.pending) _ (inl same)))
                  ];
                  digests = λ d. are_digests-snoc blobs.pending _ (whole raw') d;
                },
                inl refl,
              )
      ]

  add_value-Grows :
      (v : Json) (blobs : Accumulator)
      → Grows blobs (add_value rt v blobs)
        × In (rt.sha256 (rt.encode_utf8 (rt.dumps v))) (add_value rt v blobs).seen
  unfolding add_value canonical_bytes
  add_value-Grows v blobs =
      intern-Grows (rt.encode_utf8 (rt.dumps v)) (rt.encode_utf8 (rt.dumps v)) blobs

  add_values-Grows :
      (vs : List Json) (blobs : Accumulator)
      → Grows blobs (add_values rt vs blobs)
        × ((a : Bytes) → In a (addresses_of rt vs) → In a (add_values rt vs blobs).seen)
  unfolding add_values addresses_of canonical_bytes
  add_values-Grows [] blobs = (Grows-refl blobs, λ a m. absurd m)
  add_values-Grows (v ∷ vs) blobs =
      let (g, m) = add_value-Grows v blobs in
      let (h, more) = add_values-Grows vs (add_value rt v blobs) in
      (
        Grows-trans blobs (add_value rt v blobs) _ g h,
        λ a n. elim n [
          | inl e ↦ h.seen_kept a (subst (λ x. In x (add_value rt v blobs).seen) (sym e) m)
          | inr l ↦ more a l
        ],
      )

  one_Grows :
      (v : Json) (blobs : Accumulator)
      → Grows blobs (add_value rt v blobs)
        × ((a : Bytes)
            → In a (rt.sha256 (rt.encode_utf8 (rt.dumps v)) ∷ [])
            → In a (add_value rt v blobs).seen)
  one_Grows v blobs =
      let (g, m) = add_value-Grows v blobs in
      (
        g,
        λ a n. elim n [
          | inl e ↦ subst (λ x. In x (add_value rt v blobs).seen) (sym e) m
          | inr l ↦ absurd l
        ],
      )

  add_optional-Grows :
      (v : Json) (blobs : Accumulator)
      → Grows blobs (add_optional rt v blobs)
        × ((a : Bytes)
            → In a (to_list (optional_address rt v))
            → In a (add_optional rt v blobs).seen)
  unfolding add_optional optional_address canonical_bytes
  add_optional-Grows null blobs = (Grows-refl blobs, λ a m. absurd m)
  add_optional-Grows (bool b) blobs = one_Grows (bool b) blobs
  add_optional-Grows (int i) blobs = one_Grows (int i) blobs
  add_optional-Grows (float t) blobs = one_Grows (float t) blobs
  add_optional-Grows (str t) blobs = one_Grows (str t) blobs
  add_optional-Grows (arr xs) blobs = one_Grows (arr xs) blobs
  add_optional-Grows (obj fs) blobs = one_Grows (obj fs) blobs

  -- The content of a record, in the order in which it is interned.
  contents_Grows :
      (messages : List Json) (system tools response : Json) (blobs : Accumulator)
      → let end =
          add_optional rt response
            (add_optional rt tools (add_optional rt system (add_values rt messages blobs))) in
        Grows blobs end
        × ((a : Bytes)
            → In a (
                addresses_of rt messages
                ++ (to_list (optional_address rt system)
                    ++ (to_list (optional_address rt tools)
                        ++ to_list (optional_address rt response))))
            → In a end.seen)
  contents_Grows messages system tools response blobs =
      let b1 = add_values rt messages blobs in
      let b2 = add_optional rt system b1 in
      let b3 = add_optional rt tools b2 in
      let (g1, m1) = add_values-Grows messages blobs in
      let (g2, m2) = add_optional-Grows system b1 in
      let (g3, m3) = add_optional-Grows tools b2 in
      let (g4, m4) = add_optional-Grows response b3 in
      (
        Grows-trans blobs b3 _ (Grows-trans blobs b2 b3 (Grows-trans blobs b1 b2 g1 g2) g3) g4,
        λ a m. elim (In-split a (addresses_of rt messages) _ m) [
          | inl l ↦ g4.seen_kept a (g3.seen_kept a (g2.seen_kept a (m1 a l)))
          | inr r ↦ elim (In-split a (to_list (optional_address rt system)) _ r) [
            | inl l ↦ g4.seen_kept a (g3.seen_kept a (m2 a l))
            | inr r' ↦ elim (In-split a (to_list (optional_address rt tools)) _ r') [
              | inl l ↦ g4.seen_kept a (m3 a l)
              | inr l ↦ m4 a l
            ]
          ]
        ],
      )

  either_Grows :
      (b : Bool) (old x y : Accumulator)
      → Grows old x
      → Grows old y
      → Grows old (if b then x else y)
  either_Grows true old x y f g = f
  either_Grows false old x y f g = g

  -- What a record that is parsed adds, and its own fields.
  pub record Parsed (ordinal : ℕ) (blobs : Accumulator) (r : RequestRecord) (after : Accumulator)
      : Type 0 where
    pub grows : Grows blobs after
    pub named : (a : Bytes) → In a (record_addresses r) → In a after.seen
    pub at : r.ordinal ≡ ordinal
    pub fits : split_fits r.columns ≡ true

  fitted_fits :
      (total : ℕ) (split : ℕ × ℕ)
      → leb ((fitted total split).0 + (fitted total split).1) total ≡ true
  fitted_fits total (five, hour) = elim (Bool-cases (ltb total (five + hour))) [
    | inl wide ↦ rw wide (ground arith)
    | inr narrow ↦ rw narrow (ground arith)
  ]

  columns_of-fits : (rec : Fields) (c : Columns) → columns_of rt rec ≡ some c → split_fits c ≡ true
  unfolding columns_of
  columns_of-fits rec c h =
      let (timing, _, h1) = >>=-some (fields_or rt (find (codes "timing") rec)) _ c h in
      let (x, _, h2) = >>=-some (to_micros rt (find (codes "start") timing)) _ c h1 in
      let (y, _, h3) = >>=-some (to_micros rt (find (codes "completionStart") timing)) _ c h2 in
      let (z, _, h4) = >>=-some (to_micros rt (find (codes "end") timing)) _ c h3 in
      subst (λ k. split_fits k ≡ true) (some-injective _ c h4) (fitted_fits _ (cache_split _))

  pub parse-Parsed :
      (rec : Fields) (ordinal : ℕ) (blobs : Accumulator) (out : RequestRecord × Accumulator)
      → parse rt rec ordinal blobs ≡ some out
      → Parsed ordinal blobs out.0 out.1
  unfolding parse
  parse-Parsed rec ordinal blobs out h =
      let (c, e, h1) = >>=-some (columns_of rt rec) _ out h in
      let (messages, _, h2) =
        >>=-some (iterated rt (find (codes "messages") (extract_record_fields rec).data')) _ out
          h1 in
      let (g, m) =
        contents_Grows messages (find (codes "system") (extract_record_fields rec).data')
          (or_none rt (find (codes "tools") (extract_record_fields rec).data'))
          (find (codes "response") rec) blobs in
      subst (λ (x : RequestRecord × Accumulator). Parsed ordinal blobs x.0 x.1)
        (some-injective _ out h2)
        (record { grows = g; named = m; at = refl; fits = columns_of-fits rec c e })

  pub add_interned_string-Grows :
      (pointer original : Text) (blobs : Accumulator)
      → Grows blobs (add_interned_string rt pointer original blobs)
  unfolding add_interned_string
  add_interned_string-Grows pointer original blobs =
      either_Grows _ blobs _ _
        (intern-Grows (rt.encode_utf8 original) (rt.encode_utf8 original) blobs).0
        (Grows-refl blobs)
