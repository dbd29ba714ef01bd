-- ===== src/Reader/Cache/Coherent.antt =====
-- `Realm._record` in src/pyrealm/reader.py, beside a realm without a cache.
use pyrealm.Prelude.{
  ◌≡◌, refl, subst, ◌∙◌, true, Option, none, some, [], ◌∷◌, All, Bool-cases, Option-cases, inl, inr,
  ◌⊎◌,
}
use pyrealm.Prelude.Integers.{ℤ, int_eq, eq_of_int_eq}
use pyrealm.Reader.{Codec, Raw, Fault, Answer, answer, raised, Identity, same_identity, Mapping}
use pyrealm.Reader.Records.{Record, fresh_record, own_fields, record_identity}
use pyrealm.Reader.Records.Memo.{Answer-cases, IsMemo, get_item-IsRead}
use pyrealm.Reader.Cache.{
  translated, RecordCache, cached, stored_or_new, from_identity, record_from_raw, from_reply,
  cached_or_read, fetch, Collected, nothing_left, kept, gone, Step, fetched, listed, field_read,
  collected, Steps, stay, then_step,
}

eq_of_same_identity : (a b : Identity) → same_identity a b ≡ true → a ≡ b
eq_of_same_identity (a, b) (c, d) h = elim (Bool-cases (int_eq a c)) [
  | inr e ↦ cc (rw e at h)
  | inl e ↦ cc (eq_of_int_eq a c e, eq_of_int_eq b d (rw e at h))
]

module _ {R D : Type 0} (codec : Codec R D) (native : ℤ → ℤ → Answer (Mapping (Raw R))) where
  -- The native module's records carry the keys that they were asked by.
  abbrev pub HasKeys : Type 0
  HasKeys =
      (table object : ℤ) (raw : Mapping (Raw R))
      → native table object ≡ answer raw
      → record_identity raw ≡ answer (table, object)

  -- A record is that of an identity.
  pub record IsRecordOf (identity : Identity) (r : Record R D) : Type 0 where
    pub raw : Mapping (Raw R)
    pub source : native identity.0 identity.1 ≡ answer raw
    pub fields : r.raw ≡ own_fields raw
    pub table : r.table_key ≡ identity.0
    pub object : r.object_key ≡ identity.1
    pub memo : IsMemo codec r

  abbrev pub IsCoherent : RecordCache R D → Type 0
  IsCoherent cache = All (λ (entry : Identity × Record R D). IsRecordOf entry.0 entry.1) cache

  pub cached-IsRecordOf :
      (identity : Identity) (cache : RecordCache R D) (r : Record R D)
      → IsCoherent cache
      → cached identity cache ≡ some r
      → IsRecordOf identity r
  cached-IsRecordOf identity [] r c h = cc
  cached-IsRecordOf identity ((key, s) ∷ cache) r c h =
      elim (Bool-cases (same_identity key identity)) [
        | inl same ↦
            let here : s ≡ r = cc (rw same at h) in
            subst (λ k. IsRecordOf k r) (eq_of_same_identity key identity same)
              (subst (λ t. IsRecordOf key t) here c.0)
        | inr other ↦ cached-IsRecordOf identity cache r c.1 (rw other at h)
      ]

  fresh-IsRecordOf :
      (identity : Identity) (raw : Mapping (Raw R))
      → native identity.0 identity.1 ≡ answer raw
      → IsRecordOf identity (fresh_record identity raw)
  fresh-IsRecordOf identity raw source = record {
    raw = raw;
    source = source;
    fields = refl;
    table = refl;
    object = refl;
    memo = λ key value h. cc;
  }

  -- What is returned for an identity of which the native module has a record.
  pub record IsFetched (identity : Identity) (outcome : Answer (Record R D) × RecordCache R D)
      : Type 0 where
    pub fetched_record : Record R D
    pub returned : outcome.0 ≡ answer fetched_record
    pub record_of : IsRecordOf identity fetched_record
    pub coherent : IsCoherent outcome.1

  stored_or_new-IsFetched :
      (identity : Identity) (raw : Mapping (Raw R)) (cache : RecordCache R D)
      (o : Option (Record R D))
      → native identity.0 identity.1 ≡ answer raw
      → IsCoherent cache
      → cached identity cache ≡ o
      → IsFetched identity (stored_or_new identity raw cache o)
  unfolding stored_or_new
  stored_or_new-IsFetched identity raw cache none source c e = record {
    fetched_record = fresh_record identity raw;
    returned = refl;
    record_of = fresh-IsRecordOf identity raw source;
    coherent = (fresh-IsRecordOf identity raw source, c);
  }
  stored_or_new-IsFetched identity raw cache (some r) source c e = record {
    fetched_record = r;
    returned = refl;
    record_of = cached-IsRecordOf identity cache r c e;
    coherent = c;
  }

  record_from_raw-IsFetched :
      HasKeys
      → (table object : ℤ) (raw : Mapping (Raw R)) (cache : RecordCache R D)
      → native table object ≡ answer raw
      → IsCoherent cache
      → IsFetched (table, object) (record_from_raw raw cache)
  unfolding record_from_raw from_identity
  record_from_raw-IsFetched keyed table object raw cache source c =
      rw (keyed table object raw source)
        (stored_or_new-IsFetched (table, object) raw cache _ source c refl)

  -- What `_record` gives for an identity: the record of what the native module has for it, or the
  -- translated exception and the cache as it was.
  abbrev pub IsAnswered : ℤ → ℤ → RecordCache R D → Type 0
  IsAnswered table object cache =
      ((raw : Mapping (Raw R)) × (native table object ≡ answer raw)
        × IsFetched (table, object) (fetch native table object cache))
      ⊎ ((fault : Fault) × (native table object ≡ raised fault)
          × (fetch native table object cache ≡ (raised (translated fault), cache)))

  fetch-IsAnswered :
      HasKeys
      → (table object : ℤ) (cache : RecordCache R D) → IsCoherent cache
      → IsAnswered table object cache
  unfolding fetch cached_or_read from_reply record_from_raw
  fetch-IsAnswered keyed table object cache c = elim (Option-cases (cached (table, object) cache)) [
    | inr (r, there) ↦
        let record_of = cached-IsRecordOf (table, object) cache r c there in
        inl (
          record_of.raw,
          record_of.source,
          rw there
              record { fetched_record = r; returned = refl; record_of = record_of; coherent = c },
        )
    | inl absent ↦ elim (Answer-cases (native table object)) [
      | inl (raw, source) ↦ inl (
        raw,
        source,
        rw (absent, source) (record_from_raw-IsFetched keyed table object raw cache source c),
      )
      | inr (fault, failed) ↦ inr (fault, failed, rw (absent, failed) refl)
    ]
  ]

  Collected-IsCoherent :
      {before after : RecordCache R D}
      → Collected before after
      → IsCoherent before
      → IsCoherent after
  Collected-IsCoherent nothing_left c = tt
  Collected-IsCoherent (kept k) c = (c.0, Collected-IsCoherent k c.1)
  Collected-IsCoherent (gone k) c = Collected-IsCoherent k c.1

  Step-IsCoherent :
      HasKeys
      → {before after : RecordCache R D} → Step codec native before after
      → IsCoherent before
      → IsCoherent after
  Step-IsCoherent keyed (fetched table object cache) c =
      elim (fetch-IsAnswered keyed table object cache c) [
        | inl (raw, source, done) ↦ done.coherent
        | inr (fault, failed, e) ↦ rw e c
      ]
  Step-IsCoherent keyed (listed table object raw cache source) c =
      (record_from_raw-IsFetched keyed table object raw cache source c).coherent
  Step-IsCoherent keyed (field_read identity r key cache there) c =
      let was = cached-IsRecordOf identity cache r c there in
      let read = get_item-IsRead codec r key was.memo in
      (
        record {
          raw = was.raw;
          source = was.source;
          fields = read.same_raw ∙ was.fields;
          table = read.same_table ∙ was.table;
          object = read.same_object ∙ was.object;
          memo = read.memo;
        },
        c,
      )
  Step-IsCoherent keyed (collected k) c = Collected-IsCoherent k c

  -- In every state of the cache that an open realm can come to, by reads, listings and collections in
  -- any order, each entry is the record of what the native module has for its identity. This supposes
  -- that the native module's records carry the keys that they were asked by.
  pub Steps-IsCoherent :
      HasKeys → {cache : RecordCache R D} → Steps codec native [] cache → IsCoherent cache
  Steps-IsCoherent keyed steps = from_start steps tt
    where
      from_start : {a b : RecordCache R D} → Steps codec native a b → IsCoherent a → IsCoherent b
      from_start stay c = c
      from_start (then_step steps step) c = Step-IsCoherent keyed step (from_start steps c)

  -- After any reads, listings and collections, asking for a record gives the record of what the native
  -- module has for the two keys, or the native exception translated, as if nothing were cached. This
  -- supposes that the native module's records carry the keys that they were asked by.
  pub fetch_lem :
      HasKeys
      → {cache : RecordCache R D} → Steps codec native [] cache
      → (table object : ℤ) → IsAnswered table object cache
  fetch_lem keyed {cache} steps table object =
      fetch-IsAnswered keyed table object cache (Steps-IsCoherent keyed steps)
