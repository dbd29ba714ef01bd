-- ===== src/Reader/Realm/Requests/Coherent.antt =====
-- The cache of a realm in src/pyrealm/reader.py over all that its callers ask.
use pyrealm.Prelude.{◌≡◌, refl, ◌∙◌, ap, none, some, List, [], ◌∷◌, Option-cases, inl, inr, ℕ}
use pyrealm.Prelude.Integers.{ℤ, int_eq_refl}
use pyrealm.Reader.{Raw, Codec, Mapping, Answer, answer, raised, Identity}
use pyrealm.Reader.Records.{Record, fresh_record, record_identity}
use pyrealm.Reader.Records.Memo.{Answer-cases}
use pyrealm.Reader.Cache.{
  native_errors, RecordCache, cached, store, stored_or_new, from_identity, record_from_raw,
  from_reply, cached_or_read, fetch, listed, Steps, then_step,
}
use pyrealm.Reader.Cache.Coherent.{HasKeys}
use pyrealm.Reader.Slices.{Slice}
use pyrealm.Reader.Results.Items.{
  result_at, add_item, read_items, sliced, read_sliced, result_slice,
}

native_errors-answer :
    {A : Type 0} (asked : Answer A) (a : A) → native_errors asked ≡ answer a → asked ≡ answer a
native_errors-answer (answer b) a e = e
native_errors-answer (raised fault) a e = cc

module _ {R D : Type 0} (codec : Codec R D) (source : ℤ → ℤ → Answer (Mapping (Raw R))) where
  -- What was read is the record of some two keys.
  abbrev pub IsFrom : Answer (Mapping (Raw R)) → Type 0
  IsFrom asked =
      (raw : Mapping (Raw R))
      → asked ≡ answer raw
      → (table_key : ℤ) × (object_key : ℤ) × (source table_key object_key ≡ answer raw)

  pub from_reply-Steps :
      (cache : RecordCache R D) (asked : Answer (Mapping (Raw R)))
      → IsFrom asked
      → Steps codec source [] cache
      → Steps codec source [] (from_reply cache (native_errors asked)).1
  unfolding from_reply
  from_reply-Steps cache (raised fault) from steps = steps
  from_reply-Steps cache (answer raw) from steps =
      let (table_key, object_key, e) = from raw refl in
      then_step steps (listed table_key object_key raw cache e)

  module _ (native : ℤ → ℤ → Answer (Mapping (Raw R)))
      (backed : (table_key object_key : ℤ) (raw : Mapping (Raw R))
        → native table_key object_key ≡ answer raw
        → source table_key object_key ≡ answer raw) where
    pub fetch-Steps :
        (table_key object_key : ℤ) (cache : RecordCache R D)
        → Steps codec source [] cache
        → Steps codec source [] (fetch native table_key object_key cache).1
    unfolding fetch cached_or_read
    fetch-Steps table_key object_key cache steps =
        elim (Option-cases (cached (table_key, object_key) cache)) [
          | inr (r, there) ↦ rw there steps
          | inl absent ↦ rw absent (
              from_reply-Steps cache (native table_key object_key)
                (λ raw e. (table_key, object_key, backed table_key object_key raw e)) steps)
        ]

    reply-cached :
        (table_key object_key : ℤ) (cache : RecordCache R D) (r : Record R D)
        (asked : Answer (Mapping (Raw R)))
        → ((raw : Mapping (Raw R))
            → asked ≡ answer raw
            → record_identity raw ≡ answer (table_key, object_key))
        → cached (table_key, object_key) cache ≡ none
        → (from_reply cache (native_errors asked)).0 ≡ answer r
        → cached (table_key, object_key) (from_reply cache (native_errors asked)).1 ≡ some r
    unfolding from_reply record_from_raw from_identity stored_or_new
    reply-cached table_key object_key cache r (raised fault) keyed absent e = cc
    reply-cached table_key object_key cache r (answer raw) keyed absent e =
        let identity : Identity = (table_key, object_key) in
        let fresh = fresh_record identity raw in
        let outcome : (from_reply cache (answer raw)) ≡ (answer fresh, store identity fresh cache) =
          rw (keyed raw refl, absent) refl in
        let same : fresh ≡ r = cc in
        rw outcome (rw (int_eq_refl table_key, int_eq_refl object_key) (ap some same))

    -- A record that was fetched is in the cache then.
    pub fetch-cached :
        HasKeys codec source
        → (table_key object_key : ℤ) (cache : RecordCache R D) (r : Record R D)
        → (fetch native table_key object_key cache).0 ≡ answer r
        → cached (table_key, object_key) (fetch native table_key object_key cache).1 ≡ some r
    unfolding fetch cached_or_read
    fetch-cached keyed table_key object_key cache r e =
        elim (Option-cases (cached (table_key, object_key) cache)) [
          | inr (found, there) ↦
              let same : found ≡ r = cc (rw there at e) in rw there (there ∙ ap some same)
          | inl absent ↦ rw absent (
              reply-cached table_key object_key cache r (native table_key object_key)
                (λ raw f. keyed table_key object_key raw (backed table_key object_key raw f)) absent
                (rw absent at e))
        ]

  module _ {Listing : Type 0} (size : Listing → Answer ℕ)
      (item : Listing → ℤ → Answer (Mapping (Raw R))) (listing : Listing)
      (from : (index : ℤ) → IsFrom (item listing index)) where
    pub result_at-Steps :
        (index : ℤ) (cache : RecordCache R D)
        → Steps codec source [] cache
        → Steps codec source [] (result_at size item listing index cache).1
    unfolding result_at
    result_at-Steps index cache steps =
        from_reply-Steps cache (item listing index) (from index) steps

    add_item-Steps :
        (asked : Answer (Record R D)) (cache : RecordCache R D)
        (rest : Answer (List (Record R D)) × RecordCache R D)
        → Steps codec source [] cache
        → Steps codec source [] rest.1
        → Steps codec source [] (add_item size item asked cache rest).1
    unfolding add_item
    add_item-Steps (raised fault) cache rest steps further = steps
    add_item-Steps (answer r) cache rest steps further = further

    read_items-Steps :
        (indices : List ℤ) (cache : RecordCache R D)
        → Steps codec source [] cache
        → Steps codec source [] (read_items size item listing indices cache).1
    unfolding read_items
    read_items-Steps [] cache steps = steps
    read_items-Steps (index ∷ indices) cache steps =
        let outcome = result_at size item listing index cache in
        let here = result_at-Steps index cache steps in
        add_item-Steps outcome.0 outcome.1 _ here (read_items-Steps indices outcome.1 here)

    pub result_slice-Steps :
        (s : Slice) (cache : RecordCache R D)
        → Steps codec source [] cache
        → Steps codec source [] (result_slice size item listing s cache).1
    unfolding result_slice read_sliced
    result_slice-Steps s cache steps = elim (Answer-cases (sliced size listing s)) [
      | inl (indices, e) ↦ rw e (read_items-Steps indices cache steps)
      | inr (fault, e) ↦ rw e steps
    ]
