-- ===== src/Artifacts/Uploads.antt =====
-- What an upload leaves in the bucket.
use mathlib.Core.Path.{subst}
use elo_service.Prelude.{
  ◌≡◌, ◌∙◌, ◌⊎◌, inl, inr, sym, ap, refl, arith, ◌≤◌, suc, String, Bool, true, false, not, ◌&&◌,
  Option, none, some, [], ◌∷◌, map, nat_eq, string_eq, ltb, leb, if◌then◌else◌, ◌==◌, length,
  update_by, contains, length-append, Bool-cases, Option-cases, eq_self, eq_of_test, ne_of_test,
  test_of_ne,
}
use Prim.Native.String.{len}
use elo_service.Store.{Match, Db}
use elo_service.Matches.{get_match_by_token_id, is_match_active_or_cooling}
use elo_service.PlayerData.Handlers.{without_bearer}
use elo_service.Artifacts.{
  ArtifactMeta, Index, Object, Bucket, name_of, set_meta, put_object, max_artifact_bytes,
  max_artifacts_per_match, is_artifact_name, type_or_default, get_match_artifact_index, index_in,
  left_in, put_match_artifact, store_artifact, upload_match_artifact,
}

put-same : (m n : String) (o : Object) (b : Bucket) → put_object m n o b m n ≡ some o
unfolding put_object
put-same m n o b = rw (eq_self m, eq_self n) refl

put-other_name :
    (m n k j : String) (o : Object) (b : Bucket) → (n == j) ≡ false → put_object m n o b k j ≡ b k j
unfolding put_object
put-other_name m n k j o b h = elim (Bool-cases (m == k)) [
  | inl same ↦ rw (same, h) refl
  | inr other ↦ rw other refl
]

put-other_match :
    (m n k j : String) (o : Object) (b : Bucket) → (m == k) ≡ false → put_object m n o b k j ≡ b k j
unfolding put_object
put-other_match m n k j o b h = rw h refl

length-update_by :
    (name : String) (m : ArtifactMeta) (i : Index)
    → length (update_by (λ e. name_of e == name) (λ e. (name, m)) i) ≡ length i
length-update_by name m [] = refl
length-update_by name m (e ∷ i) = ap suc (length-update_by name m i)

length-set_meta :
    (name : String) (m : ArtifactMeta) (i : Index)
    → length i ≤ max_artifacts_per_match
    → (not (contains (map name_of i) name) && leb max_artifacts_per_match (length i)) ≡ false
    → length (set_meta name m i) ≤ max_artifacts_per_match
length-set_meta name m i h room = elim (Bool-cases (contains (map name_of i) name)) [
  | inl there ↦ rw there (omega (arith, h, length-update_by name m i))
  | inr new ↦
      let below : leb max_artifacts_per_match (length i) ≡ false = rw new at room in
      rw new (ground (arith, length-append i ((name, m) ∷ [])))
]

pub some_injective : (i j : Index) → ◌≡◌ {A = Option Index} (some i) (some j) → i ≡ j
some_injective i j h = cc

module _ (marshal : Index → String) (unmarshal : String → Bool × Index) where
  abbrev pub IsCapped : Bucket → Type 0
  IsCapped b =
      (k : String) (i : Index)
      → get_match_artifact_index marshal unmarshal k b ≡ some i
      → length i ≤ max_artifacts_per_match

  left_in-index :
      (o : Option Object) (i : Index)
      → index_in marshal unmarshal o ≡ some i
      → left_in marshal unmarshal o ≡ i
  left_in-index none i h = cc
  left_in-index (some o) i h = elim (Bool-cases (unmarshal o.body).0) [
    | inl parsed ↦ let same : some (unmarshal o.body).1 ≡ some i = rw parsed at h in cc
    | inr failed ↦ let bad : none ≡ some i = rw failed at h in cc
  ]

  abbrev pub meta_of : String → String → String → ArtifactMeta
  meta_of now content_type body = record {
    content_type = type_or_default content_type;
    size_bytes = len body;
    uploaded_at = now;
  }

  abbrev pub object_of : String → String → Object
  object_of content_type body = record { body = body; content_type = type_or_default content_type }

  -- The object of an upload under another name is there, with its type.
  pub object-put :
      (now m name content_type body : String) (b : Bucket)
      → (name == "index.json") ≡ false
      → put_match_artifact marshal unmarshal now m name content_type body b m name
        ≡ some (object_of content_type body)
  unfolding put_match_artifact
  object-put now m name content_type body b h =
      put-other_name m "index.json" m name _ (put_object m name (object_of content_type body) b)
        (test_of_ne "index.json" name (λ e. ne_of_test name "index.json" h (sym e)))
      ∙ put-same m name (object_of content_type body) b

  -- What encoding/json promises of the indexes that it wrote.
  module _ (reads : (i : Index) → unmarshal (marshal i) ≡ (true, i)) where
    index-put :
        (now m name content_type body : String) (b : Bucket)
        → get_match_artifact_index marshal unmarshal m
            (put_match_artifact marshal unmarshal now m name content_type body b)
          ≡ some (
              set_meta name (meta_of now content_type body) (
                left_in marshal unmarshal
                  (put_object m name (object_of content_type body) b m "index.json")))
    unfolding get_match_artifact_index put_match_artifact
    index-put now m name content_type body b =
        let stored = put_object m name (object_of content_type body) b in
        let i =
          set_meta name (meta_of now content_type body)
            (left_in marshal unmarshal (stored m "index.json")) in
        ap (index_in marshal unmarshal) (
          put-same m "index.json" (record { body = marshal i; content_type = "application/json" })
            stored)
        ∙ ap (λ (r : Bool × Index). if r.0 then some r.1 else none) (reads i)

    index-other_match :
        (now m name content_type body k : String) (b : Bucket)
        → (m == k) ≡ false
        → get_match_artifact_index marshal unmarshal k
            (put_match_artifact marshal unmarshal now m name content_type body b)
          ≡ get_match_artifact_index marshal unmarshal k b
    unfolding get_match_artifact_index put_match_artifact
    index-other_match now m name content_type body k b h = ap (index_in marshal unmarshal) (
        put-other_match m "index.json" k "index.json" _
          (put_object m name (object_of content_type body) b) h
        ∙ put-other_match m name k "index.json" (object_of content_type body) b h)

    IsCapped-put :
        (now m name content_type body : String) (b : Bucket) (i : Index)
        → (name == "index.json") ≡ false
        → get_match_artifact_index marshal unmarshal m b ≡ some i
        → (not (contains (map name_of i) name) && leb max_artifacts_per_match (length i)) ≡ false
        → IsCapped b
        → IsCapped (put_match_artifact marshal unmarshal now m name content_type body b)
    unfolding get_match_artifact_index
    IsCapped-put now m name content_type body b i named found room h k j is_j =
        elim (Bool-cases (m == k)) [
          | inr other ↦
              h k j (sym (index-other_match now m name content_type body k b other) ∙ is_j)
          | inl same ↦
              let meta = meta_of now content_type body in
              let old =
                ap (left_in marshal unmarshal)
                  (put-other_name m name m "index.json" (object_of content_type body) b named)
                ∙ left_in-index (b m "index.json") i found in
              let here =
                index-put now m name content_type body b
                ∙ ap (λ l. some (set_meta name meta l)) old in
              let there =
                ap
                  (λ x.
                    get_match_artifact_index marshal unmarshal x
                      (put_match_artifact marshal unmarshal now m name content_type body b))
                  (eq_of_test m k same)
                ∙ is_j in
              let is_set : set_meta name meta i ≡ j =
                some_injective (set_meta name meta i) j (sym here ∙ there) in
              subst (λ l. length l ≤ max_artifacts_per_match) is_set
                (length-set_meta name meta i (h m i found) room)
        ]

    -- What an upload did: nothing, or the file is in the bucket under the match of its token, and no match has too many.
    abbrev pub IsUploaded : String → String → String → String → Db → Bucket → Bucket → Type 0
    IsUploaded authorization name content_type body db b b' =
        (b' ≡ b)
        ⊎ ((m : Match) × (get_match_by_token_id (without_bearer authorization) db ≡ some m)
            × (len body ≤ max_artifact_bytes)
            × (b' m.id name ≡ some (object_of (type_or_default content_type) body))
            × IsCapped b')

    store_artifact-IsCapped :
        (now : String) (m : Match) (name content_type body : String) (b : Bucket)
        → (name == "index.json") ≡ false
        → IsCapped b
        → ((store_artifact marshal unmarshal now m name content_type body b).1 ≡ b)
          ⊎ (((store_artifact marshal unmarshal now m name content_type body b).1 m.id name
                ≡ some (object_of (type_or_default content_type) body))
              × IsCapped (store_artifact marshal unmarshal now m name content_type body b).1)
    unfolding store_artifact
    store_artifact-IsCapped now m name content_type body b named h =
        elim (Option-cases (get_match_artifact_index marshal unmarshal m.id b)) [
          | inl unreadable ↦ rw (store_artifact, unreadable) (inl refl)
          | inr (i, found) ↦
              let is_full =
                not (contains (map name_of i) name) && leb max_artifacts_per_match (length i) in
              elim (Bool-cases is_full) [
                | inl full ↦ rw (store_artifact, found, full) (inl refl)
                | inr room ↦
                    rw (store_artifact, found, room)
                      (inr (
                        object-put now m.id name (type_or_default content_type) body b named,
                        IsCapped-put now m.id name (type_or_default content_type) body b i named
                            found room h,
                      ))
              ]
        ]

    -- An upload under another name than the index's leaves the bucket as it was, or its body is at most 1 MiB, it is stored under
    -- its name for the match that its token names, and still no match has more than 10 artifacts, given that this holds at first and written indexes are read back.
    pub upload_match_artifact-IsUploaded :
        (now authorization name content_type body : String) (db : Db) (b : Bucket)
        → (name == "index.json") ≡ false
        → IsCapped b
        → IsUploaded authorization name content_type body db b
            (upload_match_artifact marshal unmarshal now authorization name content_type body db
              b).1
    unfolding upload_match_artifact
    upload_match_artifact-IsUploaded now authorization name content_type body db b named h =
        elim (Bool-cases (without_bearer authorization == "")) [
          | inl missing ↦ rw (upload_match_artifact, missing) (inl refl)
          | inr given ↦
              elim (Option-cases (get_match_by_token_id (without_bearer authorization) db)) [
                | inl nobody ↦ rw (upload_match_artifact, given, nobody) (inl refl)
                | inr (m, its) ↦ elim (Bool-cases (is_match_active_or_cooling m)) [
                  | inr over ↦ rw (upload_match_artifact, given, its, over) (inl refl)
                  | inl live ↦ elim (Bool-cases (is_artifact_name name)) [
                    | inr bad ↦ rw (upload_match_artifact, given, its, live, bad) (inl refl)
                    | inl fine ↦ elim (Bool-cases (ltb max_artifact_bytes (len body))) [
                      | inl large ↦
                          rw (upload_match_artifact, given, its, live, fine, large) (inl refl)
                      | inr fits ↦
                          let small : len body ≤ max_artifact_bytes = ground arith in
                          rw (upload_match_artifact, given, its, live, fine, fits)
                            (elim (store_artifact-IsCapped now m name content_type body b named h) [
                              | inl same ↦ inl same
                              | inr stored ↦ inr (m, refl, small, stored.0, stored.1)
                            ])
                    ]
                  ]
                ]
              ]
        ]
