-- ===== src/Artifacts/Downloads.antt =====
-- What a download gives of what was uploaded.
use Prim.Native.String.{len}
use elo_service.Prelude.{
  ◌≡◌, ◌∙◌, ap, refl, inl, inr, String, Bool, true, false, not, ◌&&◌, some, map, nat_eq, string_eq,
  ltb, leb, ◌==◌, length, contains, Bool-cases, Option-cases,
}
use elo_service.Store.{Match, MatchResult, Db}
use elo_service.Matches.{get_match_by_token_id, is_match_active_or_cooling}
use elo_service.PlayerData.Handlers.{without_bearer}
use elo_service.Artifacts.{
  Index, Bucket, ArtifactAnswer, ok, name_of, max_artifact_bytes, max_artifacts_per_match,
  is_artifact_name, type_or_default, get_match_artifact_index, store_artifact,
  upload_match_artifact, resolve_match_artifacts_auth, download_match_artifact,
}
use elo_service.Artifacts.Uploads.{object_of, object-put}

type_or_default-given : (t : String) → type_or_default (type_or_default t) ≡ type_or_default t
type_or_default-given t = elim (Bool-cases (t == "")) [
  | inl empty ↦ rw (empty) refl
  | inr given ↦ rw (given, given) refl
]

is_accepted : {A : Type 0} → ArtifactAnswer A → Bool
is_accepted (ok a) = true
is_accepted _ = false

module _ (marshal : Index → String) (unmarshal : String → Bool × Index) where
  store_artifact-object :
      (now : String) (m : Match) (name content_type body : String) (b : Bucket)
      → (name == "index.json") ≡ false
      → (store_artifact marshal unmarshal now m name content_type body b).0 ≡ ok tt
      → (store_artifact marshal unmarshal now m name content_type body b).1 m.id name
        ≡ some (object_of marshal unmarshal (type_or_default content_type) body)
  unfolding store_artifact is_accepted
  store_artifact-object now m name content_type body b named h =
      elim (Option-cases (get_match_artifact_index marshal unmarshal m.id b)) [
        | inl unreadable ↦ cc (ap is_accepted (rw (store_artifact, unreadable) at h))
        | inr (i, found) ↦
            let is_full =
              not (contains (map name_of i) name) && leb max_artifacts_per_match (length i) in
            elim (Bool-cases is_full) [
              | inl full ↦ cc (ap is_accepted (rw (store_artifact, found, full) at h))
              | inr room ↦
                  rw (store_artifact, found, room)
                    (object-put marshal unmarshal now m.id name (type_or_default content_type) body
                      b named)
            ]
      ]

  upload-object :
      (now authorization name content_type body : String) (db : Db) (b : Bucket) (m : Match)
      → (name == "index.json") ≡ false
      → get_match_by_token_id (without_bearer authorization) db ≡ some m
      → (upload_match_artifact marshal unmarshal now authorization name content_type body db b).0
        ≡ ok tt
      → (is_artifact_name name ≡ true)
        × ((upload_match_artifact marshal unmarshal now authorization name content_type body db b).1
              m.id name
            ≡ some (object_of marshal unmarshal (type_or_default content_type) body))
  unfolding upload_match_artifact is_accepted
  upload-object now authorization name content_type body db b m named its h =
      elim (Bool-cases (without_bearer authorization == "")) [
        | inl missing ↦ cc (ap is_accepted (rw (upload_match_artifact, missing) at h))
        | inr given ↦ elim (Bool-cases (is_match_active_or_cooling m)) [
          | inr over ↦ cc (ap is_accepted (rw (upload_match_artifact, given, its, over) at h))
          | inl live ↦ elim (Bool-cases (is_artifact_name name)) [
            | inr bad ↦ cc (ap is_accepted (rw (upload_match_artifact, given, its, live, bad) at h))
            | inl fine ↦ elim (Bool-cases (ltb max_artifact_bytes (len body))) [
              | inl large ↦
                  cc (
                    ap is_accepted (rw (upload_match_artifact, given, its, live, fine, large) at h))
              | inr fits ↦
                  let stored = rw (upload_match_artifact, given, its, live, fine, fits) at h in
                  (
                    fine,
                    rw (upload_match_artifact, given, its, live, fine, fits)
                        (store_artifact-object now m name content_type body b named stored),
                  )
            ]
          ]
        ]
      ]

  -- Whoever passes the gate of a match's artifacts downloads what was just uploaded, with its body and its type,
  -- or "application/octet-stream" where none was given, given that the upload was accepted and not under the index's name.
  pub download_match_artifact-upload :
      (now authorization name content_type body : String) (db : Db) (b : Bucket) (m : Match)
      → (name == "index.json") ≡ false
      → get_match_by_token_id (without_bearer authorization) db ≡ some m
      → (upload_match_artifact marshal unmarshal now authorization name content_type body db b).0
        ≡ ok tt
      → (id : String) (later : Db) (mr : MatchResult)
      → resolve_match_artifacts_auth id m.id later ≡ ok mr
      → download_match_artifact id m.id name later
          (upload_match_artifact marshal unmarshal now authorization name content_type body db b).1
        ≡ ok (record { body = body; content_type = type_or_default content_type })
  unfolding download_match_artifact
  download_match_artifact-upload now authorization name content_type body db b m named its accepted
        id later mr passed =
      let (fine, there) =
        upload-object now authorization name content_type body db b m named its accepted in
      let kind =
        type_or_default-given (type_or_default content_type) ∙ type_or_default-given content_type in
      rw (download_match_artifact, passed, fine, there)
        (ap (λ t. ok (record { body = body; content_type = t })) kind)
