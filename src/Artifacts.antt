-- ===== src/Artifacts.antt =====
-- api/match/artifact.go and the artifacts of external/aws/aws.go: the files of a match in the object store.
-- `Bucket` is the objects `artifacts/<match>/<name>` by match and name; neither holds a slash. A body is a text. The
-- map of an index is a list with one entry for each name; encoding/json on it is the parameters `marshal` and
-- `unmarshal`, which also answers what an error leaves in the map. Errors of the object store are left out.
pub mod Uploads
pub mod Downloads
use Prim.Native.String.{len}
use elo_service.Prelude.{
  ℕ, ◌^◌, String, Bool, true, false, not, ◌&&◌, Option, none, some, List, [], ◌∷◌, ◌++◌, map,
  nat_eq, string_eq, ltb, leb, if◌then◌else◌, ◌==◌, length, update_by, contains,
}
use elo_service.Store.{Match, MatchResult, Game, Db}
use elo_service.Matches.{get_match_by_token_id, is_match_active_or_cooling}
use elo_service.Results.{get_match_result, has_public_results, can_user_see_match_result}
use elo_service.PlayerData.{all_key_chars}
use elo_service.PlayerData.Handlers.{without_bearer}

pub record ArtifactMeta : Type 0 where
  pub content_type : String
  pub size_bytes : ℕ
  pub uploaded_at : String

abbrev pub Index : Type 0
Index = List (String × ArtifactMeta)

abbrev pub name_of : String × ArtifactMeta → String
name_of e = e.0

-- An assignment to the map.
abbrev pub set_meta : String → ArtifactMeta → Index → Index
set_meta name m i =
    if contains (map name_of i) name
    then update_by (λ e. name_of e == name) (λ e. (name, m)) i
    else i ++ ((name, m) ∷ [])

pub record Object : Type 0 where
  pub body : String
  pub content_type : String

abbrev pub Bucket : Type 0
Bucket = String → String → Option Object

unfoldable pub put_object : String → String → Object → Bucket → Bucket
put_object match_id name o b m n = if match_id == m && name == n then some o else b m n

abbrev pub max_artifact_bytes : ℕ
max_artifact_bytes = 2 ^ 20

abbrev pub max_artifacts_per_match : ℕ
max_artifacts_per_match = 10

-- `^[a-zA-Z0-9._-]{1,64}$`
unfoldable pub is_artifact_name : String → Bool
unfolding all_key_chars
is_artifact_name name = not (name == "") && leb (len name) 64 && all_key_chars name

abbrev pub type_or_default : String → String
type_or_default content_type =
    if content_type == "" then "application/octet-stream" else content_type

pub data ArtifactAnswer (A : Type 0) : Type 0 where
  ok : A → ArtifactAnswer A
  bad_request unauthorized forbidden not_found too_large internal_error : ArtifactAnswer A

module _ (marshal : Index → String) (unmarshal : String → Bool × Index) where
  -- `none` is an index that does not parse; a missing one is empty.
  abbrev pub index_in : Option Object → Option Index
  index_in none = some []
  index_in (some o) = let (parsed, index) = unmarshal o.body in if parsed then some index else none

  -- What an upload starts the new index from: an error of the parser is passed over.
  abbrev pub left_in : Option Object → Index
  left_in none = []
  left_in (some o) = (unmarshal o.body).1

  unfoldable pub get_match_artifact_index : String → Bucket → Option Index
  get_match_artifact_index match_id b = index_in (b match_id "index.json")

  -- The object first, and then the index, with what the bucket holds by now.
  unfoldable pub put_match_artifact : String → String → String → String → String → Bucket → Bucket
  unfolding put_object
  put_match_artifact now match_id name content_type body b =
      let kind = type_or_default content_type in
      let stored = put_object match_id name (record { body = body; content_type = kind }) b in
      let meta : ArtifactMeta = record {
        content_type = kind;
        size_bytes = len body;
        uploaded_at = now;
      } in
      put_object match_id "index.json"
        (record {
          body = marshal (set_meta name meta (left_in (stored match_id "index.json")));
          content_type = "application/json";
        })
        stored

  -- The last part of UploadMatchArtifact: the count of names, and the writes.
  unfoldable pub store_artifact :
      String → Match → String → String → String → Bucket → ArtifactAnswer (Unit {0}) × Bucket
  unfolding get_match_artifact_index put_match_artifact
  store_artifact now m name content_type body b = elim (get_match_artifact_index m.id b) [
    | none ↦ (internal_error, b)
    | some index ↦
        if not (contains (map name_of index) name) && leb max_artifacts_per_match (length index)
        then (bad_request, b)
        else (ok tt, put_match_artifact now m.id name (type_or_default content_type) body b)
  ]

  unfoldable pub upload_match_artifact :
      String → String → String → String → String → Db → Bucket → ArtifactAnswer (Unit {0}) × Bucket
  unfolding store_artifact is_artifact_name
  upload_match_artifact now authorization name content_type body db b =
      let token = without_bearer authorization in
      if token == "" then (unauthorized, b) else elim (get_match_by_token_id token db) [
        | none ↦ (unauthorized, b)
        | some m ↦
            if not (is_match_active_or_cooling m)
            then (forbidden, b)
            else if not (is_artifact_name name)
            then (bad_request, b)
            else if ltb max_artifact_bytes (len body)
            then (too_large, b)
            else store_artifact now m name content_type body b
      ]

-- `id` is "" when nobody is logged in.
unfoldable pub resolve_match_artifacts_auth : String → String → Db → ArtifactAnswer MatchResult
resolve_match_artifacts_auth id match_id db = elim (get_match_result match_id db) [
  | none ↦ not_found
  | some mr ↦
      if id == ""
      then unauthorized
      else if has_public_results mr.game_id db
      then ok mr
      else elim (can_user_see_match_result id match_id db) [
        | none ↦ internal_error
        | some can_see ↦ if not can_see then not_found else ok mr
      ]
]

unfoldable pub download_match_artifact :
    String → String → String → Db → Bucket → ArtifactAnswer Object
unfolding resolve_match_artifacts_auth is_artifact_name
download_match_artifact id match_id name db b = elim (resolve_match_artifacts_auth id match_id db) [
  | ok mr ↦ if not (is_artifact_name name) then bad_request else elim (b match_id name) [
    | none ↦ not_found
    | some o ↦ ok (record o { content_type = type_or_default o.content_type })
  ]
  | bad_request ↦ bad_request
  | unauthorized ↦ unauthorized
  | forbidden ↦ forbidden
  | not_found ↦ not_found
  | too_large ↦ too_large
  | internal_error ↦ internal_error
]
