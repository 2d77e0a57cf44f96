-- ===== src/Examples/Artifacts.antt =====
-- Runs of uploads into an empty object store, for the match m1 of the fixtures.
use elo_service.Prelude.{some, ◌≡◌, refl, arith, ◌≤◌, none, [], ◌∷◌, length}
use mathlib.Core.Path.{subst}
use elo_service.Artifacts.{
  Bucket, Index, get_match_artifact_index, upload_match_artifact, ArtifactAnswer,
  resolve_match_artifacts_auth, download_match_artifact,
}
use elo_service.Artifacts.Uploads.{
  some_injective, IsCapped, IsUploaded, upload_match_artifact-IsUploaded,
}
use elo_service.Examples.Codec.{marshal, unmarshal, unmarshal-marshal}
use elo_service.Examples.Fixtures.{one_db, one_match}
use elo_service.Store.{MatchResult, Db}
use elo_service.Matches.{get_match_by_token_id, is_match_active_or_cooling}
use elo_service.Results.{result_row, get_match_result, has_public_results}
use elo_service.Artifacts.Downloads.{download_match_artifact-upload}

abbrev pub no_objects : Bucket
no_objects = λ m n. none

no_objects-IsCapped : IsCapped marshal unmarshal no_objects
unfolding get_match_artifact_index
no_objects-IsCapped k i h =
    subst (λ (l : Index). length l ≤ 10) (some_injective [] i h) (omega arith)

upload_match_artifact-IsUploaded_example :
    IsUploaded marshal unmarshal unmarshal-marshal "Bearer a1" "replay" "text/plain" "moves" one_db
      no_objects
      (upload_match_artifact marshal unmarshal "now" "Bearer a1" "replay" "text/plain" "moves"
        one_db no_objects).1
upload_match_artifact-IsUploaded_example =
    upload_match_artifact-IsUploaded marshal unmarshal unmarshal-marshal "now" "Bearer a1" "replay"
      "text/plain" "moves" one_db no_objects refl no_objects-IsCapped

abbrev the_result : MatchResult
the_result = result_row one_match 9 ("ann" ∷ []) "win" "" []

abbrev db_with_result : Db
db_with_result = record one_db { results = the_result ∷ [] }

anyone_may_read :
    resolve_match_artifacts_auth "zoe" "m1" db_with_result ≡ ArtifactAnswer.ok the_result
unfolding resolve_match_artifacts_auth get_match_result has_public_results
anyone_may_read = refl

accepted :
    (upload_match_artifact marshal unmarshal "now" "Bearer a1" "replay" "" "moves" one_db
      no_objects).0
    ≡ ArtifactAnswer.ok tt
unfolding upload_match_artifact get_match_by_token_id is_match_active_or_cooling
accepted = refl

by_its_token : get_match_by_token_id "a1" one_db ≡ some one_match
unfolding get_match_by_token_id
by_its_token = refl

download_match_artifact-upload_example :
    download_match_artifact "zoe" "m1" "replay" db_with_result
      (upload_match_artifact marshal unmarshal "now" "Bearer a1" "replay" "" "moves" one_db
        no_objects).1
    ≡ ArtifactAnswer.ok (record { body = "moves"; content_type = "application/octet-stream" })
download_match_artifact-upload_example =
    download_match_artifact-upload marshal unmarshal "now" "Bearer a1" "replay" "" "moves" one_db
      no_objects one_match refl by_its_token accepted "zoe" db_with_result the_result
      anyone_may_read
