-- ===== src/Api/Paths.antt =====
-- api/v1alpha1/paths.go: the path of the container collection, read from the OpenAPI document.
use k8s_container_service_pr.Base.{
  String, Bool, List, [], ◌∷◌, ◌<>◌, if◌then◌else◌, Result, ok, err,
}

abbrev first_post : List (String × Bool) → Result String String
first_post [] = err "no POST path found in OpenAPI spec"
first_post ((p, has_post) ∷ more) = if has_post then ok p else first_post more

-- PostPath, on the paths of the document in matching order, each with whether it has a POST operation,
-- or the error of GetSwagger.
unfoldable pub post_path : Result String (List (String × Bool)) → Result String String
post_path (ok paths) = first_post paths
post_path (err e) = err ("loading OpenAPI spec: " <> e)
