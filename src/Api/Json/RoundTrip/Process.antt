-- ===== src/Api/Json/RoundTrip/Process.antt =====
-- Processes, and the parts of a specification together.
use k8s_container_service_pr.Base.{
  String, Option, none, some, List, [], ◌∷◌, ◌≡◌, refl, lookup, All, All-filter, not, ◌==◌,
}
use mathlib.Core.List.{append-nil}
use k8s_container_service_pr.Api.{
  ContainerEnvVar, ContainerImage, ContainerNetwork, ContainerProcess, ContainerResources,
}
use k8s_container_service_pr.Api.Json.{JsonLib, Object, delete, unmarshal_list, marshal_list}
use k8s_container_service_pr.Api.Json.Resources.{
  unmarshal_resources, marshal_resources, zero_resources,
}
use k8s_container_service_pr.Api.Json.Network.{unmarshal_network, marshal_network, zero_network}
use k8s_container_service_pr.Api.Json.Process.{
  unmarshal_image, marshal_image, unmarshal_env_var, marshal_env_var, unmarshal_process,
  marshal_process, zero_image, zero_env_var, zero_process,
}
use k8s_container_service_pr.Api.Json.Keys.{NodupKeys}
use k8s_container_service_pr.Api.Json.Laws.{
  JsonLaws, Comes, FreeIn, IsClean, IsClean-FreeIn, object-written, read_field-Decodes,
}
use k8s_container_service_pr.Api.Json.RoundTrip.{Resources, resources-Comes}
use k8s_container_service_pr.Api.Json.RoundTrip.Optional.{
  put_raw, IsTexts, Comings, put_some_lem, list-Comes,
}
use k8s_container_service_pr.Api.Json.RoundTrip.Members.{
  AllSome, EnvVar, Image, Network, env_var-Comes, image-Comes, network-Comes,
}

-- The fields of a process, as they are written.
abbrev process_fields : Option String → Option String → Option String → Object
process_fields args command env =
    put_raw "env" env (put_raw "command" command (put_raw "args" args []))

-- A predicate of a field, if it is written.
abbrev Holds : (String × String → Type 0) → String → Option String → Type 0
Holds P name none = Unit
Holds P name (some x) = P (name, x)

put_raw-All :
    (P : String × String → Type 0) (name : String) (o : Option String) (fields : Object)
    → Holds P name o
    → All P fields
    → All P (put_raw name o fields)
put_raw-All P name none fields h all = all
put_raw-All P name (some x) fields h all = (h, All-filter P (λ e. not (e.0 == name)) fields all)

process_fields-All :
    (P : String × String → Type 0) (args command env : Option String)
    → Holds P "args" args
    → Holds P "command" command
    → Holds P "env" env
    → All P (process_fields args command env)
process_fields-All P args command env a c e =
    put_raw-All P "env" env _ e
      (put_raw-All P "command" command _ c (put_raw-All P "args" args [] a tt))

module _ (lib : JsonLib) (laws : JsonLaws lib) where
  abbrev ReadsBack : Option String → Option String → Option String → Type 0
  ReadsBack args command env =
      let fields = process_fields args command env in
      NodupKeys fields
      × (lookup "args" fields ≡ args)
      × (lookup "command" (delete "args" fields) ≡ command)
      × (lookup "env" (delete "command" (delete "args" fields)) ≡ env)
      × (delete "env" (delete "command" (delete "args" fields)) ≡ [])

  process_fields-ReadsBack : (args command env : Option String) → ReadsBack args command env
  unfolding lookup
  process_fields-ReadsBack none none none = (tt, refl, refl, refl, refl)
  process_fields-ReadsBack (some x) none none = ((tt, tt), refl, refl, refl, refl)
  process_fields-ReadsBack none (some y) none = ((tt, tt), refl, refl, refl, refl)
  process_fields-ReadsBack none none (some z) = ((tt, tt), refl, refl, refl, refl)
  process_fields-ReadsBack (some x) (some y) none = (((refl, tt), (tt, tt)), refl, refl, refl, refl)
  process_fields-ReadsBack (some x) none (some z) = (((refl, tt), (tt, tt)), refl, refl, refl, refl)
  process_fields-ReadsBack none (some y) (some z) = (((refl, tt), (tt, tt)), refl, refl, refl, refl)
  process_fields-ReadsBack (some x) (some y) (some z) =
      (((refl, (refl, tt)), ((refl, tt), (tt, tt))), refl, refl, refl, refl)

  strings-Comings :
      (o : Option (List String)) → Comings lib laws lib.marshal_strings lib.unmarshal_strings o
  strings-Comings none = tt
  strings-Comings (some l) = laws.strings l

  env-Comings :
      (o : Option (List ContainerEnvVar))
      → AllSome (EnvVar lib laws) o
      → Comings lib laws
          (marshal_list lib (marshal_env_var lib))
          (unmarshal_list lib (unmarshal_env_var lib zero_env_var))
          o
  env-Comings none h = tt
  env-Comings (some vs) h =
      list-Comes lib laws (marshal_env_var lib) (unmarshal_env_var lib zero_env_var) vs (each vs h)
    where
      each :
          (l : List ContainerEnvVar)
          → All (EnvVar lib laws) l
          → All
              (λ a.
                Comes laws.IsText (marshal_env_var lib) (unmarshal_env_var lib zero_env_var) a a)
              l
      each [] k = tt
      each (a ∷ l) (k, ks) = (env_var-Comes lib laws a k, each l ks)

  abbrev pub ProcessParts : ContainerProcess → Type 0
  ProcessParts a =
      AllSome (EnvVar lib laws) a.env
      × IsClean lib laws ("args" ∷ "command" ∷ "env" ∷ []) a.additional_properties

  process-Comes :
      (a : ContainerProcess)
      → ProcessParts a
      → Comes laws.IsText (marshal_process lib) (unmarshal_process lib zero_process) a a
  unfolding marshal_process unmarshal_process
  process-Comes a (env, clean) =
      let p = a.additional_properties in
      let (f, (s, (t, u))) = IsClean-FreeIn lib laws ("args" ∷ "command" ∷ "env" ∷ []) p clean in
      let (x, (mx, tx, bx)) =
        put_some_lem lib laws lib.marshal_strings lib.unmarshal_strings a.args
          (strings-Comings a.args) in
      let (y, (my, ty, by)) =
        put_some_lem lib laws lib.marshal_strings lib.unmarshal_strings a.command
          (strings-Comings a.command) in
      let (z, (mz, tz, bz)) =
        put_some_lem lib laws (marshal_list lib (marshal_env_var lib))
          (unmarshal_list lib (unmarshal_env_var lib zero_env_var)) a.env (env-Comings a.env env) in
      let fields = process_fields x y z in
      let (distinct, found_args, found_command, found_env, empty) =
        process_fields-ReadsBack x y z in
      let (raws, (text, wrote, is_text, back), keep, additional) =
        object-written lib laws p fields ("args" ∷ "command" ∷ "env" ∷ []) clean
          (process_fields-All (λ e. FreeIn e.0 p) x y z (holds_free "args" x f)
            (holds_free "command" y s) (holds_free "env" z t))
          distinct
          (process_fields-All (λ e. laws.IsText e.1) x y z (holds_text "args" x tx)
            (holds_text "command" y ty) (holds_text "env" z tz)) in
      let one =
        read_field-Decodes "args" lib.unmarshal_strings none a.args raws fields x (keep "args" f)
          found_args bx in
      let two =
        read_field-Decodes "command" lib.unmarshal_strings none a.command raws
          (delete "args" fields) y (keep "command" s) found_command by in
      let three =
        read_field-Decodes "env" (unmarshal_list lib (unmarshal_env_var lib zero_env_var)) none
          a.env raws (delete "command" (delete "args" fields)) z (keep "env" t) found_env bz in
      (
        text,
        rw
            (
              mx "args" [],
              my "command" (put_raw "args" x []),
              mz "env" (put_raw "command" y (put_raw "args" x [])),
            )
            wrote,
        is_text,
        rw (back, one, two, three, empty, append-nil raws, additional) refl,
      )
    where
      holds_free :
          (name : String) (o : Option String)
          → FreeIn name a.additional_properties
          → Holds (λ e. FreeIn e.0 a.additional_properties) name o
      holds_free name none h = tt
      holds_free name (some x) h = h

      holds_text :
          (name : String) (o : Option String)
          → IsTexts lib laws o
          → Holds (λ e. laws.IsText e.1) name o
      holds_text name none h = tt
      holds_text name (some x) h = h

  -- What MarshalJSON writes of the image, the resources, the network and the process of a
  -- specification, UnmarshalJSON reads back into zero values, with the additional properties, those
  -- of the amounts, the ports and the environment variables included. The additional properties are
  -- such as decoding leaves: their values survive json.Marshal, none has the name of a declared field,
  -- and the map is nil where it would be empty.
  pub json_round_trip :
      (image : ContainerImage) (resources : ContainerResources) (network : ContainerNetwork)
      (process : ContainerProcess)
      → Image lib laws image
      → Resources lib laws resources
      → Network lib laws network
      → ProcessParts process
      → Comes laws.IsText (marshal_image lib) (unmarshal_image lib zero_image) image image
        × Comes laws.IsText
            (marshal_resources lib)
            (unmarshal_resources lib zero_resources)
            resources
            resources
        × Comes laws.IsText
            (marshal_network lib)
            (unmarshal_network lib zero_network)
            network
            network
        × Comes laws.IsText
            (marshal_process lib)
            (unmarshal_process lib zero_process)
            process
            process
  json_round_trip image resources network process i r n p = (
    image-Comes lib laws image i,
    resources-Comes lib laws resources r,
    network-Comes lib laws network n,
    process-Comes process p,
  )
