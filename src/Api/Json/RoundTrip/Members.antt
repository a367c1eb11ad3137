-- ===== src/Api/Json/RoundTrip/Members.antt =====
-- Ports, environment variables and images, networks and processes.
use k8s_container_service_pr.Base.{
  String, Option, none, some, List, [], ◌∷◌, ◌≡◌, refl, lookup, All,
}
use mathlib.Core.List.{append-nil}
use k8s_container_service_pr.Base.Int.{pos}
use k8s_container_service_pr.Api.{
  AnyMap, ContainerPort, ContainerNetwork, ContainerEnvVar, ContainerImage,
}
use k8s_container_service_pr.Api.Json.{JsonLib, Object, delete, unmarshal_list, marshal_list}
use k8s_container_service_pr.Api.Json.Network.{
  unmarshal_port, marshal_port, unmarshal_network, marshal_network, zero_port, zero_network,
}
use k8s_container_service_pr.Api.Json.Process.{
  unmarshal_image, marshal_image, unmarshal_env_var, marshal_env_var, zero_image, zero_env_var,
}
use k8s_container_service_pr.Api.Json.Keys.{NodupKeys}
use k8s_container_service_pr.Api.Json.Laws.{
  JsonLaws, Comes, FreeIn, IsClean, IsClean-FreeIn, object-written, read_field-Decodes,
}
use k8s_container_service_pr.Api.Json.RoundTrip.{two_fields}
use k8s_container_service_pr.Api.Json.RoundTrip.Optional.{
  put_raw, IsTexts, Comings, put_some_lem, list-Comes,
}

abbrev pub AllSome : {A : Type 0} → (A → Type 0) → Option (List A) → Type 0
AllSome P none = Unit
AllSome P (some l) = All P l

-- The fields of a network, as they are written.
abbrev network_fields : Option String → Option String → Object
network_fields ip ports = put_raw "ports" ports (put_raw "ip" ip [])

module _ (lib : JsonLib) (laws : JsonLaws lib) where
  network_fields-read :
      (p : AnyMap) (ip ports : Option String)
      → FreeIn "ip" p
      → FreeIn "ports" p
      → IsTexts lib laws ip
      → IsTexts lib laws ports
      → All (λ e. FreeIn e.0 p) (network_fields ip ports)
        × NodupKeys (network_fields ip ports)
        × All (λ e. laws.IsText e.1) (network_fields ip ports)
        × (lookup "ip" (network_fields ip ports) ≡ ip)
        × (lookup "ports" (delete "ip" (network_fields ip ports)) ≡ ports)
        × (delete "ports" (delete "ip" (network_fields ip ports)) ≡ [])
  unfolding lookup
  network_fields-read p none none f s t u = (tt, tt, tt, refl, refl, refl)
  network_fields-read p (some x) none f s t u = ((f, tt), (tt, tt), (t, tt), refl, refl, refl)
  network_fields-read p none (some y) f s t u = ((s, tt), (tt, tt), (u, tt), refl, refl, refl)
  network_fields-read p (some x) (some y) f s t u =
      ((s, (f, tt)), ((refl, tt), (tt, tt)), (u, (t, tt)), refl, refl, refl)

  abbrev pub Port : ContainerPort → Type 0
  Port a = IsClean lib laws ("container_port" ∷ "visibility" ∷ []) a.additional_properties

  port-Comes :
      (a : ContainerPort)
      → Port a
      → Comes laws.IsText (marshal_port lib) (unmarshal_port lib zero_port) a a
  unfolding marshal_port unmarshal_port
  port-Comes a clean =
      let (x, mx, tx, bx) = laws.int a.container_port (pos 0) in
      let (y, my, ty, by) = laws.text a.visibility "" in
      rw (mx, my)
        (two_fields lib laws "container_port" "visibility" (lib.unmarshal_int (pos 0))
          (lib.unmarshal_string "") (pos 0) ""
          (λ n v p. record { container_port = n; visibility = v; additional_properties = p })
          a.container_port a.visibility a.additional_properties x y refl refl bx by tx ty clean)

  abbrev pub EnvVar : ContainerEnvVar → Type 0
  EnvVar a = IsClean lib laws ("name" ∷ "value" ∷ []) a.additional_properties

  pub env_var-Comes :
      (a : ContainerEnvVar)
      → EnvVar a
      → Comes laws.IsText (marshal_env_var lib) (unmarshal_env_var lib zero_env_var) a a
  unfolding marshal_env_var unmarshal_env_var
  env_var-Comes a clean =
      let (x, mx, tx, bx) = laws.text a.name "" in
      let (y, my, ty, by) = laws.text a.value "" in
      rw (mx, my)
        (two_fields lib laws "name" "value" (lib.unmarshal_string "") (lib.unmarshal_string "") ""
          "" (λ n v p. record { name = n; value = v; additional_properties = p }) a.name a.value
          a.additional_properties x y refl refl bx by tx ty clean)

  abbrev pub Image : ContainerImage → Type 0
  Image a = IsClean lib laws ("reference" ∷ []) a.additional_properties

  pub image-Comes :
      (a : ContainerImage)
      → Image a
      → Comes laws.IsText (marshal_image lib) (unmarshal_image lib zero_image) a a
  unfolding marshal_image unmarshal_image lookup
  image-Comes a clean =
      let (x, mx, tx, bx) = laws.text a.reference "" in
      let (f, u) = IsClean-FreeIn lib laws ("reference" ∷ []) a.additional_properties clean in
      let fields : Object = ("reference", x) ∷ [] in
      let (raws, (text, wrote, is_text, back), keep, additional) =
        object-written lib laws a.additional_properties fields ("reference" ∷ []) clean (f, tt)
          (tt, tt) (tx, tt) in
      let one =
        read_field-Decodes "reference" (lib.unmarshal_string "") "" a.reference raws fields (some x)
          (keep "reference" f) refl bx in
      (text, rw mx wrote, is_text, rw (back, one, append-nil raws, additional) refl)

  abbrev pub Network : ContainerNetwork → Type 0
  Network a = AllSome Port a.ports × IsClean lib laws ("ip" ∷ "ports" ∷ []) a.additional_properties

  ports-Comings :
      (o : Option (List ContainerPort))
      → AllSome Port o
      → Comings lib laws
          (marshal_list lib (marshal_port lib))
          (unmarshal_list lib (unmarshal_port lib zero_port))
          o
  ports-Comings none h = tt
  ports-Comings (some ps) h =
      list-Comes lib laws (marshal_port lib) (unmarshal_port lib zero_port) ps (each ps h)
    where
      each :
          (l : List ContainerPort)
          → All Port l
          → All (λ a. Comes laws.IsText (marshal_port lib) (unmarshal_port lib zero_port) a a) l
      each [] k = tt
      each (a ∷ l) (k, ks) = (port-Comes a k, each l ks)

  pub network-Comes :
      (a : ContainerNetwork)
      → Network a
      → Comes laws.IsText (marshal_network lib) (unmarshal_network lib zero_network) a a
  unfolding marshal_network unmarshal_network
  network-Comes a (ports, clean) =
      let p = a.additional_properties in
      let (f, (s, u)) = IsClean-FreeIn lib laws ("ip" ∷ "ports" ∷ []) p clean in
      let (x, (mx, tx, bx)) =
        put_some_lem lib laws lib.marshal_string lib.unmarshal_string_pointer a.ip
          (pointer-Comings a.ip) in
      let (y, (my, ty, by)) =
        put_some_lem lib laws (marshal_list lib (marshal_port lib))
          (unmarshal_list lib (unmarshal_port lib zero_port)) a.ports
          (ports-Comings a.ports ports) in
      let (free, distinct, texts, found_ip, found_ports, empty) =
        network_fields-read p x y f s tx ty in
      let (raws, (text, wrote, is_text, back), keep, additional) =
        object-written lib laws p (network_fields x y) ("ip" ∷ "ports" ∷ []) clean free distinct
          texts in
      let one =
        read_field-Decodes "ip" lib.unmarshal_string_pointer none a.ip raws (network_fields x y) x
          (keep "ip" f) found_ip bx in
      let two =
        read_field-Decodes "ports" (unmarshal_list lib (unmarshal_port lib zero_port)) none a.ports
          raws (delete "ip" (network_fields x y)) y (keep "ports" s) found_ports by in
      (
        text,
        rw (mx "ip" [], my "ports" (put_raw "ip" x [])) wrote,
        is_text,
        rw (back, one, two, empty, append-nil raws, additional) refl,
      )
    where
      pointer-Comings :
          (o : Option String) → Comings lib laws lib.marshal_string lib.unmarshal_string_pointer o
      pointer-Comings none = tt
      pointer-Comings (some s) = laws.pointer s
