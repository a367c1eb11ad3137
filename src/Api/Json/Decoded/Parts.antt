-- ===== src/Api/Json/Decoded/Parts.antt =====
-- The parts of a specification, as they are decoded.
use k8s_container_service_pr.Base.{
  String, Option, none, some, List, [], ◌∷◌, ◌≡◌, inl, inr, Result-cases, All, Result, ok,
}
use k8s_container_service_pr.Api.{
  AnyMap, ContainerCpu, ContainerMemory, ContainerResources, ContainerEnvVar, ContainerNetwork,
  ContainerPort,
}
use mathlib.Core.Path.{subst}
use k8s_container_service_pr.Base.Int.{pos}
use k8s_container_service_pr.Api.Json.{
  JsonLib, ◌>>=◌, read_field, read_additional, unmarshal_each, unmarshal_list,
}
use k8s_container_service_pr.Api.Json.Resources.{
  unmarshal_cpu, unmarshal_memory, unmarshal_resources, zero_cpu, zero_memory, zero_resources,
}
use k8s_container_service_pr.Api.Json.Laws.{JsonLaws, IsClean}
use k8s_container_service_pr.Api.Json.RoundTrip.{Cpu, Memory, Resources}
use k8s_container_service_pr.Api.Json.RoundTrip.Members.{AllSome, EnvVar, Network, Port}
use k8s_container_service_pr.Api.Json.Network.{
  unmarshal_port, unmarshal_network, zero_port, zero_network,
}
use k8s_container_service_pr.Api.Json.Process.{unmarshal_env_var, zero_env_var}
use k8s_container_service_pr.Api.Json.Decoded.{
  err≢ok, ok_inj, bind-ok, IsRead, unmarshal_object-Left, read_field-Left, read_additional-IsClean,
}

module _ (lib : JsonLib) (laws : JsonLaws lib) where
  -- A type with two declared fields.
  two_fields-IsRead :
      {A B C : Type 0} (first second : String) (decode_a : String → Result String A)
      (decode_b : String → Result String B) (before_a : A) (before_b : B)
      (make : A → B → AnyMap → C) (text : String) (c : C)
      → (lib.unmarshal_object text >>= λ object. read_field first decode_a before_a object >>= λ x.
          read_field second decode_b before_b x.1 >>= λ y.
          read_additional lib none y.1 >>= λ p. ok (make x.0 y.0 p))
        ≡ ok c
      → (a : A) × (b : B) × (p : AnyMap) × (make a b p ≡ c)
        × IsRead decode_a before_a a
        × IsRead decode_b before_b b
        × IsClean lib laws (first ∷ second ∷ []) p
  two_fields-IsRead first second decode_a decode_b before_a before_b make text c h =
      let (object, got, h1) = bind-ok (lib.unmarshal_object text) _ c h in
      let (x, read_a, h2) = bind-ok (read_field first decode_a before_a object) _ c h1 in
      let (y, read_b, h3) = bind-ok (read_field second decode_b before_b x.1) _ c h2 in
      let (p, more, h4) = bind-ok (read_additional lib none y.1) _ c h3 in
      let (is_a, left_a) =
        read_field-Left lib laws [] first decode_a before_a object x
          (unmarshal_object-Left lib laws text object got) read_a in
      let (is_b, (nodup, (free_second, (free_first, t)))) =
        read_field-Left lib laws (first ∷ []) second decode_b before_b x.1 y left_a read_b in
      (
        x.0,
        y.0,
        p,
        ok_inj h4,
        is_a,
        is_b,
        read_additional-IsClean lib laws (first ∷ second ∷ []) y.1 p more
            (nodup, (free_first, (free_second, t))),
      )

  unmarshal_cpu-Cpu :
      (text : String) (a : ContainerCpu) → unmarshal_cpu lib zero_cpu text ≡ ok a → Cpu lib laws a
  unfolding unmarshal_cpu
  unmarshal_cpu-Cpu text a h =
      let (x, y, p, made, rx, ry, clean) =
        two_fields-IsRead "max" "min" (lib.unmarshal_int (pos 0)) (lib.unmarshal_int (pos 0))
          (pos 0) (pos 0) (λ x y p. record { max = x; min = y; additional_properties = p }) text a
          h in
      subst (Cpu lib laws) made clean

  unmarshal_memory-Memory :
      (text : String) (a : ContainerMemory)
      → unmarshal_memory lib zero_memory text ≡ ok a
      → Memory lib laws a
  unfolding unmarshal_memory
  unmarshal_memory-Memory text a h =
      let (x, y, p, made, rx, ry, clean) =
        two_fields-IsRead "max" "min" (lib.unmarshal_string "") (lib.unmarshal_string "") "" ""
          (λ x y p. record { max = x; min = y; additional_properties = p }) text a h in
      subst (Memory lib laws) made clean

  -- A field of a type with methods, as it is read.
  pub read-Holds :
      {A : Type 0} (P : A → Type 0) (decode : String → Result String A) (before a : A)
      → P before
      → ((text : String) → (b : A) → decode text ≡ ok b → P b)
      → IsRead decode before a
      → P a
  read-Holds P decode before a start each (inl same) = subst P same start
  read-Holds P decode before a start each (inr (raw, decoded)) = each raw a decoded

  pub unmarshal_resources-Resources :
      (text : String) (a : ContainerResources)
      → unmarshal_resources lib zero_resources text ≡ ok a
      → Resources lib laws a
  unfolding unmarshal_resources
  unmarshal_resources-Resources text a h =
      let (x, y, p, made, rx, ry, clean) =
        two_fields-IsRead "cpu" "memory" (unmarshal_cpu lib zero_cpu)
          (unmarshal_memory lib zero_memory) zero_cpu zero_memory
          (λ x y p. record { cpu = x; memory = y; additional_properties = p }) text a h in
      subst (Resources lib laws) made (
        read-Holds (Cpu lib laws) (unmarshal_cpu lib zero_cpu) zero_cpu x tt unmarshal_cpu-Cpu rx,
        read-Holds (Memory lib laws) (unmarshal_memory lib zero_memory) zero_memory y tt
            unmarshal_memory-Memory ry,
        clean,
      )

  unmarshal_port-Port :
      (text : String) (a : ContainerPort)
      → unmarshal_port lib zero_port text ≡ ok a
      → Port lib laws a
  unfolding unmarshal_port
  unmarshal_port-Port text a h =
      let (x, y, p, made, rx, ry, clean) =
        two_fields-IsRead "container_port" "visibility" (lib.unmarshal_int (pos 0))
          (lib.unmarshal_string "") (pos 0) ""
          (λ x y p. record { container_port = x; visibility = y; additional_properties = p }) text a
          h in
      subst (Port lib laws) made clean

  pub unmarshal_env_var-EnvVar :
      (text : String) (a : ContainerEnvVar)
      → unmarshal_env_var lib zero_env_var text ≡ ok a
      → EnvVar lib laws a
  unfolding unmarshal_env_var
  unmarshal_env_var-EnvVar text a h =
      let (x, y, p, made, rx, ry, clean) =
        two_fields-IsRead "name" "value" (lib.unmarshal_string "") (lib.unmarshal_string "") "" ""
          (λ x y p. record { name = x; value = y; additional_properties = p }) text a h in
      subst (EnvVar lib laws) made clean

  -- The elements of a list, each by the method of its type.
  unmarshal_each-All :
      {A : Type 0} (P : A → Type 0) (decode : String → Result String A)
      → ((text : String) → (b : A) → decode text ≡ ok b → P b)
      → (raws : List String) (l : List A) → unmarshal_each lib decode raws ≡ ok l
      → All P l
  unmarshal_each-All P decode each [] l h = subst (All P) (ok_inj h) tt
  unmarshal_each-All P decode each (raw ∷ raws) l h =
      let (a, read, h1) = bind-ok (decode raw) _ l h in
      let (rest, others, h2) = bind-ok (unmarshal_each lib decode raws) (λ m. ok (a ∷ m)) l h1 in
      subst (All P) (ok_inj h2) (each raw a read, unmarshal_each-All P decode each raws rest others)

  pub unmarshal_list-AllSome :
      {A : Type 0} (P : A → Type 0) (decode : String → Result String A)
      → ((text : String) → (b : A) → decode text ≡ ok b → P b)
      → (text : String) (o : Option (List A)) → unmarshal_list lib decode text ≡ ok o
      → AllSome P o
  unmarshal_list-AllSome P decode each text o h = elim (Result-cases (lib.unmarshal_array text)) [
    | inr (e, failed) ↦ absurd (err≢ok (rw (unmarshal_list, failed) at h))
    | inl (none, done) ↦ subst (AllSome P) (ok_inj (rw (unmarshal_list, done) at h)) tt
    | inl (some raws, done) ↦
        let (l, read, made) =
          bind-ok (unmarshal_each lib decode raws) (λ l. ok (some l)) o
            (rw (unmarshal_list, done) at h) in
        subst (AllSome P) (ok_inj made) (unmarshal_each-All P decode each raws l read)
  ]

  pub unmarshal_network-Network :
      (text : String) (a : ContainerNetwork)
      → unmarshal_network lib zero_network text ≡ ok a
      → Network lib laws a
  unfolding unmarshal_network
  unmarshal_network-Network text a h =
      let decode = unmarshal_list lib (unmarshal_port lib zero_port) in
      let (x, y, p, made, rx, ry, clean) =
        two_fields-IsRead "ip" "ports" lib.unmarshal_string_pointer decode none none
          (λ x y p. record { ip = x; ports = y; additional_properties = p }) text a h in
      subst (Network lib laws) made (
        read-Holds (AllSome (Port lib laws)) decode none y tt
            (unmarshal_list-AllSome (Port lib laws) (unmarshal_port lib zero_port)
              unmarshal_port-Port)
            ry,
        clean,
      )
