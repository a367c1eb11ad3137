-- ===== src/Examples/Json.antt =====
-- A lawful JSON library with texts of its own, and the parts of a specification through it.
use mathlib.Core.Path.{subst}
use k8s_container_service_pr.Base.{
  ℕ, zero, suc, String, none, some, List, [], ◌∷◌, ◌==◌, ◌≡◌, refl, ap, if◌then◌else◌, length,
  Result, ok, err,
}
use k8s_container_service_pr.Base.Int.{ℤ, pos, negsuc}
use k8s_container_service_pr.Kube.Memory.Selectors.{parse_set, set_string, parse_set-set_string}
use k8s_container_service_pr.Api.{
  AnyValue, string_value, ContainerImage, ContainerResources, ContainerNetwork, ContainerProcess,
}
use k8s_container_service_pr.Api.Enums.{visibility_external}
use k8s_container_service_pr.Api.Json.{JsonLib, Object, set_key}
use k8s_container_service_pr.Api.Json.Keys.{NodupKeys, IsFree-delete, NodupKeys-delete, delete_free}
use k8s_container_service_pr.Api.Json.Resources.{
  marshal_resources, unmarshal_resources, zero_resources,
}
use k8s_container_service_pr.Api.Json.Network.{marshal_network, unmarshal_network, zero_network}
use k8s_container_service_pr.Api.Json.Process.{
  marshal_image, unmarshal_image, zero_image, marshal_process, unmarshal_process, zero_process,
}
use k8s_container_service_pr.Api.Json.Laws.{JsonLaws, Comes}
use k8s_container_service_pr.Api.Json.RoundTrip.Process.{json_round_trip}
use k8s_container_service_pr.Api.Json.Decoded.{ok_inj}

abbrev pub listed : List String → Object
listed [] = []
listed (s ∷ l) = (s, "") ∷ listed l

abbrev texts_in : Object → List String
texts_in [] = []
texts_in ((s, t) ∷ o) = s ∷ texts_in o

texts_in-listed : (l : List String) → texts_in (listed l) ≡ l
texts_in-listed [] = refl
texts_in-listed (s ∷ l) = ap (λ m. s ∷ m) (texts_in-listed l)

abbrev marks : ℕ → Object
marks zero = []
marks (suc n) = ("", "") ∷ marks n

length-marks : (n : ℕ) → length (marks n) ≡ n
length-marks zero = refl
length-marks (suc n) = ap suc (length-marks n)

abbrev pub int_marks : ℤ → Object
int_marks (pos n) = ("+", "") ∷ marks n
int_marks (negsuc n) = ("-", "") ∷ marks n

abbrev int_of : Object → ℤ
int_of [] = pos 0
int_of ((sign, t) ∷ o) = if sign == "+" then pos (length o) else negsuc (length o)

int_of-int_marks : (n : ℤ) → int_of (int_marks n) ≡ n
int_of-int_marks (pos n) = ap pos (length-marks n)
int_of-int_marks (negsuc n) = ap negsuc (length-marks n)

abbrev marshal_any : AnyValue → Result String String
marshal_any (string_value s) = ok s
marshal_any _ = err "unsupported value"

-- Of the pairs with one key, the first.
abbrev first_each : Object → Object
first_each [] = []
first_each ((name, raw) ∷ m) = set_key name raw (first_each m)

NodupKeys-first_each : (m : Object) → NodupKeys (first_each m)
NodupKeys-first_each [] = tt
NodupKeys-first_each ((name, raw) ∷ m) = (
  IsFree-delete name (first_each m),
  NodupKeys-delete name (first_each m) (NodupKeys-first_each m),
)

first_each-distinct : (m : Object) → NodupKeys m → first_each m ≡ m
first_each-distinct [] h = refl
first_each-distinct ((name, raw) ∷ m) (h, t) =
    rw (first_each-distinct m t, delete_free name m h) refl

abbrev pub text_json : JsonLib
text_json = record {
  unmarshal_object = λ b. ok (first_each (parse_set b));
  marshal_object = λ m. ok (set_string m);
  unmarshal_int = λ before b. ok (int_of (parse_set b));
  marshal_int = λ n. ok (set_string (int_marks n));
  unmarshal_string = λ before b. ok b;
  marshal_string = λ s. ok s;
  unmarshal_string_pointer = λ b. ok (some b);
  unmarshal_strings = λ b. ok (some (texts_in (parse_set b)));
  marshal_strings = λ l. ok (set_string (listed l));
  unmarshal_array = λ b. ok (some (texts_in (parse_set b)));
  marshal_array = λ l. ok (set_string (listed l));
  unmarshal_any = λ b. ok (string_value b);
  marshal_any = marshal_any;
  marshaler_error = λ e. e;
}

abbrev IsString : AnyValue → Type 0
IsString (string_value s) = Unit
IsString _ = ⊥

any_back :
    (v : AnyValue) → IsString v → Comes (λ t. Unit) marshal_any (λ b. ok (string_value b)) v v
any_back (string_value s) h = (s, refl, tt, refl)
any_back _ h = absurd h

list_back :
    (l : List String)
    → Comes
        (λ t. Unit {0})
        (λ (l : List String). let r : Result String String = ok (set_string (listed l)) in r)
        (λ b. ok (some (texts_in (parse_set b))))
        l
        (some l)
list_back l =
    (set_string (listed l), refl, tt, rw (parse_set-set_string (listed l), texts_in-listed l) refl)

pub text_json_laws : JsonLaws text_json
text_json_laws = record {
  IsText = λ t. Unit;
  IsPlain = IsString;
  object = λ m distinct texts.
      (set_string m, refl, tt, rw (parse_set-set_string m, first_each-distinct m distinct) refl);
  int = λ n before. (
    set_string (int_marks n),
    refl,
    tt,
    rw (parse_set-set_string (int_marks n), int_of-int_marks n) refl,
  );
  text = λ s before. (s, refl, tt, refl);
  pointer = λ s. (s, refl, tt, refl);
  strings = list_back;
  array = λ l texts. list_back l;
  any = any_back;
  distinct = λ b m h. subst NodupKeys (ok_inj h) (NodupKeys-first_each (parse_set b));
  plain = λ b v h. subst IsString (ok_inj h) tt;
}

abbrev pub image : ContainerImage
image = record {
  reference = "nginx";
  additional_properties = some (("pull_policy", string_value "Always") ∷ []);
}

abbrev resources : ContainerResources
resources = record {
  cpu = record {
    max = pos 2;
    min = pos 1;
    additional_properties = some (("limit", string_value "hard") ∷ []);
  };
  memory = record { max = "2GB"; min = "1GB"; additional_properties = none };
  additional_properties = some (("gpu", string_value "1") ∷ ("disk", string_value "10GB") ∷ []);
}

abbrev network : ContainerNetwork
network = record {
  ip = none;
  ports = some (
      record {
        container_port = pos 80;
        visibility = visibility_external;
        additional_properties = some (("protocol", string_value "tcp") ∷ []);
      }
      ∷ []);
  additional_properties = none;
}

abbrev process : ContainerProcess
process = record {
  args = some ("-g" ∷ "daemon off;" ∷ []);
  command = none;
  env = some (record { name = "MODE"; value = "test"; additional_properties = none } ∷ []);
  additional_properties = some (("workdir", string_value "/srv") ∷ []);
}

json_round_trip_example :
    Comes
      (λ t. Unit {0})
      (marshal_image text_json)
      (unmarshal_image text_json zero_image)
      image
      image
    × Comes
        (λ t. Unit {0})
        (marshal_resources text_json)
        (unmarshal_resources text_json zero_resources)
        resources
        resources
    × Comes
        (λ t. Unit {0})
        (marshal_network text_json)
        (unmarshal_network text_json zero_network)
        network
        network
    × Comes
        (λ t. Unit {0})
        (marshal_process text_json)
        (unmarshal_process text_json zero_process)
        process
        process
unfolding text_json_laws
json_round_trip_example =
    json_round_trip text_json text_json_laws image resources network process
      (refl, (tt, tt), (tt, tt), ((refl, tt), tt))
      (
        (refl, (tt, tt), (tt, tt), ((refl, tt), ((refl, tt), tt))),
        tt,
        (
          refl,
          ((refl, tt), (tt, tt)),
          (tt, (tt, tt)),
          ((refl, (refl, tt)), ((refl, (refl, tt)), tt)),
        ),
      )
      (((refl, (tt, tt), (tt, tt), ((refl, tt), ((refl, tt), tt))), tt), tt)
      ((tt, tt), (refl, (tt, tt), (tt, tt), ((refl, tt), ((refl, tt), ((refl, tt), tt)))))
