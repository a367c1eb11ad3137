-- ===== src/Api/Enums.antt =====
-- The string enumerations of api/v1alpha1/types.gen.go: their named values, and the `Valid` methods.
-- A switch of a method is the chain of its cases.
use k8s_container_service_pr.Base.{Bool, ◌||◌, String, ◌==◌}

abbrev pub ContainerPortVisibility : Type 0
ContainerPortVisibility = String

abbrev pub visibility_external : ContainerPortVisibility
visibility_external = "external"

abbrev pub visibility_internal : ContainerPortVisibility
visibility_internal = "internal"

abbrev pub visibility_none : ContainerPortVisibility
visibility_none = "none"

unfoldable pub is_valid_visibility : ContainerPortVisibility → Bool
is_valid_visibility e =
    e == visibility_external || (e == visibility_internal || e == visibility_none)

abbrev pub ContainerSpecServiceType : Type 0
ContainerSpecServiceType = String

abbrev pub service_type_container : ContainerSpecServiceType
service_type_container = "container"

unfoldable pub is_valid_service_type : ContainerSpecServiceType → Bool
is_valid_service_type e = e == service_type_container

abbrev pub ContainerStatus : Type 0
ContainerStatus = String

abbrev pub deleted : ContainerStatus
deleted = "DELETED"

abbrev pub failed : ContainerStatus
failed = "FAILED"

abbrev pub pending : ContainerStatus
pending = "PENDING"

abbrev pub running : ContainerStatus
running = "RUNNING"

abbrev pub unknown : ContainerStatus
unknown = "UNKNOWN"

unfoldable pub is_valid_status : ContainerStatus → Bool
is_valid_status e =
    e == deleted || (e == failed || (e == pending || (e == running || e == unknown)))

abbrev pub ErrorType : Type 0
ErrorType = String

abbrev pub already_exists : ErrorType
already_exists = "https://dcm-project.github.io/problems/already-exists"

abbrev pub internal : ErrorType
internal = "https://dcm-project.github.io/problems/internal"

abbrev pub invalid_argument : ErrorType
invalid_argument = "https://dcm-project.github.io/problems/invalid-argument"

abbrev pub not_found : ErrorType
not_found = "https://dcm-project.github.io/problems/not-found"

abbrev pub permission_denied : ErrorType
permission_denied = "https://dcm-project.github.io/problems/permission-denied"

abbrev pub unauthenticated : ErrorType
unauthenticated = "https://dcm-project.github.io/problems/unauthenticated"

abbrev pub unavailable : ErrorType
unavailable = "https://dcm-project.github.io/problems/unavailable"

unfoldable pub is_valid_error_type : ErrorType → Bool
is_valid_error_type e =
    e == already_exists
    || (e == internal
        || (e == invalid_argument
            || (e == not_found
                || (e == permission_denied || (e == unauthenticated || e == unavailable)))))

abbrev pub ServiceInfoType : Type 0
ServiceInfoType = String

abbrev pub cluster_ip : ServiceInfoType
cluster_ip = "ClusterIP"

abbrev pub load_balancer : ServiceInfoType
load_balancer = "LoadBalancer"

abbrev pub node_port : ServiceInfoType
node_port = "NodePort"

unfoldable pub is_valid_service_info_type : ServiceInfoType → Bool
is_valid_service_info_type e = e == cluster_ip || (e == load_balancer || e == node_port)
