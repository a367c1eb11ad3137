-- ===== src/Examples/Runs.antt =====
-- A run of the store over a cluster in memory, against the abstract repository.
use k8s_container_service_pr.Base.{String, List, [], ◌∷◌, arith}
use k8s_container_service_pr.Base.Int.{pos}
use k8s_container_service_pr.Kube.Memory.{Cluster, memory_client, memory_view}
use k8s_container_service_pr.Kube.Memory.Selectors.{memory_labels, memory_label_laws}
use k8s_container_service_pr.Kube.Memory.Lawful.{memory_laws}
use k8s_container_service_pr.Kubernetes.Store.Unique.{IsUnique}
use k8s_container_service_pr.Contract
use k8s_container_service_pr.Contract.{
  Call, create_call, get_call, delete_call, list_call, Accepts, run_calls, new_k8s_container_store,
}
use k8s_container_service_pr.Contract.Held.{held, IsSound}
use k8s_container_service_pr.Contract.Refinement.{RunRollsBack, run_calls-Accepts}
use k8s_container_service_pr.Examples.Store.{memory-RollsBack}
use k8s_container_service_pr.Examples.Fixtures.{
  text_quantities, node_port_config, web_spec, empty_cluster,
}

abbrev calls : List Call
calls =
    create_call web_spec "c1"
    ∷ create_call web_spec "c1"
    ∷ get_call "c1"
    ∷ list_call (pos 10) ""
    ∷ delete_call "c1"
    ∷ get_call "c1"
    ∷ []

abbrev outcome : List (Call × Contract.Answer String) × Cluster String
outcome =
    run_calls (new_k8s_container_store memory_client text_quantities memory_labels node_port_config)
      calls (empty_cluster [])

abbrev map_of : Cluster String → Contract.Abstract String
map_of =
    held memory_client text_quantities memory_labels node_port_config memory_view memory_laws
      memory_label_laws

empty-IsSound :
    IsSound memory_client text_quantities memory_labels node_port_config memory_view memory_laws
      memory_label_laws
      (empty_cluster [])
unfolding IsUnique
empty-IsSound = (λ id. omega arith, tt)

rolls_back :
    RunRollsBack memory_client text_quantities memory_labels node_port_config memory_view
      memory_laws memory_label_laws calls
      (empty_cluster [])
rolls_back = (
  memory-RollsBack web_spec "c1" _,
  (memory-RollsBack web_spec "c1" _, (tt, (tt, (tt, (tt, tt))))),
)

run_calls-Accepts_example :
    Accepts memory_client text_quantities memory_labels node_port_config
      (map_of (empty_cluster []))
      outcome.0
      (map_of outcome.1)
    × IsSound memory_client text_quantities memory_labels node_port_config memory_view memory_laws
        memory_label_laws outcome.1
run_calls-Accepts_example =
    run_calls-Accepts memory_client text_quantities memory_labels node_port_config memory_view
      memory_laws memory_label_laws calls (empty_cluster []) rolls_back empty-IsSound
