-- ===== src/Kubernetes.antt =====
-- internal/kubernetes: the container store on Kubernetes Deployments, Pods and Services.
pub mod Client
pub mod Convert
pub mod Enrich
pub mod Build
pub mod Store
pub mod Paging
