-- ===== src/Kube.antt =====
-- The Kubernetes objects that the program reads and writes, and the calls of the Kubernetes
-- libraries and of the API server, which are a parameter of the models.
pub mod Objects
pub mod Pods
pub mod Scheduling
pub mod Labels
pub mod Cluster
pub mod Sending
pub mod Cooperation
