-- ===== src/Enforce/Pods.antt =====
-- `enforcePods`.
pub mod Loop
pub mod Deleted
use gpu_budget_operator.Base.{
  ℕ, String, ◌<>◌, Bool, true, false, not, ◌||◌, Option, none, some, List, [], ◌∷◌, Result, ok, err,
}
use gpu_budget_operator.Objects.{Pod}
use gpu_budget_operator.Cluster.{Cluster}
use gpu_budget_operator.Enforce.Gpu.{pod_template_requests_gpu}
use gpu_budget_operator.Enforce.Report.{
  Error, client, wrapped, Outcome, resource, nothing, also, deleted_action,
}
use gpu_budget_operator.Enforce.Scale.{is_owned}

-- `DeletionTimestamp != nil`
abbrev pub is_terminating : Option ℕ → Bool
is_terminating none = false
is_terminating (some t) = true

module _ (c : Cluster) where
  open c use {State, Err, Quantity, is_not_found, pods, now}

  unfoldable pub skips_pod : Pod Quantity → Bool
  skips_pod p =
      is_owned p.meta
      || (is_terminating p.deletion_timestamp || not (pod_template_requests_gpu c p.spec))

  -- A Pod that is gone when its deletion arrives is passed over; any other failure ends the loop.
  unfoldable pub delete_loop : String → List (Pod Quantity) → State → Outcome Err State
  delete_loop ns [] s = nothing none s
  delete_loop ns (p ∷ ps) s = elim (skips_pod p) [
    | true ↦ delete_loop ns ps s
    | false ↦
        let (r, s') = pods.delete p s in
        elim r [
          | err e ↦ elim (is_not_found e) [
            | true ↦ delete_loop ns ps s'
            | false ↦
                nothing (some (wrapped ("deleting pod " <> ns <> "/" <> p.meta.name) (client e))) s'
          ]
          | ok _ ↦
              also (resource "v1" "Pod" p.meta.name deleted_action (now s')) (delete_loop ns ps s')
        ]
  ]

  unfoldable pub enforce_pods : String → State → Outcome Err State
  unfolding delete_loop
  enforce_pods ns s =
      let (r, s') = pods.list ns s in
      elim r [
        | err e ↦ nothing (some (wrapped ("listing pods in " <> ns) (client e))) s'
        | ok ps ↦ delete_loop ns ps s'
      ]
