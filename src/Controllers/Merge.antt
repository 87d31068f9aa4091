-- ===== src/Controllers/Merge.antt =====
-- `mergeEnforced`.
pub mod Keys
use gpu_budget_operator.Base.{
  String, ◌<>◌, Bool, true, false, List, [], ◌∷◌, ◌++◌, ◌==◌, if◌then◌else◌,
}
use gpu_budget_operator.Objects.{EnforcedResource}

-- `e.Kind + "/" + e.Name`
unfoldable pub key : EnforcedResource → String
key r = r.kind <> "/" <> r.name

-- The map `seen`, whose values are all true, is the list of its keys.
unfoldable pub is_seen : String → List String → Bool
is_seen k [] = false
is_seen k (j ∷ js) = if k == j then true else is_seen k js

-- `seen[key] = true` of every existing resource.
unfoldable pub seen_keys : List EnforcedResource → List String
seen_keys [] = []
seen_keys (e ∷ es) = key e ∷ seen_keys es

-- The loop over the additions, with the variables `seen` and `existing`.
unfoldable pub merge_loop :
    List EnforcedResource → List String → List EnforcedResource → List EnforcedResource
merge_loop [] seen existing = existing
merge_loop (a ∷ additions) seen existing = elim (is_seen (key a) seen) [
  | true ↦ merge_loop additions seen existing
  | false ↦ merge_loop additions (key a ∷ seen) (existing ++ (a ∷ []))
]

unfoldable pub merge_enforced :
    List EnforcedResource → List EnforcedResource → List EnforcedResource
unfolding merge_loop seen_keys
merge_enforced existing additions = merge_loop additions (seen_keys existing) existing
