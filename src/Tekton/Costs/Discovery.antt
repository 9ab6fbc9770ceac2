-- ===== src/Tekton/Costs/Discovery.antt =====
-- The weight of reading the workflows of a repository (src/integrations/tekton/client.rs).
use homelab_mcp.Prelude.{
  ℕ, suc, ◌+◌, ◌*◌, ◌≤◌, ◌≡◌, not, ◌&&◌, List, [], ◌∷◌, ◌++◌, ok, ok_or, reject_if, ltb, length,
  arith, find_item,
}
use homelab_mcp.Text.{Str, lit, str_eq, split}
use homelab_mcp.Json.{has_str, str_at, array_of}
use homelab_mcp.Tasks.{Costs, Costs-bind, Costs-last, Costs-lift, Costs-pure, Costs-mono}
use homelab_mcp.Tekton.{invalid_response, mutation_rejected}
use homelab_mcp.Tekton.Texts.{bounded_text}
use homelab_mcp.Tekton.Env.{Env, Sent, forgejo_get, forgejo_json}
use homelab_mcp.Tekton.Objects.{Repository}
use homelab_mcp.Tekton.Workflows.{
  Workflow, read_files, repository_workflows, triggerable_workflow, repo_segments, decoded_content,
  parse_workflows, listed_files, max_workflow_files, max_workflow_file_bytes,
  max_workflow_total_bytes,
}
use homelab_mcp.Tekton.Costs.{spent, forgejo_json-Costs}
use native.Mathlib.Nat.{suc-mul, mul-le-mul_right}

module _ (weight : Sent → ℕ) (f : ℕ)
    (light : (segments : List Str) (query : List (Str × Str))
      → weight (forgejo_get segments query) ≤ f)
    (env : Env) where
  forgejo-Costs :
      (segments : List Str) (query : List (Str × Str))
      → Costs (spent weight) f (forgejo_json env segments query)
  forgejo-Costs segments query =
      Costs-mono (spent weight) (weight (forgejo_get segments query)) f _ (light segments query)
        (forgejo_json-Costs weight env segments query)

  read_files-Costs :
      (repository : Repository) (revision : Str) (files : List Str) (total : ℕ)
      (workflows : List Workflow)
      → Costs
          (spent weight)
          (length files * f)
          (read_files env repository revision files total workflows)
  unfolding read_files
  read_files-Costs repository revision [] total workflows =
      Costs-mono (spent weight) 0 (0 * f) _ (omega arith) (Costs-pure (spent weight) (ok workflows))
  read_files-Costs repository revision (entry ∷ files) total workflows =
      Costs-mono (spent weight) (f + length files * f) (suc (length files) * f) _
        (omega (arith, suc-mul (length files) f))
        (Costs-bind (spent weight) f (length files * f)
          (forgejo_json env (repo_segments env repository ++ lit "contents" ∷ split b'/' entry)
            ((lit "ref", revision) ∷ []))
          _
          (forgejo-Costs (repo_segments env repository ++ lit "contents" ∷ split b'/' entry)
            ((lit "ref", revision) ∷ []))
          λ content.
            Costs-lift (spent weight) (length files * f)
              (reject_if (not (has_str env.json content (lit "encoding") (lit "base64")))
                invalid_response)
              _
              λ _ _.
                Costs-lift (spent weight) (length files * f)
                  (ok_or invalid_response (decoded_content env content)) _
                  λ bytes _.
                    Costs-lift (spent weight) (length files * f)
                      (reject_if (ltb max_workflow_file_bytes (length bytes)) invalid_response) _
                      λ _ _.
                        Costs-lift (spent weight) (length files * f)
                          (reject_if (ltb max_workflow_total_bytes (total + length bytes))
                            invalid_response)
                          _
                          λ _ _.
                            Costs-lift (spent weight) (length files * f)
                              (parse_workflows env repository revision entry bytes) _
                              λ found _.
                                read_files-Costs repository revision files (total + length bytes)
                                  (workflows ++ found))

  few_files :
      (files : List Str) {a : Unit {0}}
      → reject_if (ltb max_workflow_files (length files)) invalid_response ≡ ok a
      → length files * f ≤ 32 * f
  few_files files fits = mul-le-mul_right f (ground arith)

  pub repository_workflows-Costs :
      (repository : Repository)
      → Costs (spent weight) (34 * f) (repository_workflows env repository)
  unfolding repository_workflows
  repository_workflows-Costs repository =
      Costs-mono (spent weight) (f + (f + 32 * f)) (34 * f) _ (omega arith) (
        Costs-bind (spent weight) f (f + 32 * f)
          (forgejo_json env (repo_segments env repository) []) _
          (forgejo-Costs (repo_segments env repository) [])
          λ metadata.
            Costs-lift (spent weight) (f + 32 * f)
              (ok_or invalid_response (str_at env.json metadata (lit "default_branch"))) _
              λ revision _.
                Costs-lift (spent weight) (f + 32 * f)
                  (reject_if (not (bounded_text revision 512)) invalid_response) _
                  λ _ _.
                    Costs-bind (spent weight) f (32 * f)
                      (forgejo_json env
                        (repo_segments env repository ++ lit "contents" ∷ lit ".tekton" ∷ [])
                        ((lit "ref", revision) ∷ []))
                      _
                      (forgejo-Costs
                        (repo_segments env repository ++ lit "contents" ∷ lit ".tekton" ∷ [])
                        ((lit "ref", revision) ∷ []))
                      λ listing.
                        Costs-lift (spent weight) (32 * f)
                          (ok_or invalid_response (array_of (env.json.view listing))) _
                          λ entries _.
                            Costs-lift (spent weight) (32 * f)
                              (reject_if
                                (ltb max_workflow_files (length (listed_files env entries)))
                                invalid_response)
                              _
                              λ _ fits.
                                Costs-mono (spent weight) (length (listed_files env entries) * f)
                                  (32 * f) _ (few_files (listed_files env entries) fits)
                                  (read_files-Costs repository revision (listed_files env entries) 0
                                    []))

  pub triggerable_workflow-Costs :
      (repository : Repository) (id : Str)
      → Costs (spent weight) (34 * f) (triggerable_workflow env repository id)
  unfolding triggerable_workflow
  triggerable_workflow-Costs repository id =
      Costs-last (spent weight) (34 * f) (repository_workflows env repository) _
        (repository_workflows-Costs repository)
        λ workflows.
          Costs-pure (spent weight)
            (ok_or mutation_rejected (find_item (λ w. str_eq w.id id && w.triggerable) workflows))
