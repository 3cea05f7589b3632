-- ===== src/Link/Deleted.antt =====
-- The vertices that Function::Link deletes: src/Function.cpp.
use coflo.Prelude.{
  ℕ, ◌≡◌, refl, ap, sym, ◌∙◌, inl, inr, String, Bool, true, false, ◌||◌, List, [], ◌∷◌, map, Option,
  none, some, arith, contains, Option-cases, eq_of_some,
}
use coflo.Statement.{Statement, function_call_unresolved}
use coflo.Graph.{Cfg, new_vertex, replace_vertex, add_new_edge, add_edge, new_edge}
use coflo.Graph.Deleted.{deleted-replace_vertex}
use coflo.Link.{
  Linker, Functions, Replacement, cfg_at, set_cfg, collect_call, collect_statement, collect,
  find_function, add_call_edges, target_of, first_fallthrough, replaced, link_call, link_calls,
}

module _ (fs : Functions) (f : ℕ) where
  add_call_edges-deleted :
      (g fcr : ℕ) (b : Option ℕ) (s s' : Linker)
      → add_call_edges fs f g fcr b s ≡ some s'
      → s'.heap.deleted ≡ s.heap.deleted
  unfolding add_call_edges add_new_edge add_edge new_edge
  add_call_edges-deleted g fcr none s s' eq = cc
  add_call_edges-deleted g fcr (some behind) s s' eq =
      ap (λ (x : Linker). x.heap.deleted) (sym (eq_of_some eq))

  replaced-deleted :
      (p : Replacement) (c : Cfg) (done : Bool) (s s' : Linker)
      → replaced fs f p (c, done) s ≡ some s'
      → s'.heap.deleted ≡ p.old_vertex ∷ c.heap.deleted
  unfolding replaced
  replaced-deleted p c false s s' eq = cc
  replaced-deleted p c true s s' eq =
      let h = record (c.heap) { deleted = p.old_vertex ∷ c.heap.deleted } in
      add_call_edges-deleted p.called_function p.new_vertex_desc
        (target_of h (first_fallthrough h (h.vertex p.new_vertex_desc).out_edges))
        (set_cfg f (record c { heap = h }) s) s' eq

  link_call-deleted :
      (p : Replacement) (s s' : Linker)
      → link_call fs f p s ≡ some s'
      → s'.heap.deleted ≡ p.old_vertex ∷ s.heap.deleted
  unfolding link_call
  link_call-deleted p s s' eq =
      let r = replace_vertex p.old_vertex p.new_vertex_desc (cfg_at f s) in
      replaced-deleted p r.0 r.1 s s' eq
      ∙ ap (λ ds. p.old_vertex ∷ ds)
          (deleted-replace_vertex p.old_vertex p.new_vertex_desc (cfg_at f s))

  pub link_calls-deleted :
      (ps : List Replacement) (s s' : Linker) (v : ℕ)
      → link_calls fs f ps s ≡ some s'
      → contains v s'.heap.deleted
        ≡ (contains v (map (λ (p : Replacement). p.old_vertex) ps) || contains v s.heap.deleted)
  unfolding link_calls
  link_calls-deleted [] s s' v eq =
      ap (λ (x : Linker). contains v x.heap.deleted) (sym (eq_of_some eq))
  link_calls-deleted (p ∷ ps) s s' v eq = elim (Option-cases (link_call fs f p s)) [
    | inl thrown ↦ cc (rw (thrown, link_calls) at eq)
    | inr (s₁, done) ↦ ground (
      arith,
      ap (contains v) (link_call-deleted p s s₁ done),
      link_calls-deleted ps s₁ s' v (rw (done, link_calls) at eq),
    )
  ]

collect_call-deleted :
    (o : Option ℕ) (i params : String) (v : ℕ) (r : Linker × List Replacement)
    → (collect_call o i params v r).0.heap.deleted ≡ r.0.heap.deleted
unfolding collect_call new_vertex
collect_call-deleted none i params v r = refl
collect_call-deleted (some g) i params v r = refl

collect_statement-deleted :
    (fs : Functions) (t : Statement) (v : ℕ) (r : Linker × List Replacement)
    → (collect_statement fs t v r).0.heap.deleted ≡ r.0.heap.deleted
unfolding collect_statement
collect_statement-deleted fs (function_call_unresolved i params) v r =
    collect_call-deleted (find_function i fs.function_map) i params v r
collect_statement-deleted fs _ v r = refl

pub collect-deleted :
    (fs : Functions) (vs : List ℕ) (r : Linker × List Replacement)
    → (collect fs vs r).0.heap.deleted ≡ r.0.heap.deleted
unfolding collect
collect-deleted fs [] r = refl
collect-deleted fs (v ∷ vs) r =
    collect-deleted fs vs (collect_statement fs (r.0.heap.vertex v).statement v r)
    ∙ collect_statement-deleted fs (r.0.heap.vertex v).statement v r
