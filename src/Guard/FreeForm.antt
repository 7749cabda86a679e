-- ===== src/Guard/FreeForm.antt =====
-- The argument of a module as one text, `copy: "src=… dest=…"`: the guard looks for `src` in mappings
-- alone.
use ai_support_agent_cli.Common.{false, ◌≡◌, inl, refl, String, List, [], ◌∷◌, lookup, member}
use ai_support_agent_cli.Common.Text.{codes}
use ai_support_agent_cli.Guard.Yaml.{Yaml, str, seq, mapping, nil, cons, end, field, Dict}
use ai_support_agent_cli.Guard.Names.{Mode, ecs, resident, normalize_module_key}
use ai_support_agent_cli.Guard.Scan.{has_plugin_call, contains_lookup}
use ai_support_agent_cli.Guard.Validate.{
  Parsed, document, accepted, get_module_candidate_keys, validate_ansible_tasks,
}
use ai_support_agent_cli.Guard.Safe.{runs_module, IsSafeTask}
use ai_support_agent_cli.Guard.Accept.{IsSafeBody, safe_accepted}

abbrev pub copy_task : String → Dict
copy_task args = ("copy", str args) ∷ []

abbrev pub copy_body : String → Yaml
copy_body args = seq (cons (mapping (field "copy" (str args) end)) nil)

copy_task-IsSafe :
    (mode : Mode) (args : String)
    → has_plugin_call (codes args) ≡ false
    → IsSafeTask mode (copy_task args)
unfolding get_module_candidate_keys member normalize_module_key lookup contains_lookup
copy_task-IsSafe ecs args h = record {
  keys_allowed = (inl refl, tt);
  has_module = λ e. cc;
  modules = (runs_module refl refl (λ _ d e. cc), tt);
  no_lookup = rw h refl;
  facts = ((λ e. cc), tt);
  register_free = λ s e. cc;
}
copy_task-IsSafe resident args h = record {
  keys_allowed = (inl refl, tt);
  has_module = λ e. cc;
  modules = (runs_module refl refl (λ _ d e. cc), tt);
  no_lookup = rw h refl;
  facts = ((λ e. cc), tt);
  register_free = λ s e. cc;
}

-- On both routes a task `copy` whose argument is a text is accepted whatever the text is, `src=…` in
-- it included, provided that it calls no plugin: the refusal of `src` does not reach this form.
pub validate-copy_free_form :
    (load : String → Parsed) (mode : Mode) (secrets : List String) (body args : String)
    → load body ≡ document (copy_body args)
    → has_plugin_call (codes args) ≡ false
    → (ns : List Dict) × (validate_ansible_tasks load mode secrets body ≡ accepted ns)
unfolding lookup
validate-copy_free_form load mode secrets body args e h =
    let s : IsSafeBody load mode body = record {
      found = cons (mapping (field "copy" (str args) end)) nil;
      parsed = e;
      not_empty = λ e'. cc;
      no_play = refl;
      tasks = ((copy_task args, refl, copy_task-IsSafe mode args h), tt);
    } in
    (_, safe_accepted load mode secrets body s)
