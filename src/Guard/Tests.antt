-- ===== src/Guard/Tests.antt =====
-- Recipes run through the guard, and its theorems at concrete recipes.
use ai_support_agent_cli.Common.{
  true, false, ◌≡◌, ◌↔◌, refl, String, List, [], ◌∷◌, ◌++◌, lookup, member,
}
use ai_support_agent_cli.Common.Text.{Text, codes, trim, split}
use ai_support_agent_cli.Guard.Yaml.{
  Yaml, null, bool, str, seq, mapping, Items, nil, cons, end, field, Dict, stringify_dict,
}
use ai_support_agent_cli.Guard.Names.{normalize_module_key, is_reserved_var_name, ecs, resident}
use ai_support_agent_cli.Guard.Scan.{
  contains_lookup, references_secret_var, has_plugin_call, mentions,
}
use ai_support_agent_cli.Guard.Role.{root, task, violation, is_valid_src}
use ai_support_agent_cli.Guard.Validate.{
  Parsed, document, failed, accepted, rejected, validate_ansible_tasks,
}
use ai_support_agent_cli.Guard.Lookup.{PluginCall, has_plugin_call_iff}
use ai_support_agent_cli.Guard.Staging.{follow, is_valid_src-stays_inside}
use ai_support_agent_cli.Guard.FreeForm.{copy_body, validate-copy_free_form}

abbrev recipe : Items
recipe =
    cons
      (mapping
        (field "name" (str "web") (field "apt" (mapping (field "name" (str "nginx") end)) end)))
      (cons
        (mapping (
          field "include_role" (mapping (field "name" (str "shared_file") end))
            (field "vars" (mapping (field "shared_file_src" (str " app/conf.d/ ") end)) end)))
        (cons
          (mapping
            (field "debug" (mapping (field "msg" (str "{{ ansible_ssh_pass | quote }}") end)) end))
          nil))

abbrev reads_recipe : String → Parsed
reads_recipe body = document (seq recipe)

abbrev normalized : List Dict
normalized =
    (("name", str "web") ∷ ("apt", mapping (field "name" (str "nginx") end)) ∷ [])
    ∷ (("include_role", mapping (field "name" (str "shared_file") end))
        ∷ ("vars", mapping (field "shared_file_src" (str " app/conf.d/ ") end))
        ∷ [])
    ∷ (("debug", mapping (field "msg" (str "{{ ansible_ssh_pass | quote }}") end))
        ∷ ("no_log", bool true)
        ∷ [])
    ∷ []

abbrev reads : Yaml → String → Parsed
reads task_value body = document (seq (cons task_value nil))

escalation :
    validate_ansible_tasks
      (reads (
        mapping (
          field "shell"
            (str "id")
            (field "delegate_to" (str "localhost") (field "register" (str "hostvars") end)))))
      resident
      []
      ""
    ≡ rejected (
        violation (task 0) "delegate_to" "forbidden task key"
        ∷ violation (task 0) "register" "reserved or magic variable name"
        ∷ [])
unfolding validate_ansible_tasks lookup member has_plugin_call contains_lookup references_secret_var
    normalize_module_key is_reserved_var_name
escalation = refl

resident_only :
    (validate_ansible_tasks (reads (mapping (field "uri" (mapping end) end))) ecs [] ""
      ≡ rejected (violation (task 0) "uri" "module not in allowlist" ∷ []))
    × (validate_ansible_tasks (reads (mapping (field "uri" (mapping end) end))) resident [] ""
        ≡ accepted ((("uri", mapping end) ∷ []) ∷ []))
unfolding validate_ansible_tasks lookup member has_plugin_call contains_lookup references_secret_var
    normalize_module_key is_reserved_var_name
resident_only = (refl, refl)

copy_src :
    validate_ansible_tasks
      (reads (mapping (field "copy" (mapping (field "src" (str "/root/.ssh/id_rsa") end)) end)))
      ecs
      []
      ""
    ≡ rejected (
        violation (task 0) "src" "copy module must use content, not a controller-local src path"
        ∷ [])
unfolding validate_ansible_tasks lookup member has_plugin_call contains_lookup references_secret_var
    normalize_module_key is_reserved_var_name
copy_src = refl

not_a_list :
    (validate_ansible_tasks (λ _. failed "bad indentation") ecs [] ""
      ≡ rejected (violation root "root" "YAML parse failed: bad indentation" ∷ []))
    × (validate_ansible_tasks (λ _. document (mapping end)) ecs [] ""
        ≡ rejected (violation root "root" "top-level must be a list of tasks, not a play" ∷ []))
    × (validate_ansible_tasks (reads (mapping (field "hosts" (str "all") end))) ecs [] ""
        ≡ rejected (violation root "root" "top-level must be a list of tasks, not a play" ∷ []))
unfolding validate_ansible_tasks lookup member has_plugin_call contains_lookup references_secret_var
    normalize_module_key is_reserved_var_name
not_a_list = (refl, refl, refl)

plugin_calls :
    (has_plugin_call (codes "{{ lookup ('file', '/etc/shadow') }}") ≡ true)
    × (has_plugin_call (codes "my_lookup('x')") ≡ false)
    × (has_plugin_call (codes "q(1)") ≡ true)
    × (has_plugin_call (codes "look up(") ≡ false)
unfolding has_plugin_call
plugin_calls = (refl, refl, refl, refl)

secrets_found :
    (mentions (codes "TOKEN") (codes "x {{ a }} {{ TOKEN|q }}") ≡ true)
    × (mentions (codes "TOKEN") (codes "{{ MY_TOKEN }} TOKEN") ≡ false)
    × (mentions (codes "TOKEN") (codes "{{ a }} TOKEN }}") ≡ false)
unfolding mentions
secrets_found = (refl, refl, refl)

serialised :
    stringify_dict (("a", str "x\"y") ∷ ("b", seq (cons null (cons (bool true) nil))) ∷ [])
    ≡ codes "{\"a\":\"x\\\"y\",\"b\":[null,true]}"
unfolding stringify_dict
serialised = refl

sources :
    (is_valid_src (codes " app/conf ") ≡ true)
    × (is_valid_src (codes "a/../b") ≡ false)
    × (is_valid_src (codes "..a/b..") ≡ true)
    × (is_valid_src (codes "/etc") ≡ false)
    × (is_valid_src (codes "{{ x }}") ≡ false)
unfolding is_valid_src trim split
sources = (refl, refl, refl, refl, refl)

has_plugin_call_iff_example :
    (has_plugin_call (codes "{{ q('x') }}") ≡ true) ↔ PluginCall false (codes "{{ q('x') }}")
has_plugin_call_iff_example = has_plugin_call_iff (codes "{{ q('x') }}")

is_valid_src-stays_inside_example :
    (deeper : List Text) × (follow (codes "staging" ∷ []) (split b'/' (trim (codes "app/./conf")))
      ≡ deeper ++ codes "staging" ∷ [])
unfolding is_valid_src trim split
is_valid_src-stays_inside_example =
    is_valid_src-stays_inside (codes "app/./conf") (codes "staging" ∷ []) refl

validate-copy_free_form_example :
    (ns : List Dict) × (validate_ansible_tasks
        (λ _. document (copy_body "src=/root/.ssh/id_rsa dest=/tmp/k"))
        ecs
        []
        ""
      ≡ accepted ns)
unfolding has_plugin_call
validate-copy_free_form_example =
    validate-copy_free_form (λ _. document (copy_body "src=/root/.ssh/id_rsa dest=/tmp/k")) ecs []
      "" "src=/root/.ssh/id_rsa dest=/tmp/k" refl refl
