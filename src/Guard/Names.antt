-- ===== src/Guard/Names.antt =====
-- The lists of names of server-setup/ansible-task-guard.ts, and `normalizeModuleKey`.
use Prim.Native.String.{◌++◌ as append}
use ai_support_agent_cli.Common.{
  Bool, true, false, String, List, [], ◌∷◌, ◌++◌, ◌&&◌, ◌||◌, if◌then◌else◌, member, str_eq,
}
use ai_support_agent_cli.Common.Text.{codes, starts_with}

pub data Mode : Type 0 where
  resident ecs : Mode

abbrev pub is_resident : Mode → Bool
is_resident resident = true
is_resident ecs = false

abbrev pub forbidden_task_keys : List String
forbidden_task_keys =
    "delegate_to" ∷ "delegate_facts" ∷ "local_action" ∷ "connection" ∷ "become_method"
    ∷ "become_exe" ∷ "become_flags" ∷ "become_user" ∷ "vars" ∷ "environment" ∷ "notify" ∷ "listen"
    ∷ "hosts" ∷ "import_playbook" ∷ []

abbrev pub play_format_keys : List String
play_format_keys = "hosts" ∷ "roles" ∷ "vars_files" ∷ []

abbrev pub control_keys : List String
control_keys =
    "name" ∷ "tags" ∷ "register" ∷ "when" ∷ "no_log" ∷ "ignore_errors" ∷ "loop" ∷ "with_items"
    ∷ "until" ∷ "retries" ∷ "delay" ∷ []

abbrev pub builtin_short_names : List String
builtin_short_names =
    "apt" ∷ "apt_key" ∷ "apt_repository" ∷ "copy" ∷ "file" ∷ "user" ∷ "group" ∷ "service"
    ∷ "systemd" ∷ "lineinfile" ∷ "blockinfile" ∷ "replace" ∷ "stat" ∷ "get_url" ∷ "command"
    ∷ "shell" ∷ "debug" ∷ "assert" ∷ "set_fact" ∷ "wait_for" ∷ []

abbrev pub module_allowlist : List String
module_allowlist =
    "ansible.builtin.apt" ∷ "ansible.builtin.apt_key" ∷ "ansible.builtin.apt_repository"
    ∷ "ansible.builtin.copy" ∷ "ansible.builtin.file" ∷ "ansible.builtin.user"
    ∷ "ansible.builtin.group" ∷ "ansible.builtin.service" ∷ "ansible.builtin.systemd"
    ∷ "ansible.builtin.lineinfile" ∷ "ansible.builtin.blockinfile" ∷ "ansible.builtin.replace"
    ∷ "ansible.builtin.stat" ∷ "ansible.builtin.get_url" ∷ "ansible.builtin.command"
    ∷ "ansible.builtin.shell" ∷ "ansible.builtin.debug" ∷ "ansible.builtin.assert"
    ∷ "ansible.builtin.set_fact" ∷ "ansible.builtin.wait_for" ∷ "ansible.mysql.mysql_user"
    ∷ "community.postgresql.postgresql_user" ∷ "ansible.posix.authorized_key" ∷ []

abbrev pub resident_extra_module_allowlist : List String
resident_extra_module_allowlist =
    "ansible.builtin.uri" ∷ "ansible.builtin.git" ∷ "ansible.builtin.unarchive"
    ∷ "ansible.builtin.pip" ∷ "ansible.builtin.cron" ∷ "ansible.builtin.hostname"
    ∷ "ansible.builtin.mount" ∷ "ansible.posix.mount" ∷ "ansible.posix.sysctl"
    ∷ "community.general.timezone" ∷ "community.docker.docker_container"
    ∷ "community.docker.docker_image" ∷ "community.docker.docker_network" ∷ []

abbrev pub resident_extra_short_names : List String
resident_extra_short_names =
    "uri" ∷ "git" ∷ "unarchive" ∷ "pip" ∷ "cron" ∷ "hostname" ∷ "mount" ∷ []

abbrev pub copy_module_key : String
copy_module_key = "ansible.builtin.copy"

abbrev pub include_role_module_keys : List String
include_role_module_keys = "include_role" ∷ "ansible.builtin.include_role" ∷ []

abbrev pub include_role_allowed_roles : List String
include_role_allowed_roles =
    "os_init" ∷ "ssh_key" ∷ "docker" ∷ "nvm" ∷ "claude_cli" ∷ "codex" ∷ "ai_support_agent"
    ∷ "ai_support_agent_k8s" ∷ "web_server" ∷ "database" ∷ "dns_tls" ∷ "gitlab_runner"
    ∷ "github_runner" ∷ "gitlab_runner_k8s" ∷ "github_runner_k8s" ∷ "k3s" ∷ "tailscale"
    ∷ "shared_file" ∷ []

abbrev pub include_role_allowed_param_keys : List String
include_role_allowed_param_keys = "name" ∷ "tasks_from" ∷ "public" ∷ []

abbrev pub reserved_var_names : List String
reserved_var_names =
    "hostvars" ∷ "groups" ∷ "group_names" ∷ "inventory_hostname" ∷ "inventory_hostname_short"
    ∷ "play_hosts" ∷ "ansible_play_hosts" ∷ "environment" ∷ []

abbrev pub always_secret_var_names : List String
always_secret_var_names =
    "ansible_ssh_pass" ∷ "ansible_password" ∷ "ansible_ssh_private_key_file" ∷ "ansible_become_pass"
    ∷ []

abbrev pub set_fact_module_keys : List String
set_fact_module_keys = "set_fact" ∷ "ansible.builtin.set_fact" ∷ []

abbrev pub shared_file_src_var : String
shared_file_src_var = "shared_file_src"

abbrev pub shared_file_role : String
shared_file_role = "shared_file"

abbrev pub builtin : String → String
builtin key = append "ansible.builtin." key

unfoldable pub normalize_module_key : String → Mode → String
normalize_module_key key mode =
    if member key builtin_short_names
    then builtin key
    else if str_eq key "include_role"
    then "ansible.builtin.include_role"
    else if is_resident mode && member key resident_extra_short_names
    then builtin key
    else key

abbrev pub module_allowlist_for : Mode → List String
module_allowlist_for ecs = module_allowlist
module_allowlist_for resident = module_allowlist ++ resident_extra_module_allowlist

unfoldable pub is_reserved_var_name : String → Bool
is_reserved_var_name name =
    starts_with (codes name) (codes "ansible_") || member name reserved_var_names
