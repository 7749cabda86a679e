-- ===== src/Guard/Secrets.antt =====
-- server-setup/ansible-task-guard.ts: what the validation returns for the tasks that name a secret.
use mathlib.Core.List.{Memᴰ}
use mathlib.Core.List.Memᴰ
use ai_support_agent_cli.Common.{true, ◌≡◌, ◌≢◌, ◌⊎◌, some, String, List, [], ◌∷◌, lookup}
use ai_support_agent_cli.Common.Text.{codes}
use ai_support_agent_cli.Guard.Yaml.{Yaml, bool, Dict, stringify_dict}
use ai_support_agent_cli.Guard.Mentions.{Mentions}

-- The variables of a connection that are secret whatever the tenant stores.
abbrev pub connection_secrets : List String
connection_secrets =
    "ansible_ssh_pass" ∷ "ansible_password" ∷ "ansible_ssh_private_key_file" ∷ "ansible_become_pass"
    ∷ []

-- A template in the JSON text of the task names a secret, of the tenant's or of a connection.
pub record NamesSecret (secrets : List String) (t : Dict) : Type 0 where
  pub name : String
  pub secret : Memᴰ name secrets ⊎ Memᴰ name connection_secrets
  pub named : Mentions (codes name) (stringify_dict t)

-- How a task of the accepted list comes out of the normalisation.
pub record IsNormalized (secrets : List String) (t n : Dict) : Type 0 where
  pub silenced : NamesSecret secrets t → lookup "no_log" n ≡ some (bool true)
  pub kept : ¬ NamesSecret secrets t → n ≡ t
  pub others : (key : String) → "no_log" ≢ key → lookup key n ≡ lookup key t

abbrev pub EachNormalized : List String → List Dict → List Dict → Type 0
EachNormalized secrets [] [] = Unit
EachNormalized secrets (t ∷ ts) (n ∷ ns) = IsNormalized secrets t n × EachNormalized secrets ts ns
EachNormalized secrets _ _ = ⊥
