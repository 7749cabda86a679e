-- ===== src/Guard/Matching.antt =====
-- The checks of server-setup/ansible-task-guard.ts on one module of a task, against what a module may do.
use mathlib.Core.List.{Memᴰ}
use mathlib.Core.Path.{subst}
use mathlib.Core.Bool.{false≢true}
use ai_support_agent_cli.Common.{
  Bool, true, false, ◌≡◌, ◌↔◌, refl, sym, ◌∙◌, String, List, arith, All, Option, none, some, lookup,
  member,
}
use ai_support_agent_cli.Guard.Yaml.{Yaml, Dict, keys, as_string, as_object}
use ai_support_agent_cli.Guard.Names.{
  Mode, is_reserved_var_name, shared_file_src_var, normalize_module_key, module_allowlist_for,
}
use ai_support_agent_cli.Guard.Safe
use ai_support_agent_cli.Guard.Safe.{IsSafeSource, IsSafeInclude, IsSafeModule, IsSafeTask}
use ai_support_agent_cli.Guard.Policy.{
  IsReserved, IsIncludeRole, member_iff, IsReserved-iff, All_iff,
}
use ai_support_agent_cli.Guard.FullNames.{
  IsIncludeRole-iff, FullName-iff, IsAllowedModule-iff, IsFileName-iff,
}
use ai_support_agent_cli.Guard.Permitted.{
  IsFree, IsPermittedInclude, IsPermittedModule, includes_role, runs_module,
}

free_names_iff :
    (names : List String)
    → All (λ name. is_reserved_var_name name ≡ false) names
      ↔ ((name : String) → Memᴰ name names → ¬ IsReserved name)
free_names_iff names =
    let (to, from) = All_iff (λ name. is_reserved_var_name name ≡ false) names in
    (
      λ h name m. (IsReserved-iff name).0 (to h name m),
      λ h. from (λ name m. (IsReserved-iff name).1 (h name m)),
    )

pub IsFree-iff :
    (o : Option Dict)
    → ((d : Dict) → o ≡ some d → All (λ name. is_reserved_var_name name ≡ false) (keys d))
      ↔ IsFree o
IsFree-iff o =
    (λ h d e. (free_names_iff (keys d)).0 (h d e), λ h d e. (free_names_iff (keys d)).1 (h d e))

all_members_iff :
    (xs ys : List String)
    → All (λ key. member key ys ≡ true) xs ↔ ((key : String) → Memᴰ key xs → Memᴰ key ys)
all_members_iff xs ys =
    let (to, from) = All_iff (λ key. member key ys ≡ true) xs in
    (
      λ h key m. (member_iff key ys).0 (to h key m),
      λ h. from (λ key m. (member_iff key ys).1 (h key m)),
    )

source_sound :
    (key : String) (vars : Option Dict) (s : String)
    → as_string (elim vars [ none ↦ none | some d ↦ lookup key d ]) ≡ some s
    → (d : Dict) × (vars ≡ some d) × (as_string (lookup key d) ≡ some s)
source_sound key none s e = cc
source_sound key (some d) s e = (d, refl, e)

source_complete :
    (key : String) (vars : Option Dict) (d : Dict) (s : String)
    → vars ≡ some d
    → as_string (lookup key d) ≡ some s
    → as_string (elim vars [ none ↦ none | some d ↦ lookup key d ]) ≡ some s
source_complete key vars d s found e = rw found e

include_permitted :
    (args : Dict) (vars : Option Yaml) → IsSafeInclude args vars → IsPermittedInclude args vars
include_permitted args vars i = record {
  role = i.role;
  named = i.named;
  allowed = (member_iff _ _).0 i.allowed;
  params = (all_members_iff _ _).0 i.params;
  tasks_from = λ y e.
      let (s, is_string, fits) = i.tasks_from y e in (s, is_string, (IsFileName-iff s).0 fits);
  vars_free = (IsFree-iff _).0 i.vars_free;
  source = λ e.
      let (s, at, safe) = i.source e in
      let (d, found, at') = source_sound shared_file_src_var (as_object vars) s at in
      (d, s, found, at', safe);
}

include_safe :
    (args : Dict) (vars : Option Yaml) → IsPermittedInclude args vars → IsSafeInclude args vars
include_safe args vars i = record {
  role = i.role;
  named = i.named;
  allowed = (member_iff _ _).1 i.allowed;
  params = (all_members_iff _ _).1 i.params;
  tasks_from = λ y e.
      let (s, is_string, fits) = i.tasks_from y e in (s, is_string, (IsFileName-iff s).1 fits);
  vars_free = (IsFree-iff _).1 i.vars_free;
  source = λ e.
      let (d, s, found, at, safe) = i.source e in
      (s, source_complete shared_file_src_var (as_object vars) d s found at, safe);
}

pub module_permitted :
    (mode : Mode) (t : Dict) (key : String) → IsSafeModule mode t key → IsPermittedModule mode t key
module_permitted mode t key (Safe.includes_role args include found ok) =
    includes_role args ((IsIncludeRole-iff mode key).0 include) found (include_permitted args _ ok)
module_permitted mode t key (Safe.runs_module no_include listed copies) =
    let plain : ¬ IsIncludeRole key =
      λ i. absurd (false≢true (sym no_include ∙ (IsIncludeRole-iff mode key).1 i)) in
    runs_module (normalize_module_key key mode) plain ((FullName-iff mode key _ plain).1 refl)
      ((IsAllowedModule-iff mode _).0 listed) copies

pub module_safe :
    (mode : Mode) (t : Dict) (key : String) → IsPermittedModule mode t key → IsSafeModule mode t key
module_safe mode t key (includes_role args include found ok) =
    Safe.includes_role args ((IsIncludeRole-iff mode key).1 include) found (include_safe args _ ok)
module_safe mode t key (runs_module name plain full allowed copies) =
    let e = (FullName-iff mode key name plain).0 full in
    Safe.runs_module (not_true _ (λ h. plain ((IsIncludeRole-iff mode key).0 h)))
      (subst (λ n. member n (module_allowlist_for mode) ≡ true) (sym e)
        ((IsAllowedModule-iff mode name).1 allowed))
      (λ is_copy. copies (sym e ∙ is_copy))
  where
    not_true : (b : Bool) → ¬ (b ≡ true) → b ≡ false
    not_true b h = ground arith
